-- ===== src/Examples.antt =====
-- The tests and examples of the library.
mod Data
mod Settings
mod Requests
mod Catalogue
mod Launches
mod Custody
mod Pages
mod Parts
mod Resumed
