-- ===== src/Settings.antt =====
-- src/settings.rs and src/settings_definition.rs: the settings store of the provider.
pub mod Definition
pub mod Values
pub mod Store
pub mod Records
pub mod Requests
pub mod Migration
pub mod History
pub mod Persistence
pub mod Mutation
pub mod Handler
