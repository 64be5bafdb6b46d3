-- ===== src/Lib.antt =====
-- agent-runner-opencode: the provider that runs OpenCode launches for an agent runner.
--
-- A host sends requests to the provider. The settings requests keep a store of records, each of which
-- names one of five declared accounts and either no model or one route of the model catalogue. A
-- launch names a record; the policy resolves the record to its account and route, checks the launch
-- arguments against them and lays out the arguments that are run. Each request under way is held in
-- custody, by an index of slots or by a marker and a maintenance queue, so that an abandoned one is
-- found again. The turns of a native session are read in pages of a snapshot, which opaque tokens
-- connect.
--
-- The files and the code that they are about:
--   Prelude: the names that all files share, from the libraries and on lists, texts and sorted maps.
--   Json: the values of serde_json as the code reads and writes them.
--   Failure: src/envelope.rs, `ProviderFailure` and its constructors, with results and do blocks.
--   Account: src/account.rs, the declared accounts and the two lookups of a reference.
--   Models: src/models.rs, the catalogue, its lookups, eligibility and the launch arguments.
--   Encoding: src/encoding.rs, `encode_base64` and `decode_base64`.
--   Settings.Definition: src/settings_definition.rs, `validate_values` with each of its rules.
--   Settings.Values: src/settings.rs, sanitizing, normalizing and upgrading the values of a record.
--   Settings.Store and Settings.Records: the store, its bounds and the operations on its records
--     (`find_record`, `update_record`, `ensure_version`, `unique_settings_id`, `version_token`).
--   Settings.Requests: `create_params`, `update_params`, `delete_params`, `get_params` and
--     `resolve_persisted_runtime_record`, each as the function of a store that the transaction runs.
--   Settings.Migration: `migrate_params`, legacy provider tables made into records.
--   Settings.History: `append_settings_history` and the changes that an event lists.
--   Settings.Persistence: reading, upgrading and writing the store file, and the bounded read of
--     src/durable_fs.rs.
--   Settings.Mutation: `mutate_store`, the transaction around every writing request.
--   Settings.Handler: the writing commands of `handle`, each run by the transaction.
--   RuntimeSelection: src/runtime_selection.rs, `resolve_runtime_selection`.
--   Policy: src/policy.rs, `evaluate`; Policy.Arguments has the arguments and their prefixes.
--   Custody.Active: src/request_custody.rs, `ActiveIndex` of the fixed policy: `validate`, `reserve`,
--     `reserve_unbound`, `bind_unbound`, `remove`, `next_occupied`, `retry_next`, `contains` (here
--     `holds`) and `reservation`.
--   Custody.Markers: src/request_custody.rs, the markers and tickets of the distributed policy:
--     `reserve_active_marker`, `reserve_independent_active_marker`, `remove_active_marker`,
--     `enqueue_maintenance` and `maintain_distributed`.
--   SessionPages: src/session_turn_pages.rs: the parameters (`validate_params`), the tokens
--     (`encode_token`, `decode_token`), the rows of the database and the messages that are loaded,
--     `select_message_payloads`, `classified_parts`, `page_result`, `read_page`, `page_state` and
--     `read_turns`.
--   Examples: concrete runs of the definitions and of the theorems.
--
-- A store is a value that the operations take and give back, and a file is an optional value of the
-- platform's bytes: `mutate_store` gives the answer and the file after it. It runs under an exclusive
-- lock, so that the file is the same from the read to the rename. What the system answers to each call
-- (directories, the lock, the temporary file, the rename, the synchronization) is a flag of the record
-- `System`; the readings of the clock are fields of the record `Clock`.
--
-- Parameters for code of other crates: `Platform` has the digest, the text of JSON values and of
-- numbers, and the reading and writing of a whole store; `DecodesEncoded` is the documented round trip
-- of serde with derived implementations for plain stores, those of 64-bit integers without floats and
-- nested at most 100 levels deep: the parser of serde_json stops at 128 levels and may be off in the
-- last bit of a float. `Sdk` has the answer of tool mediation and the name of the exploration variable.
-- Parsed parameters are arguments, `none` where the parser refuses them; the
-- tables of the TOML parser are arguments too. `Codec` has the reading and writing of a token's
-- payload and its authentication code; `Database` and `Moment` have the rows that the queries answer;
-- `Authority` has the decoders of the tokens and the digest of a snapshot. `Projector` has the parts of
-- messages and their bodies, so that a page is about any `classified_parts` and `project_bodies`; the
-- first is modelled in SessionPages.Parts over a `PartSource`, which has the rows, the bytes that
-- `load_part_bytes` gives and `part_type_from_prefix`. What is done to a request
-- that maintenance finds is an argument too, since it is the replay ring's and the lock files' part.
--
-- Bounds: the search for an identifier runs over attempts without end in the source; here it has one
-- attempt more than there are records, which is enough where these candidates differ. All other
-- loops are structural; maintenance has the 16 probes of the source. Numbers are natural numbers; the
-- differences that the source takes saturate at zero there as here, and the additions that saturate or
-- are checked there are written out for 64 bits. The number of a history event wraps around, as it does
-- where overflow is not checked.
--
-- The files of the custody are maps whose writes take place; a failure in the middle of an operation
-- is its error, and what was written until then is not kept in the model, nor are the limits on the size
-- of a record.
--
-- Not modelled: the text of failures and diagnostics that is for people (`message`, `details`,
-- `warnings`), the activity labels of requests, the readiness reports of a transition, the response
-- envelopes, the replay ring of request custody with its shards of requests before their effects and
-- its migrations, the bodies of messages and the loading of their parts, the commands that query the
-- database and the check of its schema, the enumeration of sessions, and the parts of the provider that
-- launch processes, rotate accounts and rebind native identities.
pub mod Prelude
pub mod Json
pub mod Failure
pub mod Account
pub mod Models
pub mod Custody
pub mod Encoding
pub mod Settings
pub mod RuntimeSelection
pub mod Policy
pub mod SessionPages
pub mod Examples
