-- ===== src/Lib.antt =====
-- The rule-asset governance service: datasets of rules and of knowledge, whose entries people and
-- language models write, and which are published only after checks, a machine gate and a human's
-- approval.
--
-- The parts of the program and the files that model them:
--   Model/*        src/model/*.rs: the life cycle, roles, governance, entries, datasets and the
--                  events of failures, one type for each of the source's.
--   Validate/*     src/validate/mod.rs: the boundary for language models and the legal transitions
--                  (Boundary), the agreement of services (Symbols), the search for secrets
--                  (Credentials) and the elements of laws (Law), over the functions of
--                  Rust's `str` in Chars; Ingest is the contract of src/model/knowledge.rs.
--                  Mcp: the approved servers and the packs of src/model/mcp_servers.rs and
--                  mcp_packs.rs.
--   Store/*        src/store/mod.rs: the tables as lists of rows (State), the reads (Query), the
--                  operations on rule entries (Entries) and on knowledge entries (Knowledge), the
--                  review after a machine release (Review), the operations on datasets (Datasets),
--                  publication and versions (Publish), and the stores that they reach from an
--                  empty one (Reach): all of them but those on knowledge entries, with datasets
--                  created in the default life cycle and updated with the life cycle that was
--                  read, as the handlers do. Moves and Saved describe, apart from the operations,
--                  what a change of status and the keeping of a content leave behind.
--   Gate           src/gate/mod.rs: the six checks of the machine gate and their tier.
--   Quota          src/api/quota.rs: the sliding window over a tenant's machine transitions.
--   Accounts/*     src/store/mod.rs: the tables of tenants, users, organisations and their members,
--                  the audit log of authentication, revoked tokens and API keys.
--   Auth/*         src/auth/mod.rs: HMAC, PBKDF2 and hexadecimal text (Digest), passwords (Password),
--                  tokens (Token), dates (Clock), a method as a flow of steps over the accounts
--                  (Flow), register and login (Service), refresh and logout (Session), and all that
--                  operations on accounts lead to (Reach).
--   Api/*          src/api/mod.rs: who sends a request (Access), a request that is sent again
--                  (Idempotency), and the pages of a result (Page).
--   KeyRing        src/model/secret.rs and src/auth/mod.rs: two generations of keys, and the
--                  verification of tokens against both.
--   External       what the program takes from other crates, as the fields of one record; each
--                  definition that depends on them takes a value of it.
--   Prelude        shared names, `Result` with its `?`, list lemmas. Demo holds data for tests.
--
-- How the parts interact: an operation of the store calls the validation, then writes. The gate's
-- tier goes to `transition_entry_status_machine`, which asks the boundary check again and writes an
-- audit row that names the tier; the publication reads those rows. The quota stands in front of
-- the machine transitions and shares no state with the store. The flows of authentication work on
-- the tables of accounts alone; the role that a token carries is the one that the store's members
-- table gives at the time of the login or the refresh.
--
-- How the model corresponds: an operation is a function from its arguments and a store to a
-- `Result` of the store after it, with the checks in the source's order. A failed operation writes
-- nothing, as the source's transactions do; a statement that the database's constraints allow is
-- taken to succeed. An operation is one step: the source locks the connection for each statement or
-- transaction, so where an operation reads before its transaction (the transitions, the edits) a
-- concurrent one can come between, which is not modelled. Texts that are only compared
-- are native strings; those that are searched are lists of code points. Counters are unbounded:
-- none of the modelled code computes with versions or counts beyond comparing them, and a time of
-- the quota is a distance from a start. The failure rate of the gate, a quotient of `f64` compared
-- with one half, is the comparison of integers that it equals below 2 ^ 53. A method of
-- authentication, which writes audit rows also where it fails, is a function from the accounts and
-- the number of random draws so far to a result and both after it. Times are unix seconds that are
-- not negative and lie before the year 10000. The one loop with fuel is that of PBKDF2, as many
-- rounds as bytes are asked for; the other loops are structural recursion.
--
-- Not modelled: the knowledge entries in Reach, import and export, the listings of accounts, the
-- HTTP handlers, the service catalogue, the scan reports of MCP servers, search, and the command
-- line. The notes of the gate's checks are prose and left out. Two panics are left out: that of
-- `unhex` inside a character that is not ASCII, and that of a salt too short for Argon2id.
mod Prelude
mod Demo
pub mod External
pub mod Model
pub mod Accounts
pub mod Api
pub mod Auth
pub mod Chars
pub mod Validate
pub mod Store
pub mod Gate
pub mod Quota
pub mod KeyRing
