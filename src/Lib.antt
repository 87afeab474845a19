-- ===== src/Lib.antt =====
-- Invoices & Contracts: a web server that keeps customers, invoices and contracts, and lets the
-- customer of a contract sign its slots. Its user logs in and is known by an access token, which a
-- refresh token renews; both are stored as hashes and can be revoked. A signing makes a fresh
-- Ed25519 key, signs the hash of the content, stores signature and public key, fills the slot and
-- counts it; the last one also stores a hash over all signatures. Anyone with the customer's UUID
-- can view and verify a contract; wrong UUIDs are counted by client address and limited.
--
-- Files and code, with paths from the root of the repository:
--   Base, Base/*         lists over native numbers, Boolean equality, bytes, `i32` as integers
--   RateLimit            src/rate_limit.rs: RateLimiter, check_rate_limit, record_failed_attempt,
--                        reset_attempts, get_attempt_count
--   RateLimit/Table      the map from client addresses; Window, Live, Plain and Cleanup prove
--   Crypto               src/crypto.rs: generate_keypair, sign_contract, verify_signature,
--                        generate_verification_code, hash_content, generate_final_hash
--   Models, Database     src/models.rs, src/schema.rs and migrations/: the rows and tables, and the
--                        queries that the handlers build
--   Server, Server/*     a handler over database and limiter, with status codes as errors; rules for
--                        handlers that write nothing
--   Contracts/Access     src/handlers/contracts.rs: verify_customer_uuid, mask_id, and the rate check
--                        around it
--   Contracts/Sign       sign_contract; SignKeeps, SignEffect, SlotCounts, Commit, Signed,
--                        Consistent, SignConsistent, Once, Ready, Tampered and Overlap prove
--   Contracts/Interleaved  any number of signings that take turns; Covered,
--                        CoveredMoves, Schedules and OneEach prove
--   Contracts/Pages      view_contract_for_signing, contract_signed_success, verify_contract,
--                        download_proof; Verify proves
--   Contracts/Admin      create_contract, list_contracts, get_contract_admin, update_contract,
--                        delete_contract; Create, Accounts, Sound, CreateSound, ChangeSound,
--                        SignSound, Owned and OwnedKept prove
--   Program, Program/*   code with early returns, and the rules for it
--   Auth/Config          src/config.rs: JwtConfig and the check of its secret
--   Auth/Store           src/auth.rs: passwords, tokens and users, with the tables of
--                        Database/Accounts
--   Auth/Cookies         extract_cookie, extract_bearer, apply_refreshed_cookies; Headers proves
--   Auth/Extract         the extractor AuthUser; Stable, Keeps, Dead, Reject, Rotate and
--                        Accept prove
--   Accounts/*           src/handlers/auth.rs: Login (login, logout, verify_auth), Setup (check_setup,
--                        setup_first_user), Profile (get_current_user, update_user), Replies (their
--                        answers and shared steps); Issued, LoggedIn, Sessions, Invalid,
--                        FirstUser, UpdateChecks, Updates, Stale, Keeps and LoggedOut prove
--   Crud, Crud/*         src/handlers/crud.rs: the trait CrudModel, its handlers and the tables of
--                        customers and invoices, and of contracts in src/handlers/contracts.rs,
--                        whose insertion is OfContracts; Map is the specification, Finds, Rows,
--                        Refines, Lawful and Keeps prove
--   Invoices             src/models.rs: the amounts of an invoice; Invoices/Page models
--                        view_invoice_handler of src/main.rs, Totals and Shown prove
--   Models/Json          src/models.rs: serialize_json_str, deserialize_json_obj,
--                        deserialize_opt_number_to_string
--   Routes               src/main.rs: the routes of main and the pages it answers itself, crud_router
--                        of src/handlers/crud.rs; Upholds, Keeps, Access, Users,
--                        Sessions, History and Owned prove
--   */*Tests, */Toy, */World   runs and concrete inputs
--
-- A handler is a function from the state to an outcome and the new state, which holds also when
-- the handler fails, as what is written stays written. Which calls of the database fail is an
-- argument. Routes puts the handlers together: a request names its route, a protected one runs the
-- extractor first, and a history of the server is a list of requests. One handler runs
-- at a time, but for Contracts/Overlap, where two signings have read before either writes, and
-- Contracts/Interleaved, where any number of signings take turns: the reads of a signing are one
-- step, each of its writes is another. The clock, random bytes, UUIDs, request headers and the
-- order of rows where a query gives none are arguments; ed25519_dalek, sha2, hex, uuid, chrono,
-- jsonwebtoken, bcrypt, rust_decimal and serde_json are parameters, with the documented behaviour
-- that a theorem needs as its hypotheses. Loops are structural, so no fuel is used. `u32` and `i32`
-- additions wrap, as in a release build; texts are UTF-8 bytes.
--
-- Whether SQLite enforces foreign keys is a parameter: if it does, the deletion of a contract takes
-- its slots along, and is refused where there is a signature. Every other query that a foreign key
-- refuses counts as one that fails. The unrouted deletion of CrudModel for contracts leaves the
-- slots.
--
-- The decimals of invoices are taken as total, where rust_decimal panics on an overflow.
--
-- Not modelled: overlapping requests other than signings, the start of the server, and the
-- rendering of templates.
pub mod Base
pub mod RateLimit
pub mod Routes
pub mod Crypto
pub mod Models
pub mod Database
pub mod Server
pub mod Contracts
pub mod Program
pub mod Auth
pub mod Accounts
pub mod Crud
pub mod Invoices
