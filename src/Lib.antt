-- ===== src/Lib.antt =====
-- Facetech: a hardened gateway (packages/face-auth) before a biometric engine (engine). The gateway
-- signs people in, decides who may do what, limits demand and stores templates and jobs; the engine
-- issues challenges, reads scans and judges them. This library models the parts that decide, and
-- proves what makes each correct.
--
-- Which file models what, with the path of the code:
-- - Base: lists, dictionaries in insertion order, texts and integers as Python has them.
-- - Numbers: doubles and random numbers, as records of the operations that the code uses.
-- - Contracts: packages/face-auth/src/facetech_auth/contracts.py, the exception `Denied`, as the
--   error of a result type.
-- - Policy: packages/face-auth/src/facetech_auth/policy.py. `authorize` is a function of the state
--   that its callers load; `Policy.Names` parses action names.
-- - Limits: packages/face-auth/src/facetech_auth/limits.py. A `Window` is a record whose `hits` is the
--   OrderedDict; `retry_after` and `enforce` take a reading of the clock in nanoseconds and return
--   the new window. Floating-point rounding of the clock is not modelled. `Admission` has its two
--   halves, `enter` and `leave`, and `Limits.Slots` runs them in every order.
-- - Challenge: engine/app/challenge.py. The dictionary `_issued` goes from call to call; each block
--   under the lock is one step. `Challenge.Issue` draws, `Challenge.Scan` reads a scan.
-- - Flash: the drawing of the glow schedule in engine/app/flash.py. Draws are numbered arguments.
-- - Flags: engine/app/flags.py, with the set of reported warnings and the log as the state.
-- - Database: packages/face-auth/src/facetech_auth/schema.py as lists of rows, and the transaction of
--   postgres.py; `Database.Rows` has the statements, `Database.Tx` rolls back where a callable
--   raises.
-- - Guard: `guard` of packages/face-auth/src/facetech_auth/postgres.py. The row locks that it takes
--   make a transaction one step.
-- - Accounts: the other transactions of postgres.py, over logins, sessions and the logout outbox;
--   `Accounts.Provision` has provision.py and registration.py of the same package, and
--   `Accounts.Status` says what a session is to a client: absent, live or ended. `Accounts.Refines`
--   has the relation of one transaction, also of provision.py, registration.py and recovery.py.
-- - Sessions: sessions.py of the same package, the class `Sessions` over the transactions of
--   `Accounts`. The provider and the vault of tokens are an interface; what other requests commit
--   while the provider is called is an argument.
-- - Oidc: oidc.py of the same package. `Oidc` has the cache of keys, `Oidc.Checks` the tests on claims,
--   `Oidc.Provider` the calls that sessions are made of, over the provider's answers.
-- - Lifecycle: packages/face-auth/src/facetech_auth/lifecycle.py, each transaction a function of the
--   database; `Lifecycle.Expiry` has `expire`, `Lifecycle.Jobs` runs the others in every order.
-- - Recovery: recovery.py of the same package with `recover` of postgres.py, as a state that is read
--   from a backup and the sealed ledger.
-- - Operations: packages/face-auth/src/facetech_auth/operations.py. `Operations.Scan` has the
--   transactions `claim`, `commit` and `finish` of a scan, `Operations.Requests` that of every other
--   action; the analysis between them is an argument, as are fresh identities and the readings of
--   the clock.
-- - Privacy: privacy.py of the same package, a recording from its reservation to its receipt.
-- - Encryption: encryption.py of the same package, with AES-GCM and JSON as an interface.
-- - Store: engine/app/store.py, the dictionary of templates in insertion order.
-- - FaceScan: engine/app/facescan.py, the parse of a scan and the walk over the markers of a JPEG.
-- - HeadSequence: engine/app/head_sequence.py, whether and why an order of head turns is refused.
--
-- How the parts meet: `Challenge.Issue` carries the schedule of `Flash`; a scan is read by
-- `Challenge.Scan`, which spends its nonce by `check`; refusals are `Denied` values of `Contracts`,
-- also where a part raises an exception of its own. In the gateway, `Sessions` runs the transactions
-- of `Accounts`; `Operations` calls `Guard`, which asks `Policy` over the rows of `Database`, and
-- refuses to commit what `Lifecycle`, `Accounts` or `Recovery` has ended meanwhile.
--
-- Loops are structural recursions over the lists that the code walks. The one loop with an index, in
-- `FaceScan.jpeg_dimensions`, takes the length of the bytes and one more as fuel, and each turn
-- leaves at least one byte behind.
--
-- What is not modelled: the HTTP and database drivers, OpenCV, numpy and the ONNX models, the
-- cryptography, deployment and evaluation scripts, which the code calls or is a thin layer over; the
-- routes of engine/app/main.py and packages/face-auth/src/facetech_auth/http.py, and the measures of
-- engine/app/liveness.py. Messages for people and log lines are left out, but for the warnings of
-- `Flags`.
pub mod Accounts
pub mod Base
pub mod Challenge
pub mod Contracts
pub mod Database
pub mod Encryption
pub mod FaceScan
pub mod Flags
pub mod Flash
pub mod Guard
pub mod HeadSequence
pub mod Lifecycle
pub mod Limits
pub mod Numbers
pub mod Oidc
pub mod Operations
pub mod Policy
pub mod Privacy
pub mod Recovery
pub mod Sessions
pub mod Store
