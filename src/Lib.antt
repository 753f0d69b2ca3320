-- ===== src/Lib.antt =====
-- CertMon scans the certificates of TLS devices, renews them through a CA and deploys them. A Flask
-- application (app.py) calls services (certmon/*.py) that share one SQLite database (certmon/db.py)
-- and one directory of certificate files (certmon/artifacts.py). Every service asks
-- certmon/permissions.py whether the request may act. A renewal is a job, whose states and allowed
-- transitions are in certmon/models.py and whose row carries a version: two requests meet at the
-- conditional UPDATE of the row.
--
-- Files, and what each is about:
-- - Prelude: library names passed on, Boolean tests, SQL on lists of rows, Python's text methods.
-- - Outcome: exceptions as values. A method is a function from the state to a result and a state; one
--   that raises hands back what it had written, and `transaction` rolls back as db.py does.
-- - Permissions, Models: certmon/permissions.py and certmon/models.py. The context variable of the
--   permissions is an argument.
-- - Db: certmon/db.py, a record of tables. Db.Users, Db.Sessions, Db.Jobs, Db.Certificates,
--   Db.Settings, Db.Secrets and Db.Audit have one function for each method of `Database`, named as there;
--   `_utc_now()` is the argument `now`.
-- - Auth: certmon/auth.py, with the password format in Auth.Password. `Hashing` stands for hashlib;
--   ids, salts and tokens, which are drawn at random, are arguments.
-- - Renewals: `RenewalService` of certmon/renewals.py, with `normalize_identifiers` in
--   Renewals.Identifiers; `Names` stands for ipaddress and the IDNA codec.
-- - Orchestrator: `ACMERenewalOrchestrator` of certmon/renewals.py, the way from an issued order to a
--   certificate in Orchestrator.Issuance and the requests in Orchestrator.Flow. `Services` is the
--   interface to the account and order services, the DNS provider, and the key and check functions,
--   as they answer during one request; `Kept` is what a proof asks of them.
-- - Artifacts: certmon/artifacts.py; `Vault` stands for certmon/vault.py, json and pathlib.
-- - Audit, Uploads, Credentials, Csrf: the modules certmon/audit.py, certmon/upload_queue.py,
--   certmon/credentials.py and certmon/csrf.py; the HMAC is a parameter.
-- - Acme: the account and order services of certmon/acme_service.py, in Acme.Accounts and Acme.Orders.
--   The record `Acme` stands for the clients over the packages acme and josepy, the vault, and the
--   readings of numbers and dates. `with_acme` of Acme.Served fills the interface of the orchestrator
--   with them.
-- - Deployment: `DeploymentService` of certmon/deployment.py; the adapters, the verifier and the
--   fingerprint of a certificate are the record `Deployer`.
-- - Vault: certmon/vault.py, with `rotate_secrets` of certmon/db.py in Vault.Rotation. `Cipher` stands
--   for AES-GCM and Scrypt, `Protector` for DPAPI; drawn keys, ids, nonces and salts are arguments.
--   The two files of a vault are fields of its state, so a new process is the state without its keys.
-- - Config: certmon/config.py; `Machine` stands for the environment, ipaddress and pathlib.
-- - Toolbelt: the devices and the start of a run of certmon/toolbelt.py.
-- - Dns.Manual: certmon/dns/manual.py, with the resolver as a parameter.
-- - Tests: concrete stores, runs of the models on them, and the theorems at such inputs.
--
-- Choices: an instant is a natural number of microseconds. A JSON column is the list or record that
-- is stored in it. A table is a list of rows in the order of their ids. The text of a `ValueError` or
-- a `KeyError` is shortened where no code reads it. The lower case of user names is ASCII, as in
-- SQLite. All loops of the modelled code run over lists or a number of attempts, so the functions are
-- total and there is no fuel. Locks make one method a step; processes meet at transactions only.
--
-- Not modelled: connections, the schema script and the migration of old data, the native ACME
-- clients, app.py and launcher.py, certificate parsing and issuing, device protocols and
-- backups: large modules over I/O and cryptography. Random numbers, hashes and ciphers are parameters.
pub mod Prelude
pub mod Outcome
pub mod Permissions
pub mod Models
pub mod Db
pub mod Auth
pub mod Audit
pub mod Uploads
pub mod Vault
pub mod Credentials
pub mod Csrf
pub mod Artifacts
pub mod Orchestrator
pub mod Deployment
pub mod Dns
pub mod Acme
pub mod Renewals
pub mod Toolbelt
pub mod Config
mod Tests
