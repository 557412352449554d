-- ===== src/Lib.antt =====
-- AI Finance Controller: the reconciliation engine, the money types that it stands on, and the API
-- with its accounts, sessions, imports, runs and decisions.
--
-- The program imports the records of five systems (payment gateway, settlement export, bank
-- statement, invoices, ledger), brings each into a canonical transaction, and reconciles them: a
-- ladder of rules links a settlement batch with its lines, their payments, the bank credit and the
-- journal; a gate decides whether the group is cleared or goes to a human; detectors raise
-- exception cases, which form a queue in order of risk. The API takes uploads into a store, runs the
-- engine over the imports that completed, and records people's decisions on the cases; who may do
-- what rests on accounts with roles, on access tokens, and on refresh tokens that are used once.
--
-- Which file models what (paths of the repository):
--   Domain/Enums        packages/domain/ledgergraph_domain/enums.py
--   Domain/Canonical    packages/domain/ledgergraph_domain/canonical.py: CanonicalTransaction with
--                       its __post_init__, norm for external_id_norm, with_flag
--   Domain/Money        packages/domain/ledgergraph_domain/money.py: split_sign, apply_direction
--                       and allocate_minor
--   Recon/Models        models.py of packages/reconciliation/ledgergraph_reconciliation, as are the
--                       next ones: the shapes of results
--   Recon/Index         index.py: TransactionIndex, one function for each method
--   Recon/Bridge        bridge.py: the two bridges and the fee schedule
--   Recon/Policy        policy.py: Policy, evaluate_gate, apply_gate
--   Recon/Scoring       scoring.py: score_group, score_candidate, margin_between
--   Recon/Rules         rules.py: R1 to R5, and R6 in Rules/Scored
--   Recon/Exceptions    exceptions.py: the detectors of a batch, and in Standalone those of a run
--   Recon/Outcome       engine.py: _classify, _amount_at_risk, _raise_cases
--   Recon/Settlement    engine.py: _reconcile_settlements, with RunState for the index and the
--                       result that the stages mutate
--   Recon/Engine        engine.py: the other stages, and execute
--   Recon/Index/Overflow, Recon/Engine/Overflow  index.py and engine.py: where a date overflows
--   Domain/Workflow     enums.py: the vocabularies of the backend
--   Backend/Errors      errors.py of backend/src/ledgergraph_api, as are the next ones
--   Backend/Store       store.py: users, refresh tokens and the audit trail of InMemoryRepository
--   Backend/Books       store.py: its imports, runs, cases, groups and decisions
--   Backend/Auth        auth.py: passwords, access tokens, refresh tokens
--   Backend/Access      deps.py: current_user, require_role
--   Backend/Sessions    routers/auth.py: register, login, refresh, logout
--   Backend/Users       routers/auth.py: the endpoints for users, seed_demo_users, bootstrap_admin
--   Backend/Steps       those handlers as the steps of a relation, in any order
--   Backend/Decision    routers/exceptions.py: decide
--   Backend/Queue       routers/exceptions.py: list_exceptions, with the text of a cursor as the
--                       parameter CursorCodec
--   Backend/Imports     routers/imports.py: create_import
--   Backend/Runs        routers/runs.py: start_run, _execute_run
--   Ai/Redact           packages/ai_investigation/ledgergraph_ai/redact.py: Redactor.pseudonym
--                       and reveal, with SHA-256 as a parameter
--   Double              Python's float, a parameter
--   Common              what these share: lists, integers, text, dicts, Python's sort
--   Tests               a small run, and every theorem of the list below at a concrete input
--
-- How the code is modelled. Minor units are Python's unbounded ints, so integers are unbounded. A
-- date is its ordinal and a text the list of its code points; upper and lower act on the ASCII
-- letters, which identifiers and codes use; white space is all of Unicode's. A float is a value of a
-- type W with the operations of the record Double, on which no law of arithmetic is assumed: the
-- theorems that compare floats take the laws of IsOrdered (a total order, rounding that keeps it,
-- literals that compare like what they write), which Double/Scaled shows can hold. A dict is an
-- association list in insertion order, a set a list asked only for membership. sort is stable.
-- The records of a run are distinct objects, so that `is` between two candidates compares places
-- in the list. Where the code mutates a group that a list already holds, the model builds the final group first.
-- Loops are recursion on the list or the range that they run over, and so need no fuel, but in three
-- places: the text of a number n has fuel n + 1; the loop over the suffixes of a pseudonym has one
-- pass more than there are pseudonyms, which its theorem shows to be enough; and the client of the
-- theorem about pages sends one request more than there are cases. The early return of the
-- candidate scan is the constructor returned of Scan.
-- execute computes with unbounded dates; run_engine of Recon/Engine/Overflow raises where a window
-- leaves Python's dates, which end with 9999-12-31, and is what the API runs. Floats raise nothing:
-- amounts are taken to lie in their range.
--
-- A handler of the API is a function of the store, which returns the new store with a response or an
-- error; what it changed before it raised stays changed. It runs at one instant, in whole seconds.
-- Argon2, SHA-256 and PyJWT are the record Crypto: the theorems about tokens and passwords take the
-- laws of IsSound (a hash verifies against what was hashed, a signed token decodes to its claims
-- from when it was issued until it expires), which Tests/Cipher shows can hold. Ids and secrets that
-- the code draws at random are arguments; IsFresh says that one has not been drawn before. The csv
-- reader and the normalisers are the record Reader of Backend/Imports.
--
-- Not modelled: sentences for the reader (statements, labels, recommendations), whose values are
-- kept as data; stage timings; parsing and formatting of amounts; the normalisers of the import;
-- the packages around a language model, but for pseudonyms, and the endpoint that asks it; the reports of the API
-- and its other listings; the Postgres store, migrations, generators of synthetic data and the client.
pub mod Common
pub mod Double
pub mod Domain
pub mod Recon
pub mod Backend
pub mod Ai
pub mod Tests
