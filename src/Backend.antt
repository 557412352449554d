-- ===== src/Backend.antt =====
-- The API of backend/src/ledgergraph_api: its store, authentication and the endpoints that change
-- state. A handler takes the state and returns the state with a response or an error; what it
-- changed before it raised stays changed.
pub mod Errors
pub mod Store
pub mod Auth
pub mod Access
pub mod Sessions
pub mod Users
pub mod Steps
pub mod Books
pub mod Decision
pub mod Imports
pub mod Runs
pub mod Queue
