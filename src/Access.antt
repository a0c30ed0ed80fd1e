-- ===== src/Access.antt =====
-- Staff accounts: the rows, the guards of the routes, the sessions, and the services on users and
-- roles.
pub mod Rows
pub mod Guard
pub mod Sessions
pub mod Users
pub mod Roles
pub mod Calls
pub mod Tokens
pub mod Revoked
pub mod Administered
