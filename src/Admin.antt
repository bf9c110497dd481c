-- ===== src/Admin.antt =====
-- backend/internal/admin: the accounts, the login, the access tokens and the guard of the admin's
-- routes.
pub mod Sql
pub mod Token
pub mod Service
pub mod Login
pub mod Guard
