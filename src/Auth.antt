-- ===== src/Auth.antt =====
-- backend/internal/auth: users, sessions and invites (model.go, repository.go), the service
-- (service.go) and the middleware (middleware.go). The login tracker is in Lockout.
pub mod Users
pub mod Sessions
pub mod Invites
pub mod Service
pub mod Login
pub mod Handler
pub mod Answers
pub mod Account
pub mod Oracle
pub mod Access
pub mod Validation
pub mod Rewritten
pub mod Revocation
