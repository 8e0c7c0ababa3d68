-- ===== src/Tokens.antt =====
-- backend/internal/tokens: API tokens (model.go, repository.go, service.go).
pub mod Model
pub mod Repo
pub mod Service
pub mod Issued
pub mod Verified
pub mod Ended
pub mod Usage
pub mod Handler
pub mod Lifetimes
