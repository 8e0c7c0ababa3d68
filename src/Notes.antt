-- ===== src/Notes.antt =====
-- backend/internal/notes: the notes repository and its service.
-- The repository's statements are in `Repo`, `Listing` and `Pins`, the service in `Service`.
pub mod Title
pub mod Repo
pub mod Listing
pub mod Pins
pub mod Service
pub mod Handler
pub mod Sized
pub mod Requests
pub mod Merging
pub mod Topmost
pub mod Listed
