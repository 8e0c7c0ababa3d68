-- ===== src/Db.antt =====
-- The database: backend/internal/db/migrations/*.up.sql, as the packages read the rows.
-- A table is its rows in insertion order; a `*_seq` field is the last number that AUTOINCREMENT
-- gave out in its table. Times are nanoseconds of Unix time. The driver runs one statement at a
-- time over one connection (db.go), so a statement is atomic.
pub mod Cascade
use crapnote.Base.{ℕ, ◌*◌, ◌/◌, String, Bool, Option, List}
use crapnote.Base.Ints.{ℤ}

-- A text that is read byte by byte.
abbrev pub Bytes : Type 0
Bytes = List ℕ

pub record User : Type 0 where
  pub id : ℕ
  pub username : String
  pub password_hash : String
  pub is_admin : Bool
  pub api_tokens_enabled : Bool
  pub locked_at : Option ℕ
  pub locked_until : Option ℕ
  pub created_at : ℕ

pub record Session : Type 0 where
  pub id : String
  pub user_id : ℕ
  pub expires_at : ℕ
  pub created_at : ℕ

pub record Invite : Type 0 where
  pub id : ℕ
  pub user_id : ℕ
  pub token_hash : String
  pub expires_at : ℕ
  pub created_at : ℕ

pub data Scope : Type 0 where
  read : Scope
  read_write : Scope
  other : String → Scope

pub record Token : Type 0 where
  pub id : ℕ
  pub user_id : ℕ
  pub name : Bytes
  pub token_hash : String
  pub prefix : Bytes
  pub scope : Scope
  pub last_used_at : Option ℕ
  pub expires_at : Option ℕ
  pub revoked_at : Option ℕ
  pub created_at : ℕ

pub record Note : Type 0 where
  pub id : ℕ
  pub user_id : ℕ
  pub title : Bytes
  pub body : Bytes
  pub starred : Bool
  pub pinned : Bool
  pub pin_order : ℤ
  pub archived : Bool
  pub locked : Bool
  pub created_at : ℕ
  pub updated_at : ℕ

pub record TrashRow : Type 0 where
  pub note_id : ℕ
  pub user_id : ℕ
  pub deleted_at : ℕ

pub record Tag : Type 0 where
  pub id : ℕ
  pub user_id : ℕ
  pub name : String
  pub created_at : ℕ

pub record NoteTag : Type 0 where
  pub note_id : ℕ
  pub tag_id : ℕ

pub record Image : Type 0 where
  pub id : Bytes
  pub user_id : ℕ
  pub mime_type : String
  pub contents : Bytes
  pub created_at : ℕ

pub record Db : Type 0 where
  pub users : List User
  pub user_seq : ℕ
  pub sessions : List Session
  pub invites : List Invite
  pub invite_seq : ℕ
  pub tokens : List Token
  pub token_seq : ℕ
  pub notes : List Note
  pub note_seq : ℕ
  pub trash : List TrashRow
  pub tags : List Tag
  pub tag_seq : ℕ
  pub note_tags : List NoteTag
  pub images : List Image

abbrev pub second : ℕ
second = 1_000_000_000

-- CURRENT_TIMESTAMP has whole seconds.
unfoldable pub current_timestamp : ℕ → ℕ
current_timestamp now = now / second * second
