-- ===== src/Tests.antt =====
-- Concrete data on which the theorems are applied and the definitions run.
pub mod Client
pub mod Cli
pub mod Mcp
pub mod Version
pub mod Login
pub mod Sessions
pub mod Lockout
pub mod Content
pub mod Notes
pub mod Tokens
pub mod Gate
pub mod Tags
pub mod Admin
pub mod Images
pub mod Answers
pub mod Usage
pub mod Export
use crapnote.Base.{
  ℕ, Bool, true, false, Option, none, some, List, [], ◌∷◌, String, str_eq, if◌then◌else◌,
}
use crapnote.Base.Ints.{ℤ, pos}
use crapnote.Db.{Db, User, Session, Invite, Note, TrashRow, Token, second, read}
use crapnote.Lockout.{Tracker, new_lockout_tracker}
use crapnote.Auth.Service.{Crypto, Config, World}

-- A hash is the text itself.
abbrev pub plain : Crypto
plain = record {
  sha256 = λ s. if str_eq s "alice" then 1 else 2;
  to_lower = λ s. s;
  hash_invite_token = λ s. s;
  generate_hash = λ salt p. some p;
  compare_hash = λ h p. str_eq h p;
}

abbrev pub policy : Config
policy = record {
  ttl = pos 1000;
  max_failed_attempts = 3;
  lockout_cooldown = pos 100;
  has_invites = true;
}

abbrev pub alice : User
alice = record {
  id = 1;
  username = "alice";
  password_hash = "secret";
  is_admin = false;
  api_tokens_enabled = true;
  locked_at = none;
  locked_until = none;
  created_at = 0;
}

abbrev pub note : ℕ → ℕ → Bool → Note
note id user locked = record {
  id = id;
  user_id = user;
  title = 116 ∷ [];
  body = 98 ∷ [];
  starred = false;
  pinned = false;
  pin_order = pos 0;
  archived = false;
  locked = locked;
  created_at = 5;
  updated_at = 5;
}

abbrev pub store : Db
store = record {
  users = alice ∷ [];
  user_seq = 1;
  sessions = record { id = "s1"; user_id = 1; expires_at = 500; created_at = 0 } ∷ [];
  invites =
      record { id = 1; user_id = 1; token_hash = "inv"; expires_at = 500; created_at = 0 } ∷ [];
  invite_seq = 1;
  tokens = [];
  token_seq = 0;
  notes = note 1 1 true ∷ note 2 1 false ∷ note 3 2 false ∷ [];
  note_seq = 3;
  trash = record { note_id = 3; user_id = 2; deleted_at = 0 } ∷ [];
  tags = [];
  tag_seq = 0;
  note_tags = [];
  images = [];
}

abbrev pub world : World
world = record { db = store; attempts = new_lockout_tracker }
