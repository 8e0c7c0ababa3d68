-- ===== src/Db/Cascade.antt =====
-- Foreign keys with ON DELETE CASCADE (migrations 0001 to 0009): what a deleted row takes with it.
use crapnote.Base.{ℕ, Bool, ◌&&◌, ◌==◌}
use crapnote.Base.Table.{delete, exists}
use crapnote.Db.{Note, Tag, Db}

-- DELETE FROM notes WHERE p: the trash rows and tag links of the deleted notes go too.
unfoldable pub delete_notes : (Note → Bool) → Db → Db
delete_notes p db = record db {
  notes = delete p db.notes;
  trash = delete (λ t. exists (λ n. p n && n.id == t.note_id) db.notes) db.trash;
  note_tags = delete (λ l. exists (λ n. p n && n.id == l.note_id) db.notes) db.note_tags;
}

-- DELETE FROM tags WHERE p
unfoldable pub delete_tags : (Tag → Bool) → Db → Db
delete_tags p db = record db {
  tags = delete p db.tags;
  note_tags = delete (λ l. exists (λ t. p t && t.id == l.tag_id) db.tags) db.note_tags;
}

-- DELETE FROM users WHERE id = ?: every table that refers to the user.
unfoldable pub delete_user : ℕ → Db → Db
unfolding delete_notes delete_tags
delete_user id db =
    let content = delete_tags (λ t. t.user_id == id) (delete_notes (λ n. n.user_id == id) db) in
    record content {
      users = delete (λ u. u.id == id) db.users;
      sessions = delete (λ s. s.user_id == id) db.sessions;
      invites = delete (λ i. i.user_id == id) db.invites;
      tokens = delete (λ t. t.user_id == id) db.tokens;
      trash = delete (λ t. t.user_id == id) content.trash;
      images = delete (λ i. i.user_id == id) db.images;
    }
