-- ===== src/Server/Bindings.antt =====
-- The handler of each operation, and the checks that newMux makes of the table: backend/cmd/server/server.go.
use crapnote.Base.{not, List, [], ◌∷◌, String, str_eq}
use crapnote.Base.Table.{exists, select}
use crapnote.Api.{Operation}

-- An operation's name with the method that handles it.
abbrev pub bindings : List (String × String)
bindings =
    ("health", "handleHealth")
    ∷ ("theme_get", "settingsHandler.GetTheme")
    ∷ ("auth_login", "authHandler.Login")
    ∷ ("auth_logout", "authHandler.Logout")
    ∷ ("auth_me", "authHandler.Me")
    ∷ ("auth_change_password", "authHandler.ChangePassword")
    ∷ ("version_get", "versionHandler.Get")
    ∷ ("setup_get", "setupHandler.Get")
    ∷ ("setup_complete", "setupHandler.Complete")
    ∷ ("tokens_list", "tokensHandler.List")
    ∷ ("tokens_create", "tokensHandler.Create")
    ∷ ("tokens_revoke", "tokensHandler.Revoke")
    ∷ ("tokens_revoke_all", "tokensHandler.RevokeAll")
    ∷ ("notes_list", "notesHandler.List")
    ∷ ("notes_create", "notesHandler.Create")
    ∷ ("notes_get", "notesHandler.Get")
    ∷ ("notes_update", "notesHandler.Update")
    ∷ ("notes_delete", "notesHandler.Delete")
    ∷ ("notes_toggle_star", "notesHandler.ToggleStar")
    ∷ ("notes_toggle_pin", "notesHandler.TogglePin")
    ∷ ("notes_toggle_lock", "notesHandler.ToggleLock")
    ∷ ("notes_reorder_pins", "notesHandler.ReorderPins")
    ∷ ("notes_archive", "notesHandler.Archive")
    ∷ ("notes_unarchive", "notesHandler.Unarchive")
    ∷ ("archive_list", "notesHandler.ListArchived")
    ∷ ("note_tags_list", "tagsHandler.GetForNote")
    ∷ ("note_tags_add", "tagsHandler.AddToNote")
    ∷ ("note_tags_remove", "tagsHandler.RemoveFromNote")
    ∷ ("tags_list", "tagsHandler.List")
    ∷ ("tags_create", "tagsHandler.Create")
    ∷ ("tags_rename", "tagsHandler.Rename")
    ∷ ("tags_delete", "tagsHandler.Delete")
    ∷ ("export", "exportHandler.Export")
    ∷ ("images_upload", "imagesHandler.Upload")
    ∷ ("images_get", "imagesHandler.Serve")
    ∷ ("trash_list", "trashHandler.List")
    ∷ ("trash_restore", "trashHandler.Restore")
    ∷ ("trash_delete", "trashHandler.DeleteOne")
    ∷ ("trash_empty", "trashHandler.Empty")
    ∷ ("admin_users_list", "adminHandler.ListUsers")
    ∷ ("admin_users_create", "adminHandler.CreateUser")
    ∷ ("admin_users_delete", "adminHandler.DeleteUser")
    ∷ ("admin_user_api_tokens", "adminHandler.SetAPITokensEnabled")
    ∷ ("admin_user_set_password", "adminHandler.SetUserPassword")
    ∷ ("admin_user_lock", "adminHandler.LockUser")
    ∷ ("admin_user_unlock", "adminHandler.UnlockUser")
    ∷ ("admin_user_clear_cooldowns", "adminHandler.ClearCooldowns")
    ∷ ("admin_users_invite", "adminHandler.InviteUser")
    ∷ ("admin_user_regenerate_invite", "adminHandler.RegenerateInvite")
    ∷ ("admin_theme_set", "settingsHandler.SetTheme")
    ∷ []

-- What newMux panics for: the operations without a handler, and the handlers without an operation.
unfoldable pub unbound : List Operation → List (String × String) → List Operation
unbound ops bs = select (λ o. not (exists (λ b. str_eq b.0 o.name) bs)) ops

unfoldable pub unlisted : List Operation → List (String × String) → List (String × String)
unlisted ops bs = select (λ b. not (exists (λ o. str_eq b.0 o.name) ops)) bs
