-- ===== src/Api/Accounts.antt =====
-- The public, session, token and admin operations of Registry in backend/internal/apispec/spec.go.
use crapnote.Base.{true, List, [], ◌∷◌}
use crapnote.Api.{
  Scope, in_path, in_body, string, integer, boolean, ResponseKind, Operation, operation, required,
  optional,
}

abbrev pub public_operations : List Operation
public_operations =
    operation "health" "GET" "/api/health" Scope.public
    ∷ operation "theme_get" "GET" "/api/theme" Scope.public
    ∷ record (operation "auth_login" "POST" "/api/auth/login" Scope.public) {
      login_rate_limited = true;
      params = required "username" in_body string ∷ required "password" in_body string ∷ [];
    }
    ∷ record (operation "setup_get" "GET" "/api/setup/{token}" Scope.public) {
      login_rate_limited = true;
      params = required "token" in_path string ∷ [];
    }
    ∷ record (operation "setup_complete" "POST" "/api/setup/{token}" Scope.public) {
      login_rate_limited = true;
      params = required "token" in_path string ∷ required "password" in_body string ∷ [];
    }
    ∷ []

abbrev pub session_operations : List Operation
session_operations =
    record (operation "auth_logout" "POST" "/api/auth/logout" Scope.read) {
      response = ResponseKind.none;
      mcp_waived = "logout ends a cookie session; bearer tokens have no session to end";
    }
    ∷ operation "auth_me" "GET" "/api/auth/me" Scope.read
    ∷ record (operation "version_get" "GET" "/api/version" Scope.read) { cookie_only = true }
    ∷ record (operation "auth_change_password" "POST" "/api/auth/password" Scope.read) {
      cookie_only = true;
      params = required "new_password" in_body string ∷ [];
    }
    ∷ []

abbrev pub token_operations : List Operation
token_operations =
    operation "tokens_list" "GET" "/api/tokens" Scope.read
    ∷ record (operation "tokens_create" "POST" "/api/tokens" Scope.write) {
      cookie_only = true;
      params =
          required "name" in_body string
          ∷ required "scope" in_body string
          ∷ optional "ttl_days" in_body integer
          ∷ [];
    }
    ∷ record (operation "tokens_revoke" "DELETE" "/api/tokens/{id}" Scope.write) {
      destructive = true;
      response = ResponseKind.none;
      params = required "id" in_path integer ∷ [];
    }
    ∷ record (operation "tokens_revoke_all" "POST" "/api/tokens/revoke-all" Scope.write) {
      destructive = true;
      response = ResponseKind.none;
    }
    ∷ []

abbrev pub admin_operations : List Operation
admin_operations =
    record (operation "admin_users_list" "GET" "/api/admin/users" Scope.read) { admin_only = true }
    ∷ record (operation "admin_users_create" "POST" "/api/admin/users" Scope.write) {
      admin_only = true;
      params =
          required "username" in_body string
          ∷ required "password" in_body string
          ∷ optional "is_admin" in_body boolean
          ∷ [];
    }
    ∷ record (operation "admin_users_delete" "DELETE" "/api/admin/users/{id}" Scope.write) {
      admin_only = true;
      response = ResponseKind.none;
      params = required "id" in_path integer ∷ [];
    }
    ∷ record (operation "admin_user_api_tokens" "PATCH" "/api/admin/users/{id}/api-tokens"
        Scope.write) {
          admin_only = true;
          params = required "id" in_path integer ∷ required "enabled" in_body boolean ∷ [];
        }
    ∷ record (operation "admin_user_set_password" "PUT" "/api/admin/users/{id}/password"
        Scope.write) {
          admin_only = true;
          params = required "id" in_path integer ∷ required "password" in_body string ∷ [];
        }
    ∷ record (operation "admin_user_lock" "POST" "/api/admin/users/{id}/lock" Scope.write) {
      admin_only = true;
      params = required "id" in_path integer ∷ [];
    }
    ∷ record (operation "admin_user_unlock" "POST" "/api/admin/users/{id}/unlock" Scope.write) {
      admin_only = true;
      params = required "id" in_path integer ∷ [];
    }
    ∷ record (operation "admin_user_clear_cooldowns" "POST" "/api/admin/users/{id}/clear-cooldowns"
        Scope.write) { admin_only = true; params = required "id" in_path integer ∷ [] }
    ∷ record (operation "admin_users_invite" "POST" "/api/admin/users/invite" Scope.write) {
      admin_only = true;
      params = required "username" in_body string ∷ optional "is_admin" in_body boolean ∷ [];
    }
    ∷ record (operation "admin_user_regenerate_invite" "POST" "/api/admin/users/{id}/invite"
        Scope.write) { admin_only = true; params = required "id" in_path integer ∷ [] }
    ∷ record (operation "admin_theme_set" "PUT" "/api/admin/theme" Scope.write) {
      admin_only = true;
      params = required "theme" in_body string ∷ [];
    }
    ∷ []
