-- ===== src/Lib.antt =====
-- Verification library of the backend of Crapnote, a self-hosted notes server (Go, SQLite).
--
-- The program. backend/cmd/server wires repositories (SQL statements over one SQLite connection),
-- services (the rules) and HTTP handlers (decoding, authentication, encoding). The library models
-- them layer by layer: who may log in and for how long, what a session, an invite or an API token is
-- worth and what ends it, what administrators may do to accounts, and what happens to notes, pins,
-- locks, the trash, tags, images, the archive of an export and the theme. A handler calls the service
-- of its package, which calls the repository; the middleware (Gate) stands before the handlers.
--
-- Files.
--   Base, Base/*      lists, tests, integers, results, tables and ORDER BY; nothing of the program.
--   Db, Db/Cascade    the tables (backend/internal/db/migrations) and ON DELETE CASCADE.
--   Notes/Repo        backend/internal/notes/repository.go: Create, Get, IsLocked, Update, SetStarred,
--                     SetLocked, AutoLockStale, SoftDelete, Archive, Unarchive, HardDelete.
--   Notes/Listing     the same file: List, ListForExport, ListArchived.
--   Notes/Pins        the same file: SetPinned, ReorderPins, pinnedIDs, mergePinOrder.
--   Notes/Service     backend/internal/notes/service.go; Notes/Title is its defaultTitle.
--   Trash             backend/internal/trash/repository.go.
--   Content           the calls on notes and trash as steps of one state machine, with the purge and
--                     auto-lock jobs of backend/cmd/server/main.go.
--   Lockout           backend/internal/auth/lockout.go, the tracker of failed logins.
--   Auth/Users, Auth/Sessions, Auth/Invites   backend/internal/auth/model.go and repository.go.
--   Auth/Service, Auth/Login, Auth/Account    backend/internal/auth/service.go.
--   Tokens/Model, Tokens/Repo, Tokens/Service backend/internal/tokens/model.go, repository.go,
--                     service.go.
--   Tags              backend/internal/tags/repository.go.
--   Http/Client       backend/internal/httpx/clientip.go.
--   Gate              backend/internal/auth/middleware.go: RequireAuth, RequireAdmin, RequireWrite, with
--                     backend/internal/tokens/bearer_auth.go.
--   Http, Http/Page   replies and the steps of a handler, which every package's handler.go shares;
--                     backend/internal/httpx/pagination.go.
--   Admin, Admin/Accounts   backend/internal/auth/admin_handler.go.
--   Images            backend/internal/images/handler.go: Upload, Serve, FetchByIDs.
--   Images/Scan, Images/Sweep   backend/internal/images/sweep.go: the matches of ImageAPIPath, strikeOff;
--                     SweepOrphans. A regular expression is read as FindAllStringSubmatch reads it.
--   Auth/Handler      backend/internal/auth/handler.go and setup_handler.go.
--   Notes/Handler, Trash/Handler, Tags/Handler, Tokens/Handler   the handler.go of each package.
--   Tokens/Usage      backend/internal/tokens/usage_recorder.go.
--   Export            backend/internal/export/export.go.
--   Api, Api/*        backend/internal/apispec: the registry of the operations.
--   Mcp, Mcp/*        backend/internal/mcp: tools, dispatch of calls, JSON-RPC.
--   RateLimit         backend/internal/ratelimit.
--   Server, Server/*  backend/cmd/server/server.go: the gates of each route.
--   Cli, Cli/*        cli/cmd/crapnote and cli/client: from a command line to a request.
--   Version           backend/internal/version/status.go.
--   Settings          backend/internal/settings.
--   Tests, Tests/*    concrete runs.
-- The other files hold proofs, and are named for what they are about.
--
-- How the code is modelled.
--   * A table is the list of its rows in insertion order. An SQL statement is a function on it: select,
--     update, delete, count, exists, first (Base/Table). ORDER BY is a stable insertion sort, so rows
--     that compare equal keep the order of the table.
--   * A fallible operation on the store is a function from the state to a result and the next state
--     (`Op`); what was written before a failure stays written. One data type lists the sentinel
--     errors of the packages. Failures of the driver are left out, but for a violated UNIQUE or
--     FOREIGN KEY constraint, and for the revocation of sessions after a new password, whose failure the
--     source passes over.
--   * Times are Unix times in nanoseconds; the zero time is 0. A call reads the clock once, as its
--     argument `now`. Where the source compares a stored time with CURRENT_TIMESTAMP, SQLite compares
--     texts, and the model compares the whole seconds in the same way.
--   * Random draws are arguments; `none` is a failure of the system's source. SHA-256, bcrypt,
--     strings.ToLower, strings.TrimSpace and the MATCH of FTS5 are parameters.
--   * A handler is a function from what it reads of the request to its reply and the next state: the
--     user of the context, the decoded body, the id of the path, each `none` where it is missing or
--     does not parse. Decoding and encoding JSON, headers and the audit log are left out.
--   * Integers that the source never overflows (ids, counters) are natural numbers; pin orders,
--     lifetimes, limits and offsets are signed. Texts are strings where they are only compared, and
--     lists of bytes where the code looks inside them.
--   * Loops are structural recursion over lists, and every definition is total. The loop of deleteImages
--     is bounded by the number of its ids (delete_images-once), and the search of Build for a free name by
--     the number of assigned names; both are enough.
--   * A mutex or a single connection makes a call one step; interleavings of calls are lists of steps.
--     Upload has neither between its two statements, and is two steps in Images/Quota.
--
-- Not modelled: metrics and security headers (backend/internal/middleware), the HTTP side of the export, the
-- environment and the listeners of the server,
-- what the command line client prints, the browser code, and
-- logging.
pub mod Base
pub mod Api
pub mod Cli
pub mod Server
pub mod RateLimit
pub mod Mcp
pub mod Http
pub mod Images
pub mod Export
pub mod Version
pub mod Settings
pub mod Db
pub mod Notes
pub mod Trash
pub mod Content
pub mod Lockout
pub mod Auth
pub mod Tokens
pub mod Tags
pub mod Gate
pub mod Admin
pub mod Tests
