-- ===== src/Lib.antt =====
-- uPaste, a service for sharing text, encrypted text and files: a model of the Go code under
-- internal/, with its theorems.
--
-- The parts, and the files that model them:
--   Domain: internal/domain/domain.go, kinds, privacy modes, formats and expiry.
--   Base64: RawURLEncoding of encoding/base64, as the code uses it.
--   Capability: internal/capability/capability.go, Share IDs and owner tokens.
--   Database: the tables of internal/database/migrations; Database/Tables are the tables as
--     association lists, Database/Statements the statements that the service runs, with the CHECK,
--     UNIQUE and CASCADE constraints and the triggers.
--   ObjectStore: internal/objectstore/local.go. ObjectStore is the interface that the service uses,
--     ObjectStore/Keys the paths of the keys, ObjectStore/Local the store on a tree of names, and
--     ObjectStore/Local/Staging the staging of an upload; ObjectStore/Reconcile sweeps the tree.
--   Share: internal/share/service.go, and AdminDelete of internal/share/admin.go. Share/Load reads,
--     Share/Transactions is BeginTx to Commit, Share/Create, Share/Owner, Share/Delete and
--     Share/Files are the operations. Share/Consistent, Share/Retention and Share/Objects hold the
--     invariants: the rows of a Share fit together; no Share outlives the public limit; every File
--     row has an object of its own.
--     Share/Admin is the summary and the listed rows of internal/share/admin.go.
--   Abuse: internal/abuse/control.go, rate limits, transfer gates and the client's address.
--   Admin: internal/admin/manager.go; Admin/Tokens: internal/admin/token.go.
--     Share/Spells, Share/CreateGet and Share/Owner/Patched say what a later read answers.
--   Maintenance: purgeBatch and the purging loop of internal/maintenance/maintenance.go;
--     Maintenance/Runs the whole of RunOnce, which calls Reconcile, and CleanupExpired.
--   Http: internal/httpapi/httpapi.go. Http/Requests are the requests, Http/Texts the functions of
--     package strings, Http/Headers and Http/Bodies the checks of headers and the decoding of
--     bodies, Http/Payloads and Http/Filenames the checks of what is stored, Http/Responses the
--     responses, Http/Shares and Http/Uploads the handlers, Http/Routes the routes.
--   FileApi: internal/fileapi/fileapi.go, the downloads.
--   Challenge: the configuration of internal/challenge/challenge.go; Challenge/Verifiers the verifiers
--     of cap.go and turnstile.go.
--   Config: internal/config/config.go; Config/Parse is Parse.
--   Examples: concrete inputs.
--
-- How the model corresponds to the code. An operation of the service is a function of an `Env`, the
-- database and the state of the store, and returns its result with both. The Env holds what the
-- operation does not choose: the clock, rand, SHA-256, http.DetectContentType, and which calls of
-- the driver fail. A transaction works on a copy of the database that Commit puts in place. Strings
-- and byte slices are lists of codes. Times are nanoseconds since the zero time.Time, and the
-- columns hold milliseconds from the same instant; dates before it are not represented, and
-- durations are not negative. `length` of a TEXT column counts bytes. Where CreateFile joins the
-- error of a cleanup to the first error, the model keeps the first.
-- A map of Go is an association list, and its critical sections are single steps. The rate limiter of
-- golang.org/x/time/rate and the addresses of net/netip are parameters. Loops are recursions on
-- the list that they walk; the purging loop has the eight batches of MaxPerRun / BatchSize at most.
--
-- A request is a value that holds its headers and its body, or the parts of it; a handler answers a
-- status, headers and a value, and hands on the control, the rows and the objects. Each call of the
-- service within a request has its own Env. mime, encoding/json, net, net/url, flag and the parsing
-- and printing of times are parameters. The messages of errors and the log are left out.
--
-- Not modelled: the admin HTTP API, migrations, the filters and pages of the admin listing, and the
-- web application.
mod Prelude
pub mod Base64
pub mod Domain
pub mod Capability
pub mod Database
pub mod ObjectStore
pub mod Share
pub mod Abuse
pub mod Admin
pub mod Maintenance
pub mod Http
pub mod FileApi
pub mod Challenge
pub mod Config
pub mod Examples
