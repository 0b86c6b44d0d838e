-- ===== src/Lib.antt =====
-- The verification library of redxt: the rules by which the server decides who may do what, and how
-- often, modelled from the Go sources under src/.
--
-- Parts and files:
--   User        src/user/role.go, mode.go, validate.go, blocklist.go: roles, permissions, creation
--               modes, names, emails, domain names and passwords. `parse_role` is ParseRole, `can` Role.Can with the table
--               rolePermissions, `cap_role` CapRole, `validate_name` ValidateName.
--   Store       src/server/store/org.go, member.go, invite.go, token.go, domain.go, and user.go,
--               session.go and credential.go as Accounts, over the rows of
--               src/server/model: a `Db` has the tables as lists of rows, and each method of Store
--               is a function on it. A read gives an Option, `none` for ErrNotFound; a write gives
--               the new tables or an error, and changes nothing when it fails, as it is one
--               transaction.
--   Service     src/server/service/org.go, token.go, and redeemInvite of auth.go. An operation is a
--               function from the database to a result and a database (`Service`), written with the
--               steps `ask` (a read), `refuse_if` (a guard), `lift`, `write` and `audit`, in the
--               order of the source; what was written before an error stays. `Commands` puts the
--               operations that change membership together as one command, and runs sequences.
--               `Domains` is domain.go, with what comes from the resolver, the ACME manager and Go's
--               regular expressions in an `Outside`, and sequences of its own. `Auth` is the sign-in,
--               the sessions and the passwords of auth.go and account.go, over the interface
--               `Passwords`.
--   Scheduler   src/scheduler: `Cron` is cron.go, `Locks` lock.go with the specification `Leases`,
--               `Tasks` scheduler.go, task.go and store.go for one node and the shared tables.
--   Backup      src/backup/retention.go, SelectForDeletion, with File and class of filename.go.
--   RateLimit   src/server/middleware/ratelimit.go, and the path patterns of util.go: `Window` is
--               MemoryStore, `Policy` classify and the budgets, `Gate` the middleware with its 429.
--   Middleware  src/server/middleware, the stages before the rate limiter and after it: `Paths` is
--               normalize.go and pathsec.go, `Csrf` csrf.go, `Cors` cors.go, `Lists` accesslist.go and
--               geoip.go, `Auth` auth.go, with the credential sources of src/urlvars/request.go in
--               `Requests`. `Chain` is New of chain.go: a request goes through the stages in their
--               order, and the answer tells which of them gave it.
--               `Redact` and `Sanitize` are sanitize.go: the treatment of one string, and the walk
--               over a value.
--   Config      src/config/validate.go with the defaults of defaults.go: the checks of users,
--               organizations and custom domains (`Accounts`), of sessions, limits and rate limits
--               (`Limits`), and the forms of single settings (`Strings`, with boolean.go). A
--               validator is a function from a section to the corrected section, beside one that gives the settings it warns of.
--   Cache       src/cache/memory.go, key.go and lock.go: `Memory` is the in-process driver, a function
--               from keys to entries, `Lock` the Locker, whose Release is a read and a deletion that
--               also stand as steps of their own.
--   Retry       src/retry/retry.go: DoWithPolicy by recursion on the schedule.
--   Examples    a small organization with its domain and accounts, a login budget, locks, schedules,
--               backups and a failing operation, on which the models are run.
--   Common      shared names, tests, lists, integers and texts.
--
-- Texts are lists of bytes; lower case and trimming are those of ASCII, and the comparison of
-- settings with listed words folds the two letters outside ASCII that fold into it. Times and
-- durations are integers in nanoseconds without the bounds of int64, and 0 stands for the zero
-- time. The ids that the database hands out, the clock and the random source are fields of `Call`,
-- and SHA-256 is a parameter `hash`; no property needs it to be injective. Every function is by
-- structural recursion. Only the search for the next run has fuel, one unit for every minute of its
-- lookahead; it is enough, as every pass moves the instant by a minute towards the deadline. In
-- Scheduler the instants are counts of nanoseconds from Go's zero time; the table of locks holds
-- the texts that the SQL driver writes of them, and that writing and the database's comparison are
-- parameters, which keep the order of instants only where a theorem assumes it. A transaction and a
-- call under a mutex are one step, and operations interleave as whole steps in a sequence of
-- commands.
--
-- Not modelled: HTTP, JSON and templates; the SQL drivers, contexts and I/O errors, of which only
-- the rate limiter's store has a general error; registration, profiles and second factors; the
-- scheduler's goroutines, the making of backups and the other cache drivers. Parameters stand for
-- path.Match, url.Parse, url.QueryUnescape, sort.Slice, time.ParseDuration, the time zone and the
-- regular expressions of Go's library, of which nothing is assumed but that a sort permutes its
-- list, and for DNS answers, the ACME manager of src/ssl and Argon2id; the operation, the waits and
-- the test for transient errors are parameters of the retries.
pub mod Backup
pub mod Cache
pub mod Common
pub mod Config
pub mod Examples
pub mod Middleware
pub mod RateLimit
pub mod Retry
pub mod Scheduler
pub mod Service
pub mod Store
pub mod User
