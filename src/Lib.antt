-- ===== src/Lib.antt =====
-- ArCsent's web client, the part of the daemon that answers it, and the daemon's scheduler, its
-- detection, its cache of results, its alerting engine, its store and its updater of signatures.
--
-- The client (web/src, TypeScript and React) shows the state of a security daemon (internal,
-- Go). A page keeps its state in `useState`, calls the daemon through the object `api`, and
-- renders a tree of elements from the state. A call goes to the web UI's server, which for paths
-- below /api/ checks the token and passes the request on to the API's server, which checks it
-- again and runs a handler; every other path of the web UI is public. The scheduler runs the
-- scanners; their results go through the detection into a cache, which the handlers read, and
-- their findings into the alerting engine.
--
-- The files, and the code they are about:
--   Api           web/src/lib/api.ts: `getToken`, `setToken`, `fetch`, `fetchText`
--   Api.Types     web/src/lib/api.ts: the interfaces and the call of each endpoint
--   Api.Metrics   web/src/lib/api.ts: `getMetrics`
--   Text, Number, Dict   what these use of JavaScript's strings, numbers and objects
--   Jsx           elements, their attributes, and the clicks and badges of a rendered tree
--   Components    web/src/components and web/src/lib/utils.ts
--   Dashboard     web/src/pages/Dashboard.tsx: `settle` is the `.then`, `.catch` and `.finally` of
--                 a call, `handle` the click handlers, `mount` the first effect; the counts are in
--                 Dashboard.Sources, the formats in Dashboard.Format, the page in Dashboard.View,
--                 and its runs in Dashboard.Steps
--   Scanners      web/src/pages/Scanners.tsx, with Scanners.View and Scanners.Steps
--   Findings      web/src/pages/Findings.tsx, with Findings.View
--   Settings      web/src/pages/Settings.tsx, with Settings.View and Settings.Steps
--   Layout        web/src/Layout.tsx and web/src/App.tsx, with Layout.View
--   Lint          web/eslint.config.js
--   Server.Http   requests, responses and `withAuth` of internal/api/server.go
--   Server.Ui     internal/webui/server.go: `buildHandler` with `withAuthHandler` and `proxyAPI`
--   Server.Mux    `http.ServeMux`, as far as the daemon's routes use it
--   Server.Trigger   `buildHandler` and `handleTrigger` of internal/api/server.go, `RunOnce` of
--                 internal/scheduler/scheduler.go up to its result, and `Get` of
--                 internal/scanner/manager.go
--   Server.Handlers   the other handlers of internal/api/server.go and the rows of its exports
--   Server.Gauge, Server.Gauges, Server.Metrics   `buildMetrics` of internal/api/server.go
--   Config        internal/config/config.go: `Validate`
--   GoStrings     Go's `strings.TrimSpace` and `strings.TrimPrefix`
--   Scheduler     internal/scheduler/scheduler.go: the jobs, `AddJob`, `Start`, `Stop` and
--                 `ReplaceJobs`; configurations and schedules are in Scheduler.Jobs, the attempts of
--                 an execution in Scheduler.Attempts, the saved state in Scheduler.State,
--                 `executeJob` in Scheduler.Execution, its flag against overlaps as a step relation
--                 in Scheduler.Overlap, and sequences of calls in Scheduler.Lifecycle
--   Detection     internal/detection: Detection.Correlation, Detection.Rules, Detection.Baseline with
--                 the operations on a baseline, and Detection.Drift with `Update` and `DetectDrift`
--   Pipeline      internal/daemon/runner.go: the function given to `SetOnResult`
--   Results       internal/state/results.go, with the results of internal/scanner/types.go
--   Alerting      internal/alerting/engine.go: `Send`, `isThrottled`, the worker and `deliver`;
--                 its runs are in Alerting.Steps; the channels of internal/alerting and a delivery
--                 over all of them are in Alerting.Channels
--   Manager       internal/scanner/manager.go: the registry of the plugins
--   Plugins       internal/plugins/system: Plugins.AuthLog is auth_log.go, and Plugins.LoadAverage
--                 the parsing of load_avg.go
--   Storage       internal/storage: `Put`, `Get`, `ForEach` and `Delete` over Badger; the buckets of
--                 the results and of the baselines are in Storage.Buckets, what Badger documents in
--                 Storage.Stored, what `ForEach` visits in Storage.Visits
--   GoPaths       what the daemon uses of Go's path/filepath
--   Signatures    internal/signatures: `HTTPSource.Update` in Signatures.Download, `safeExtractPath` in
--                 Signatures.Paths, `importAirgap` in Signatures.Archives, the updater in
--                 Signatures.Updater and the status in the store in Signatures.Stored
--   System        the client's calls through both servers, with their URLs in System.Urls;
--                 System.Counts is about what the client reads of the cache, System.Shown about
--                 what its findings page shows of it
--   Examples      runs and instances at concrete inputs
--
-- Parameters. The browser's `fetch` is `transport`, from a request to an outcome; the decoding
-- of JSON is `decode`; `clsx` is a function from its values to a class; `Platform` and `Dates`
-- have the parsing and the formats of dates and numbers; the cache of results has a type of
-- times and one of the values that are no strings; `hash` is SHA-256 in hexadecimal and
-- `parse_duration` Go's parsing of durations, `fails` says which attempts of an alert channel
-- fail; `Parsers` has Go's parsing of durations, the parser of cron expressions and Go's
-- quoting, `StateStore` the store of the jobs' states with their encoding, for which
-- `IsFaithful` says what a store that works does and `RoundTrips` that one state survives its
-- encoding; `Pages` has the files of the built client and their serving by net/http; `Evidence`
-- has Go's text of a duration; `Floats` has Go's floating-point numbers, `Numbers` the values
-- that are numbers, `BaselineStore` the store of the baselines with their encoding, and `lower`
-- is `strings.ToLower`; `matches` is wouter's or ESLint's matching; `Encoding` has Go's quoting
-- and JSON strings; `run` is what a plugin's run gives, and `answer`, where only some handlers
-- matter, what the others give; `Forms` has the JSON, CSV and text forms of the handlers'
-- answers; `status_text` is the text of a status. `Badger` has the transactions and the iterator
-- of Badger, for which `IsLawful` says what it documents, and `Codec` is encoding/json on a
-- type; `Outside` has what the alert channels call; `Web` and `Files` have the calls of os,
-- net/http, io, archive and compress, each with a state of the world before and after it.
--
-- Bounds. A number is the exact decimal that its text denotes, where JavaScript stores the nearest
-- double; `is_finite` has the exact bound from which that double is infinite. Go's decimal digits
-- are written with n + 1 steps of fuel for the number n, and n has at most that many digits. Every
-- other function is structural. The counts of a baseline and of a job's failures wrap at 64 bits.
--
-- Assumptions. A React effect runs once, as in a production build, and a run of a page lasts
-- while the page is mounted. Calls settle in any order. Keys of objects are no names of
-- `Object.prototype` and no array indices, so they keep their order; header names are spelled as
-- the client spells them. The URLs of the client need no escapes and have no fragment. A token
-- is a legal header value without white space at its ends. Timers fire in the order of their
-- times. The input of the settings page is the operation `edit`, not an event of the tree; links
-- are elements without events. A method of the daemon that holds a lock throughout is one step;
-- maps that Go visits in any order are visited in the order of insertion. An execution of a job
-- and the handling of its result are one after the other for one job, as the flag against
-- overlaps has it. Badger's iterator meets a snapshot of the database; a directory that is
-- copied does not change meanwhile, and the configuration of the signatures does not change
-- during a run.
--
-- Not modelled: mounting and bundling, the page's reload after a logout, console output, the start
-- and shutdown of the servers, the serving of files, the waiting of a job's goroutine for its
-- timer and the deadlines of its contexts, the opening of the database, the other plugins, and the
-- rest of the daemon (the reading of the configuration, the reload, the command line).
mod Prelude
pub mod Text
pub mod Number
pub mod Dict
pub mod Api
pub mod Server
pub mod GoStrings
pub mod GoPaths
pub mod Scheduler
pub mod Config
pub mod Detection
pub mod Pipeline
pub mod Results
pub mod Alerting
pub mod Jsx
pub mod Components
pub mod Dashboard
pub mod Scanners
pub mod Findings
pub mod Settings
pub mod Layout
pub mod Storage
pub mod Plugins
pub mod Manager
pub mod Signatures
pub mod System
pub mod Lint
mod Examples
