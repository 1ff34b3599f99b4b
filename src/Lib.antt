-- ===== src/Lib.antt =====
-- gobackup-docker: a supervisor that reads the labels of the Docker containers on a host, builds
-- from them the config document of a gobackup engine, and keeps the engine's container in the shape
-- that the document needs.
--
-- How the parts work together. Labels of a container become a model tree and credential references
-- (internal/labels). The tree is laid over a profile, pruned of opt-outs, its templates expanded,
-- its texts coerced to scalars and arrays, its credentials replaced by placeholders, and it becomes
-- one model of the document (internal/render). Paths of volumes are rewritten to where the engine
-- mounts them (internal/pipeline/volumes.go), every '$' that begins no reference is escaped
-- (internal/render/escape.go), and the spec of the engine's container is computed and compared with
-- the container that runs (internal/pipeline/manage.go, with the labels of internal/container).
--
-- The files.
--   Base        bytes and texts (package strings), association lists, sorting, decimal numbers
--   Tree        the map[string]any documents: values, items of an array, fields of a map
--   Labels      internal/labels/parse.go: Parse is `parse`, the body of its loop `parse_label`
--   Container   internal/container/config.go: Parse is `parse`
--   Render      internal/render, a module per file: Merge (merge.go), Coerce (coerce.go), Escape
--               (escape.go), Model (model.go) and Profiles (profiles.go); Escape.Expand is os.Expand
--               of Go's library, as gobackup calls it on the document
--   Apply       internal/apply/filewatch.go: AtomicWrite and Apply
--   Pipeline    internal/pipeline: Docker (internal/docker/client.go: its records, Client for what
--               it makes of the SDK's answers, and Calls for its methods), Volumes (volumes.go),
--               Manage (manage.go; Manage.Ensure is ensureGobackupContainer, Manage.Replace what it
--               resumes, Manage.Wired the host that the Docker client and the files make); of
--               reconcile.go, Creds is resolveCreds, Discover is render, Phases the volumes of all
--               models and Reconcile a full pass
--   Webapi      internal/webapi/server.go: the handlers
--   Supervisor  cmd/gobackup-docker/main.go, with main itself in Start; Loop is Run of internal/pipeline/reconcile.go with the
--               trigger, Watch is internal/docker/watcher.go and internal/pipeline/watchfile.go,
--               System the loop with the passes that it runs on a changing host, with the control
--               plane beside it in System.Served, and Whole that
--               system with the Docker client and the files in their places, also where the
--               program is killed between two of its calls
--   Examples    runs, and the results at an input
-- A function of the source keeps its name, in snake case; a loop is a function of its own, named
-- for what it does.
--
-- The representation. A string is the list of its bytes. A Go map is the list of its entries in the
-- order in which a range visits it, which Go leaves open; results that need it ask that no key
-- stands twice, and hold of every order. A function that changes a map in place returns the changed
-- map. An error that the caller logs and skips is `none`. Log output is not modelled. Case mapping
-- and white space are those of ASCII. An int has 64 bits: a number that ParseInt rejects stays a
-- text.
--
-- The parameters. text/template is an `Engine`, encoding/json the records `Json` and `Codec`, and the
-- inspection of a source container a call, which may change the world and may answer otherwise the
-- next time. The methods of the Docker SDK are an
-- `Sdk`, the calls of package os a `FileSystem` with os.ReadFile beside it, the HTTP client a field of
-- `Server`. What a component asks of others is a record of operations, which others fill: a pass
-- reaches outside by a `World`, the engine's replacement by a `Manager` and a `Host`, and
-- `docker_host` and `wired_world` are those that main wires. Each call may fail after it took effect.
-- What results rely on are records of laws: `Daemon`, `HostLaws` and `WorldLaws` of the interfaces,
-- and of what is outside the repository `DockerLaws`, `FileLaws`, `Steps`, `WiredLaws` and
-- `WholeLaws`, from which those of the interfaces follow; `HostSteps` and `ConfigLaws`, that a
-- file is left alone by calls that are not on it; `Healthy` where calls have to succeed.
--
-- Loops and fuel. Every loop over data is structural recursion; the loops of escape.go and of
-- os.Expand, which jump ahead, carry the number of bytes still to skip, so that no fuel is needed.
-- The loop of EscapeBareDollars is also written by its index, with a number of rounds as fuel, and the
-- length of the text and one more is enough. The loops that wait for events are functions of the
-- events, or a relation of steps.
--
-- Not modelled. The Docker SDK, fsnotify and net/http themselves; the texts of errors other than those
-- of the web API and of the Docker client; log output with shortID; the mutex of the status; signals,
-- other than as the end of the context. A pass is one step of the system: what others do to the host
-- happens before or after it.
pub mod Base
pub mod Tree
pub mod Labels
pub mod Render
pub mod Container
pub mod Apply
pub mod Pipeline
pub mod Webapi
pub mod Supervisor
mod Examples
