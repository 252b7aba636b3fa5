-- ===== src/Lib.antt =====
-- A model of xtemplate, a Go web server whose pages are html/template files with data sources as
-- fields of the dot value, and the theorems that make its parts correct.
--
-- Which file models which part:
--   Server        server.go, and of instance.go the counter of identities and the first lines of
--                 Instance.ServeHTTP. The state is the instance pointer, the cancel function, the
--                 contexts and where the holder of the mutex stands. Server.Steps is the relation
--                 of what the goroutines can do; reload and stop are its uninterrupted runs.
--   Config        config.go and the options of dot_db_config.go, dot_flags.go, dot_fs_config.go
--                 and dot_nats_config.go.
--   Dot           dot.go: makeDot, dot.value and dot.cleanup over any providers; Dot.Typed
--                 adds the types of the fields, and Handlers.Typed those of the providers in Handlers.
--   Handlers      the two template handlers of handlers.go, with the providers of
--                 dot_instance.go, dot_req.go, dot_resp.go, dot_flush.go and dot_db_config.go in
--                 the order that instance.go puts them in.
--   Db            dot_db.go and DotDBConfig.Cleanup: one implicit transaction for a request.
--   Negotiate     negiotiateEncoding of handlers.go.
--   StaticFile    staticFileHandler of handlers.go, which calls Negotiate.
--   Routes        build.go: which pattern and handler a template gets by its name.
--   Builder       addStaticFileHandler of build.go, and in Builder.Templates addTemplateHandler and
--                 the walk over the files in instance.go; what it puts into the map of files is what
--                 StaticFile serves. Also DotX.StaticFileHash of dot_instance.go, which reads this
--                 map.
--   Instance      Config.Instance of instance.go, from the options to the initialization templates.
--                 It puts the providers with which Handlers answers into the two dot values.
--                 Instance.Reloads is Server.Reload with the instance that it builds, and
--                 Instance.Answers follows requests to this instance through Handlers and Dot.
--   Providers     Init and FieldName of the configured providers: dot_db_config.go, dot_flags.go,
--                 dot_fs_config.go, dot_nats_config.go, with DotFlags.Value; Providers.Fields is the
--                 check of their names.
--   Requests      the context that Instance.ServeHTTP gives to a request, GetRequestId and GetLogger.
--   Handlers.Content
--                 DotResp.ServeContent of dot_resp.go, within a buffering handler.
--   Timers        DotFlush.Repeat as a relation of what its goroutine can do, Sleep,
--                 WaitForServerStop and Flush of dot_flush.go.
--   Funcs         funcs.go: the functions for templates, the table of them and the registries;
--                 Funcs.Calls is FuncTry, and Funcs.Maps the maps by name of an instance with
--                 DotX.Func and DotX.Template of dot_instance.go.
--   Nats          DotNats and DotKV of dot_nats.go and dot_kv.go.
--   App           Main of app/app.go, from the arguments to the exit code.
--   Sse           DotFlush.SendSSE of dot_flush.go; Sse.Stream reads event streams as a client
--                 does (HTML standard, 9.2.6), and Sse.Sequences is a row of calls.
--   FrontMatter   frontmatter.go.
--   Fs            dot_fs.go and DotDirConfig.Cleanup of dot_fs_config.go.
--   Prelude, Strings, Paths, Http
--                 lists and errors, and what the program uses of Go's packages errors, strings,
--                 path and net/http.
--
-- Instance.instance_ builds an instance: Config fills in the configuration, Builder loads the files,
-- Providers initialises the dot fields, and Handlers gives the two rows of providers of which Dot
-- makes the dot values; Server publishes the instance and retires the one before.
--
-- A request comes in at Server.handle, gets its context in Requests and is routed to a handler,
-- which makes a dot value (Dot.value), executes a template and runs the cleanups of the providers
-- (Dot.cleanup), each of which may turn the error of the template into another or into none. The
-- handlers of Handlers run the model of Dot on the providers as they are in the program, and Db is
-- one of them; Handlers.Requests and Handlers.Sessions follow a request to an instance with
-- databases through all three, and Handlers.Streams one for an event stream, with Sse.
--
-- Conventions: a Go string is a list of code points; a function that can panic returns an Option,
-- none for the panic; (value, error) is a Result, or a pair with an Option where both are used; a
-- value of another package is a number, nil is none. The database driver, the template engine, the
-- file system, http.ServeContent, the front matter parsers and floating-point arithmetic are
-- parameters. No definition runs on fuel: every loop is over a list, but the endless ones of goroutines
-- (Timers, Nats), which are relations between a state and the next, as that of Server is.
--
-- Logging is left out. Machine integers are written as words of 64 bits where they can wrap around
-- (Timers, Funcs).
--
-- Assumed: a field of a dot value has the type of its provider's values, as in the struct that makeDot
-- lays out, so the type assertions of the cleanups do not fail (Dot.Typed has the types); a response is
-- given a status between 100 and 999, at others WriteHeader panics; the files that the builder opens can
-- seek.
--
-- Not modelled: the log lines of an instance; the skeletons of the built-in functions in funcs.go,
-- which are never called; cmd/main.go, which calls Main.
pub mod Prelude
pub mod Strings
pub mod Paths
pub mod Providers
pub mod Builder
pub mod Config
pub mod Db
pub mod Http
pub mod Dot
pub mod Fs
pub mod Handlers
pub mod Instance
pub mod Timers
pub mod Funcs
pub mod Requests
pub mod App
pub mod Nats
pub mod Sse
pub mod FrontMatter
pub mod Negotiate
pub mod Routes
pub mod Server
pub mod StaticFile
