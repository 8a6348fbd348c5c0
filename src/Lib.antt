-- ===== src/Lib.antt =====
-- The Rust workspace common-rust: crates that services share. Modelled are crates/config, which
-- loads a typed configuration, crates/oidc, which authenticates requests, crates/secrets, which
-- reads secrets of a vault, crates/names, which applies a feed of renames, crates/routing, which
-- records routes and generates a TypeScript client of them, crates/templating, which serves a shell
-- and pinned files, crates/logging, which selects and formats events, and the macros of
-- crates/config-derive, crates/names-derive and crates/routing-macros.
--
-- Parts and files (source paths from the repository's root):
--   Prelude             tests on numbers, equality, results, lists, texts, maps
--   Config.Path         crates/config/src/path.rs: the spellings of a field
--   Config.Schema       crates/config/src/schema.rs: fields, origins, entries
--   Config.Refusal      crates/config/src/refusal.rs
--   Config.Args         crates/config/src/args.rs: parse and take_value
--   Config.File         crates/config/src/file.rs: read and flatten
--   Config.Values       crates/config/src/values.rs: the typed reads
--   Config.Layers       crates/config/src/layers.rs: merge
--   Config.Class        crates/config/src/class.rs and deployment.rs: enforce
--   Config.Help         crates/config/src/help.rs: help and print_config
--   Config.Load         crates/config/src/lib.rs: load_from
--   Config.Derive       crates/config-derive/src/lib.rs: Attrs what a struct carries, Rules what a
--                       field may be, Expand the expansion, Meaning what the generated code does
--   Oidc.Principal      crates/oidc/src/principal.rs and error.rs
--   Oidc.Predicate      crates/oidc/src/predicate.rs: the rules of a gate
--   Oidc.Store          crates/oidc/src/store.rs: maps whose entries expire
--   Oidc.Retry          crates/oidc/src/retry.rs: calls under one deadline
--   Oidc.Bearer         crates/oidc/src/bearer.rs: validate
--   Oidc.Idp            the data of crates/oidc/src/web.rs, and the client as a parameter
--   Oidc.Client         crates/oidc/src/client.rs, config.rs and section.rs: discovery
--   Oidc.Client.Requests  crates/oidc/src/client.rs: the requests of a client
--   Oidc.PageConfig     crates/oidc/src/page_config.rs
--   Oidc.Session        crates/oidc/src/web.rs: resolve_session
--   Oidc.Web            crates/oidc/src/web.rs: login, callback, logout, unauthenticated
--   Oidc.Auth           crates/oidc/src/auth.rs: the middleware and the extractors
--   Logging.Designator  crates/logging/src/designator.rs
--   Logging.Filter      crates/logging/src/filter.rs: Designators
--   Logging.Config      crates/logging/src/config.rs: LogConfig::resolve
--   Logging.Fields      crates/logging/src/format.rs: the values of events and spans
--   Logging.Format      crates/logging/src/format.rs: the line of an event
--   Logging.Span        crates/logging/src/span.rs: the span of a request, and its id
--   Logging.Boot        crates/logging/src/lib.rs: boot_sealed, init, init_with
--   Names.Deltas        crates/names/src/feed.rs and lib.rs: renames and targets
--   Names.Feed          crates/names/src/feed.rs: the request, the Feed of Names.Sync
--   Names.Derive        crates/names-derive/src/lib.rs: name_targets
--   Names.Apply         crates/names/src/apply.rs: apply_column_renames
--   Names.Sync          crates/names/src/sync.rs: run_cycle and commit_cycle
--   Routing.Manifest    crates/routing/src/manifest.rs: the table of routes
--   Routing.Router      crates/routing/src/router.rs: the router that records
--   Routing.Assets      crates/routing/src/static_files.rs
--   Routing.Export      crates/routing/src/export.rs: descriptors, and the file of them
--   Routing.Arg         crates/routing/src/export.rs: the arguments of a handler
--   Routing.Generate    crates/routing/src/generate.rs: plan, camel, named_types
--   Routing.Render      crates/routing/src/generate.rs: render and generate
--   Routing.Barrel      crates/routing/src/barrel.rs
--   ClientMacro         crates/routing-macros/src/parse.rs: Template parse_attr and declared_params,
--                       Signature describe, Expand expand and the descriptor that it writes
--   Macros              the parts of a syntax tree that the macros of the workspace match on
--   Templating.Origin   crates/templating/src/assets_origin.rs
--   Templating.Shell    crates/templating/src/render.rs
--   Templating.Cache    crates/templating/src/lib.rs: AssetCache
--   Secrets.Error       crates/secrets/src/error.rs and secret.rs
--   Secrets.Api         crates/secrets/src/client.rs: requests, replies, URLs, fields
--   Secrets.Client      crates/secrets/src/client.rs: logins, the cached token, the operations
--
-- How the parts interact: load_from runs Args.parse, Layers.merge (which reads the file through
-- File.read), the typed parse of the program, and Class.enforce on one table of values. A request
-- passes Auth.set_auth_context, which asks Bearer.validate or Session.resolve_session (which calls
-- the IdP through Retry.within and keeps the store), and then an extractor, which asks
-- Predicate.check. The handlers of Web share the two stores with it. Each operation of a
-- SecretClient runs through with_reauth, which hands it a token of the cache or of a login.
-- A cycle of Names.Sync asks the feed, and applies the answer and moves the cursor in one
-- transaction. What Config.Derive.Meaning gives is the Root that load_from takes, and what
-- ClientMacro.Expand gives is a descriptor of Export. Render joins the table that a Router recorded
-- with the descriptors that Export keeps; the handler that Router mounts for a directory answers by
-- Assets. A log is booted from the configuration that is loaded, and writes the line of Format.
--
-- Representation: a text is a list of code points; a map that is only looked up and written is
-- the partial function it stands for; state is passed explicitly. SQL statements, a clock, fresh
-- identifiers, HTTP, files, JSON, the template engine, digests, axum, the tables of Unicode, the
-- URL, time and TOML libraries are functions in records, over a world where they have effects,
-- and nothing is assumed of them but what a theorem states of them. A panic is an error of its
-- own (Values.Fault, Client.Fault, and panicked of Secrets.Error). The loops are structural, but
-- for the retries, whose fuel is the greatest number that the schedule gives, five, and the loop
-- over a declared template, whose fuel is the length of the template and one, since every round
-- takes a brace at least. Rows changed are counted modulo 2^64, as are the ids of requests.
--
-- Not modelled: tracing, process I/O (load, spawn, the subscriber of a log), the macros that emit
-- an event, the durations of the retry schedule, opening and locking files, the parser library of
-- the macros, which gives them syntax as data and positions that are left out, and the crates
-- theme and ui-core.
pub mod ClientMacro
pub mod Config
pub mod Logging
pub mod Macros
pub mod Names
pub mod Oidc
pub mod Prelude
pub mod Routing
pub mod Secrets
pub mod Templating
