-- ===== src/Lib.antt =====
-- CivicSodaQuack keeps a DuckDB database in step with the datasets of a Socrata open-data portal.
--
-- A configuration says which datasets of a portal to keep and how. The client pages through the
-- portal's catalog and through the rows of a dataset, with retries. The sync engine resolves the
-- configured selectors against the catalog to targets and brings each one up to date: by a full load
-- into a staging table that is swapped into place, or by a delta of the rows above the stored
-- high-water mark, which are merged by their row id. The writer makes a table of a dataset's columns,
-- coerces the values of a row and writes pages in transactions.
-- The web interface runs such a sync as a job, one at a time.
-- A report on an answer multiplies the shares of the evidence that its checks measured. Statements that
-- were generated or written by hand for an analysis pass a guard on their text.
-- A mode asks the same question of several portals, whose datasets are bound to its concepts. An
-- investigation is found by its question, planned for a portal, measured by probes and challenged
-- before its findings become a verdict. A snapshot of a database is listed in an index and downloaded
-- with a check of its content.
--
-- Which file models which part:
--   Prelude           lists, results, maps and integers that the other files share
--   Config            internal/config/config.go, effective.go; Config/Load: load.go
--   Socrata           row ids of internal/socrata/ext.go and the JSON of a row
--   Socrata/Duration  the waits of internal/socrata/client.go: backoffFor, parseRetryAfter
--   Socrata/Retry     getPageCtx, attemptPage and sleepCtx of client.go
--   Socrata/Stream    StreamRowsCtx of ext.go; Socrata/Stream/Plain: StreamRows of client.go
--   Socrata/Catalog   internal/socrata/catalog.go
--   Sync/Selectors    internal/sync/selector.go
--   Sync/Incremental  what the functions of internal/sync/incremental.go share, with the parts of
--                     strategy.go that they use; Bootstrap, Delta and Choice: bootstrap, delta, Sync
--   Sync/FullReplace  the rest of internal/sync/strategy.go
--   Sync/Plan         the full refresh of internal/sync/run.go
--   Sync/Workers      the goroutines of Run, as a step relation
--   Sync/Run          the rest of Run, runOne and recordAborted
--   Duckdb            column types of internal/socrata/types.go
--   Duckdb/Values     the extractors and coercions of internal/duckdb/schema.go
--   Duckdb/Schema     BuildSchema and BuildSchemaWithSocrataID of schema.go
--   Duckdb/Diff       internal/duckdb/schema_diff.go
--   Duckdb/Engine     what database/sql and DuckDB are taken to do
--   Duckdb/Writer     internal/duckdb/writer.go, upsert.go and swap.go
--   Duckdb/Runs       internal/duckdb/sync_runs.go; Duckdb/Sweep: SweepAbandoned of sweep.go
--   Portallock        internal/portallock/portallock.go
--   Confidence        internal/confidence/confidence.go; Confidence/Signals: signals.go
--   Confidence/Targets  internal/confidence/targets.go
--   Modes             the data of internal/modes/; Modes/Aliases: modes.go; Modes/Concepts: concepts.go
--   Investigate       the data of internal/investigate/; Discover, Plans, Validate, Measure, Probes,
--                     Changes, Challenges, Explain and Run: discover.go, plan.go, validate.go, analyze.go (the
--                     series of a probe in Probes), challenge.go, report.go and run.go; Extent: the
--                     years of a table, measureExtent
--   Snapshot/Index    internal/snapshot/index.go; Snapshot/Fetch: Fetch of consumer.go
--   Web/Jobs          internal/web/sync.go, but for the HTTP handlers
--   Mcpserver/Quotes  escapeSQLString and replaceAll of internal/mcpserver/pools.go
--   Personal          internal/personal/guard.go: Strip, Search and Guard
-- A function of the source has its name in the spelling of the language, StreamRowsCtx as
-- stream_rows_ctx; its loops and branches are functions beside it. The other files hold theorems, and
-- the Examples the concrete runs.
--
-- The functions of strings, fmt.Sprintf, filepath.Base, sort.Strings and the folding of case are
-- parameters as well, as are the rows of a query, an archive and the assessment of its evidence.
--
-- State is passed on: a function that talks to the portal or the database takes the world and gives
-- it back. HTTP, JSON, the clock, the random source, SQL statements, path.Match, time.Parse and
-- sha256 are parameters, and what is relied on of them are the records Outside, Calls, Engine,
-- Transactional, IsOrdered, IsOrder, IsCalendar, IsCut, and the hypotheses of a theorem. The
-- statements on the table of runs are what they do to its rows, and each of them may fail. Error texts
-- and the times in a result are left
-- out. What several goroutines do is a sequence of their steps in any order.
--
-- A float64 of the reports is an element of a type with the operations used and laws on their order.
-- Numbers are natural numbers, an int of the configuration and a year an integer, and a time.Duration an int64
-- with its wrap-around. The counts of rows and offsets are taken to stay below 2^63. The loops over
-- pages run on fuel: more fuel than rows, or than catalog entries, is enough, since every round but
-- the last moves on by at least one. The retry loop runs on the configured number of retries,
-- and the lock's loop on a round more than its wait has steps of 50 milliseconds. The search of the
-- guard runs on the length of the text, since every round reads at least one byte of it; so do the
-- searches of a statement for columns and for references to concepts.
--
-- Not modelled: the statements on the cached catalog, the reading of a configuration's text with its
-- references to the environment, the texts of SQL statements, the patterns of ready queries, the files
-- of modes, the making of a snapshot, the pages of the web interface, the tools of the MCP server, and
-- the output of the command line.
pub mod Prelude
pub mod Config
pub mod Socrata
pub mod Sync
pub mod Duckdb
pub mod Portallock
pub mod Confidence
pub mod Modes
pub mod Personal
pub mod Snapshot
pub mod Web
pub mod Investigate
pub mod Mcpserver
