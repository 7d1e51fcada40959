-- ===== src/Lib.antt =====
-- A verification library for the MCP server for MySQL and ClickHouse.
--
-- The server offers tools over MCP that run SQL on configured sources. A request goes through
-- three stages before a database sees it: the SQL is cut into statements and classified
-- (internal/sqlguard), or it is built from a structured request (internal/operation) and then
-- classified; the policy decides from the risk of the plan, the mode and the confirmation whether
-- it executes or is only previewed (internal/execution/policy.go, preview.go); the executor sends
-- the plan to the driver (internal/execution/executor.go, rows.go). The service in
-- internal/tools/service.go puts the stages together, one method per tool.
--
-- Files and the code they model; a name in the development is the Go name in snake case:
--   Base: what the files share. Texts are lists of bytes, `Result` is Go's value or error,
--     `trim_space` is `strings.TrimSpace`, `print_int` is the verb %d.
--   Sqlguard/Model: internal/sqlguard/model.go and `makePlan` of analyzer.go.
--   Sqlguard/Splitter: internal/sqlguard/splitter.go. `split_loop` is the loop over the bytes, one
--     `split_round` for each; below it Grammar is a lexical grammar that does not mention the
--     scanner, and Groups and Lossless are about the groups.
--   Sqlguard/Analyze: the loop that both methods `Analyze` have, over a classifier of pieces.
--   Sqlguard/Mysql, Sqlguard/ClickHouse: internal/sqlguard/mysql.go and clickhouse.go.
--   Database/Identifier, Dialect, Source, Registry: internal/database/identifier.go, types.go, and
--     registry.go; Database/Opening opens a source and closes a registry.
--   Database/Metadata: the queries of internal/database/mysql.go and clickhouse.go. Model is a query
--     whose rows are scanned, Indexes the grouping of MySQL's index rows, Nullable the reading of a
--     ClickHouse type, Sent what reaches the database.
--   Config: internal/config/config.go. Utf8 is what it uses of unicode/utf8, Reference its regular
--     expression, Load the checks in their order.
--   Operation/Model, Validate, Mysql, ClickHouse: the files of those names in internal/operation.
--     Operation/Script says when a list of statements survives being joined and cut again.
--   Execution/Model, Preview, Policy, Executor, Rows: the files of those names in
--     internal/execution. Execution/Driver is `database/sql` as they use it.
--   Tools/Model, Normalize, Service, Operations, Metadata: internal/tools/input.go, response.go,
--     service.go; Metadata is the tools that read metadata, Completion a request that is repeated
--     with the hash of its preview.
--   Tools/Mcp: internal/tools/mcp.go. Schema derives the JSON schemas, Inputs has the input types and
--     the list of the tools, Call is the handler of a call, with its log event.
--   Command: cmd/main.go, from the configuration to the service.
--   The files Tests and Examples hold concrete instances and what they run on.
--
-- State. The service itself keeps no state between requests but its registry, which does not
-- change after it is opened. What changes is the database: a `Log` is the sequence of calls of the
-- driver so far, every operation that reaches a database takes a log and returns it extended, and a
-- driver answers by any function of the log. `Executor.Runs.view` reads from a log which
-- statements are applied and which are pending in an open transaction; a commit that fails is taken
-- to apply nothing.
--
-- Parameters. Code that is not of the repository is an argument: the two SQL parsers with the types
-- that hold what is read of their trees and the law of their `Walk`, the driver, the digest of a
-- preview's envelope, the random request ID, `strconv` on a number, the conversions of `rows.Scan`
-- (`Scanner`), the statistics of a pool, and for a configuration the file, the YAML decoder with the
-- test for a second document, and the environment; for a call the JSON decoder, and for a source
-- the ways to open a pool and to check it. The digest is a function without a law: a theorem that
-- needs one has it as a hypothesis, that it tells two envelopes apart or that it is never empty.
--
-- Bounds. Every loop is structural recursion on a list but one, `nullable_loop` over the wrappers
-- of a ClickHouse type: its fuel is the length of the type and one more, and each round takes a
-- shorter type. The only numbers with a width are Go's `int` in column specifications, positions and
-- row limits: they are compared and printed, never computed with, and are integers here. 50
-- statements, 100 rows, the limits of a profile and those of VARCHAR and DECIMAL are the constants
-- of the code.
--
-- Not modelled: the limits of a pool, the encoding of a response as JSON (internal/tools/format.go),
-- the output of the log, the command line with its server and transport, and the integration tests.
-- The deadlines of executions and metadata queries are errors of the driver. Error values keep their
-- kind and lose their text.
pub mod Base
pub mod Sqlguard
pub mod Config
pub mod Database
pub mod Operation
pub mod Execution
pub mod Tools
pub mod Command
