-- ===== src/Lib.antt =====
-- The core of database-admin: the text of SQL statements, from the script that a user types to the
-- statement and the parameters that a driver gets; the edits of the grid up to the changeset that is
-- planned; and the jobs of the server. Paths are from the repository's root.
--
-- Parts, and the files that model them:
--   Lexer (Lexer/*): src/server/db/sql/lexer.ts. `Rules` has the dialects' rule tables and the
--     character tests, `Scan` the scanners of quoted text and comments, `Region` the comment and
--     quoting branches that the three loops of the file share, `Lines` lineStarts and lineAt,
--     `Split` splitStatements, `Caret` statementAtOffset, `Tokens` tokenize and the names of tokens,
--     `Classify` classifyStatement, `Destructive` isDestructive, `Placeholders` findPlaceholders.
--   Quote (Quote/*): src/server/db/sql/quote.ts.
--   Params (Params/*): the placeholder counters of src/server/db/sql/filters.ts and
--     src/server/db/sql/changeset.ts; `Template` describes a statement with its values in place.
--   Bind (Bind/*): src/server/db/sql/bind.ts, over the lexer's findPlaceholders.
--   Filters (Filters/*): src/server/db/sql/filters.ts, over Quote and Params.
--   Changeset (Changeset/*): src/server/db/sql/changeset.ts, over a quoter and a decoder of cells;
--     `Planner` has planChangeset, `Plan` its statements, with `Intent` for what they say,
--     `Truncation` truncationWarning over the schema model.
--   Edit (Edit/*): src/components/grid/edit-state.ts with the cells of src/lib/wire.ts; `Assembly`
--     has editabilityOf and buildChangeset, whose changeset is that of Changeset, `Input` the text of
--     cells; `Ordered`, `Reducer`, `Pending`, `Written`, `Draft`, `Keys`, `Counts` and `Typing` the
--     lemmas.
--   Format (Format/*): src/server/db/sql/format.ts, over the lexer's splitStatements and
--     classifyStatement.
--   Jobs (Jobs/*): src/server/jobs/types.ts and manager.ts. The root has the jobs and their table,
--     `Manager` one live job, `Scheduler` queue, slots, start and finish, `Cancel` and `Context` the
--     other operations; `Steps` puts calls, settlements and timers into one step relation, for which
--     `Invariant` has what every step keeps; `Recovery` and `Log` are about the table.
--   Schema (Schema/*): src/lib/schema-model.ts. Dml (Dml/*): src/server/db/sql/dml.ts.
--   Common (Common/*): shared names; a JavaScript string is a list of UTF-16 code units.
--
-- A function of the source is a definition of the same name in this spelling (splitStatements is
-- split_statements); the variables of a loop are a record, one round of it is a `_step` or `_one`
-- function, and a thrown error is an `err` of a result type. The loops over a text run on fuel, the
-- length of the text, which is enough since every round moves forward; the scanners that cross the
-- rest of a text are structural. Positions and counts are natural numbers, where the source has
-- doubles: the number of a `$n` placeholder above 2^53 is exact here.
--
-- In the job manager an await cuts an operation into two events, a timer is a flag that arms an
-- event, a runner is the sequence of its calls, and what goes to the socket or to a process is the
-- output of the state; the text of a JSON column stands for its value, and a write to the table
-- succeeds. A Record of the grid that is keyed by numbers is a list by ascending key; a column name
-- that is an integer, which JavaScript would put first, keeps its place here.
--
-- Arguments of the model: toUpperCase and toLowerCase; the decoder of cells (decodeCell of
-- src/server/db/sql/literal.ts, which parses JSON and base64); what truncationWarning says of a
-- cell, which Changeset.Truncation defines over the length of a base64 value; a number's String()
-- and what Number() makes of a text; atob; the library sql-formatter; randomUUID and the clock, as
-- arguments of the operation. Not modelled: the connectors, the connection manager, the HTTP
-- routes, transfer, tunnels, schema comparison, DDL rendering and the rest of the user interface,
-- which are I/O around these functions or further components.
pub mod Bind
pub mod Changeset
pub mod Common
pub mod Dml
pub mod Edit
pub mod Filters
pub mod Format
pub mod Jobs
pub mod Lexer
pub mod Params
pub mod Quote
pub mod Schema
