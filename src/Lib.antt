-- ===== src/Lib.antt =====
-- schema-to-table: a JSON Schema and JSON documents become PostgreSQL tables and statements.
--
-- The program's parts. internal/schema reads a schema and a payload; internal/landing makes one flat
-- table of them, with arrays and untyped objects in a column of a complex type; internal/normalized
-- makes a table for every array, with keys, views and a registry of its objects. pkg/processors (a
-- stream processor) and internal/cli call the two: they parse a configuration, hand the texts over
-- and execute the statements.
--
-- Which file models which part:
--   Text, Maps, Json: the calls of strings, sort, maps and encoding/json that the program makes.
--     A text is a list of code points. Case mapping covers Latin-1 and the letters outside it whose
--     lower case is ASCII; a map is a list of entries with different keys, and a float64 is the
--     decimal number that prints it.
--   Outcome: a result, one of the program's errors, a panic at a nil pointer, or a recursion that ran
--     out of fuel. `each` is a loop that stops at the first error.
--   Schema.Names: internal/schema/names.go, the names of columns and tables and their quoting.
--   Schema.Node: internal/schema/node.go, nodes, Parse and Resolve. A document is a store of nodes,
--     and a *Node an index into it, since the walks compare nodes by address.
--   Schema.Types: internal/schema/types.go and column.go.
--   Schema.Values: internal/schema/values.go, CollectValues and the literals.
--   Landing: internal/landing (table.go, ddl.go, dml.go).
--   Normalized.Model, Normalized.Consts, Normalized.Plan: internal/normalized/model.go, in turn the
--     walk planNode, the discriminator, and Plan. A TableSpec owns its Arrays, so tables form a tree;
--     what is read of Parent is kept in the child.
--   Normalized.Ddl, Normalized.Dml, Normalized.Registry: the files of these names in
--     internal/normalized. A statement is a record until it is rendered.
--   Processors.Loader: pkg/processors/loader.go, the cache of schemas. The HTTP response is data, and
--     the readings of the clock are arguments; the two locked sections of Load are operations of
--     their own, which Processors.Loader.Reach interleaves.
--   Processors.Batch, Processors.Batch.Commit: pkg/processors/processor.go with errors.go and
--     alreadyExists of db.go: storeMessage, then ProcessBatch. The database is a state with the
--     operations of the interface tx.
--   Processors.Config: parseConfig of pkg/processors/spec.go. Processors.Session: the constructors of
--     insert.go and upsert.go, and ensureSink, Close and ProcessBatch of processor.go, over a
--     connection that is a parameter. Processors.Loader.Log is a log of all documents stored, which
--     says what the loader promises.
--   Text.Split: the cutting of texts that the flags need (strings.Split, Cut, HasSuffix, TrimPrefix).
--   Cli.Helpers: internal/cli/helpers.go. Cli.Build: build.go, and the flat branch of Run in cli.go.
--     Cli.Flags, Cli.Headers, Cli.Exec, Cli.Run: cli.go, in turn the flags, the headers, the
--     execution against a database, and Run. The file system and the database are parameters.
--   Tests: runs of the operations, and the theorems at concrete data.
--
-- Fuel. The walks of a schema take fuel, and mark on the way down the nodes they are in. CollectValues
-- and walkSchema have one unit more than the document has nodes, since every call marks another node.
-- planNode begins a child table with no marks, so its fuel has to exceed the longest chain of nodes
-- below the root, and none is enough where a chain goes round through an array; Plan has the fuel as
-- an argument. collectConsts has no marks at all, and shares the fuel of Plan.
--
-- Not modelled. json.Unmarshal of a schema and of a payload is a parameter: a function from the text
-- to the decoded document, or none. So are the operations of a transaction, strings.EqualFold and an
-- HTTP GET, the file system, the opening of a connection, Bento's ParsedConfig and the verb %q of fmt.
-- The deadline of 30 seconds of a run, the logger and the names of the counters are left out; so is
-- the text of the errors, which are data here. Calls of one processor at the same time interleave in
-- Processors.Session.Life only, where a batch behind ensureSink is one step. Rollback is no operation
-- of Tx: a transaction that is rolled back leaves the database as it was before the batch. Go ranges
-- over a map in any order: where two keys of a payload have one snake case, navigatePath takes either,
-- and snake_key the first of the entries. int64(val) of a whole number is exact here, also where it
-- is out of the range of int64.
pub mod Prelude
pub mod Text
pub mod Maps
pub mod Outcome
pub mod Json
pub mod Schema
pub mod Landing
pub mod Normalized
pub mod Processors
pub mod Cli
pub mod Tests
