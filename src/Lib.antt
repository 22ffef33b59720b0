-- ===== src/Lib.antt =====
-- YASD, an in-memory key-value cache and SQL store for Node.js: the cache (src/cache.ts), the ordered
-- map that it stands on (src/ordered-map.ts), the queue of src/deque.ts, the hub of src/pubsub.ts,
-- the SQL parser of src/parser.ts, the executor of src/executor.ts, LIKE and the top-k heap of
-- src/query-utils.ts and the slow log of src/metrics.ts.
--
-- The parts. `KVCache` keeps its entries, their deadlines and the versions of its keys in three
-- ordered maps. An ordered map remembers the order of insertion, which is the order of use since
-- every touch deletes and sets again, and keeps a journal of undo closures while a transaction is
-- open. `KVCache.atomic` opens a transaction on all three and saves the counters; `replace` and
-- `KVTransaction.exec` run inside it.
--
-- The files. Prelude holds the shared names, Boolean tests and list lemmas. Text has strings as
-- lists of UTF-16 code units and the string functions of src/cache.ts; Result has the exceptions.
-- OrderedMap is src/ordered-map.ts, operation by operation: the chain of nodes is a list of pairs
-- (OrderedMap/Chain), an undo closure a constructor of Undo, and the exception of a transaction that
-- is not open the value none. OrderedMap/Session is what a client may do in between. OrderedMap/Nodes
-- is the chain itself, `link`, `unlink`, `set`, `delete` and `entries` on nodes with pointers and the
-- map from keys to nodes, without the journal, with numbers as the identities of nodes. Nodes/Chained,
-- Refinement and Effects are about the chain, Indexed about the map of keys, Journal about `link` and
-- `unlink`, and Keyed, Represented and Operations about nodes as a list of pairs.
-- Cache/State is the fields of KVCache as a record, and a method as a function from it to a result
-- and a new record; the record comes back with an exception too, as an object does. Cache/Core has the
-- private methods, Cache/Read, Write, Deadline and Counter the public ones, Cache/Atomic and Snapshot
-- `atomic`, `restore` and `replace`, Cache/Transaction the class KVTransaction, and Cache/Calls a
-- client's history of calls. Definitions keep the names of the methods, in lower case with _; a
-- method with branches has a helper for each. Cache/Steps has the few
-- kinds of change that the methods are made of, as a step relation, and is about failed sections;
-- Cache/Accounting is about the byte count, the limits, and what is read after a write. Deque is
-- src/deque.ts, a map from positions to items, and Deque/Calls the same calls on a list. PubSub is
-- src/pubsub.ts, with listeners as numbers and what a listener does in its call as a parameter;
-- PubSub/Effects and PubSub/Hubs are about who is subscribed. Sql is
-- src/parser.ts: Sql/Syntax the trees of src/types.ts, Sql/Lexer and its Numerals `nextToken` and its regular
-- expressions, Sql/Parser the state and the methods that read single tokens, Sql/Clauses conditions,
-- Sql/Tables `parseCreateTable` with Sql/Separated for lists in brackets, Sql/Statements the rest.
-- A method is a function from the state to a value and the next state, or to the exception;
-- Sql/Total is about the text that a method leaves, Sql/Printer writes conditions as tokens and
-- Sql/RoundTrip is about reading them, and about tokens as text (Sql/RoundTrip/Written, Names, Tokens).
-- Query/Like is `matchLike`, with positions as what follows them and its limit on the steps as the fuel
-- that the source counts; Query/Pattern says what a pattern matches, Query/Saved and Query/Greedy are
-- about the search. Metrics is the slow log, and Metrics/Refinement the list that it is the newest part
-- of. Executor is src/executor.ts: Executor/Values what it does with values, Table its tables and
-- indexes, Where the conditions, Plan `indexPlan`, Coerce and Keys the checks of written rows, Insert,
-- Change (`executeUpdate`, `executeDelete`), Schema, Select, Answer and TopK (`executeSelect`) the
-- statements, Prepared the cache of statements, and Run `execute`, `executeStatement` and `explain`.
-- A statement is checked by one function and carried out by another, as the source has them one
-- behind the other; both together are its method. Plan/Covering, Collect/Merge and Select/Refinement
-- are about what a plan leaves out, Table/Growth, Entries and Reindex and the files under Valid about
-- the tables, the indexes and the counters behind a statement, Where/Logic about `IN` and `BETWEEN`,
-- Prepared/Bounds about the cache.
-- Tests has runs on small inputs.
--
-- Choices. Times are whole milliseconds, so a time to live is a natural number; what the source
-- refuses as negative or fractional cannot be written down. The clock is a parameter that gives one
-- value to each reading, in any order, and the state counts the readings. `bytes -= size` is the
-- subtraction of natural numbers, which stops at 0. Values and what is done with them, which is
-- src/json.ts and src/value.ts, are the parameter `Json`. The loops of eviction run on fuel, the
-- number of entries, since each round takes one entry out. The expiry listener is the list of its
-- calls. The state of the SQL parser is the text that is left instead of a position in the whole; its
-- loops and its recursion on brackets run on as much fuel as there is text left, since each round reads
-- a token. A regular expression is a test by clauses, `toLowerCase` is exact where its result is
-- ASCII, and `Number` is the parameter `Numbers`.
-- The executor takes JavaScript's numbers and strings from the parameter `Scalars`: `===`, the sign of a
-- difference, String, Number, localeCompare, toLowerCase and JSON text. Where
-- `IsLawful` is supposed, `===` is equality, which it is without NaN, with the two zeros as one. The
-- values are the scalars that the parser makes, without arrays and objects; a property that is not
-- there is read as null. `Map` and `Set` are lists in the order of insertion. An `UPDATE` adds the
-- bytes of the new rows and then takes off those of the old ones, where the source adds the difference,
-- which may be negative. The heap's loops run on its length as fuel.
-- In LIKE, `toLowerCase` is a parameter; in the slow log the tests on durations are.
--
-- Not modelled: `sweepBudget` with its cursor, the batches of
-- `clearPrefix`, `atomicChanges` and the sweeper's timers; the validation of options; the executor's
-- constructor, its getters and `profile`; persistence, the RESP protocol, the
-- server and the client, which are other parts or input and output.
pub mod Prelude
pub mod Text
pub mod Result
pub mod OrderedMap
pub mod Cache
pub mod Deque
pub mod PubSub
pub mod Sql
pub mod Query
pub mod Metrics
pub mod Executor
pub mod Tests
