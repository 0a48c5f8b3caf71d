-- ===== src/Lib.antt =====
-- AProxy: a proxy that speaks the MySQL protocol to its clients and PostgreSQL to its server. It
-- also keeps a log of the statements it ran, and streams PostgreSQL's changes to replication
-- clients as MySQL binlog events. The development models the log, the server of the events and
-- their encoder, the handler of a client's connection with its session, its connection to PostgreSQL
-- and its variables, the cache of table information and the rewriting of statements where it works
-- on texts.
--
-- Base and the modules below it: helpers on lists, native integers, finite maps and bytes. An
-- int64 is an integer ℤ, whose low `w` bits are `bits w z`; a text is the list of its bytes.
--
-- Binlog, for pkg/binlog/binlog.go. Event holds `EventType`, `BinlogEvent` and `Config`; Serial
-- is `serializeBinary`, and Serial.Layout a reader of its record. Writer is the `Writer` struct
-- with `flushBuffer`, `createNewFile`, `rotate` and `writeEvent`; an operation takes the outcomes
-- of its system calls as arguments, and returns the writer with an error, or a panic. Disk is
-- the directory, a map from file numbers to bytes. Writer.Queue is `Write`, the channel and
-- `Close`; Writer.Queue.Order is the channel as a step relation, in which `Write` calls and the
-- receives of `asyncWriter` come in any order. Writer.Startup is `NewWriter` without the
-- goroutines and the making of the directory, `openOrCreateFile` and `cleanupOldFiles`.
-- `json.Marshal` is a parameter. Not modelled: `Reader`, a loop around a JSON decoder, and the
-- ticker of `periodicFlusher`, whose body is `flush_buffer`.
--
-- Encoder, for pkg/replication/binlog_encoder.go. Value holds the dynamic values of a row by
-- their Go types; Integers, Strings, Temporal and Decimal are the encodings of the column types;
-- Columns is `encodeColumnMeta`, `encodeValue` and `encodeRowData`. The scanners, formatters and
-- float conversions of Go's library are the records Clock and Formats, which the definitions
-- take as arguments. The laws stand below each module, beside the reader that they are about.
--
-- Encoder.Events is `EncodeEvent` with the event bodies: a payload is filled by one copy after
-- another, as in the code (Base.Copy). The length-encoded integers, the codes of the column types
-- and CRC-32 are parameters.
--
-- Session, for pkg/session/session.go: the fields and methods of `Session`; a connection is a
-- state that `Exec` changes, and the driver is a parameter. Session.Manager is `Manager`.
--
-- Schema, for pkg/schema/cache.go: the cache of table information, with the answers of the queries
-- as a record Connection. An entry may be a nil pointer, and a read through it is a panic.
--
-- Pool, for internal/pool/pool.go: the connections by session, with the driver's answers as a record
-- Driver.
--
-- Postgres: the calls of the driver pgx, as an interface over the state of a connection.
--
-- Mapper, for pkg/mapper: Errors is errors.go, Kinds the tables of types.go, and Variables is
-- variables.go with its table, and Show is show.go, with its queries in Texts and Columns. Admin, for
-- pkg/admin/replication.go: the statements on replication.
--
-- Tracker, for pkg/reqtrack/tracker.go: the requests in flight, their lists and their counts.
--
-- Handler, for pkg/protocol/mysql/handler.go: the handler of one connection over what all handlers
-- share, the pool, the manager, the cache, the variables and the tracker. Connection is
-- `ensurePGConn`, `UseDB` and `Close`; Query is `HandleQuery` in the order of its tests; Prepared the
-- prepared statements; Commands the other commands; Fields the lists of fields; Names the
-- texts cut out of statements. What the parser of the library gives is a parameter.
--
-- Rewrite, for pkg/sqlrewrite. Of rewriter.go, Placeholders is `convertPlaceholders` and the count of
-- `RewritePrepared`; Statements is the rest of the file, with the fallback on texts and the tests
-- of a statement's kind. The rewriter on syntax trees is a parameter that may fail. Accounts is
-- pkg/sqlrewrite/rewrite_acl.go, on the statements that the parser of the library gives, and Types
-- is pkg/sqlrewrite/type_mapper.go, without the mapping of the texts of types. Columns is the visit of
-- a CREATE TABLE and the conversion of its columns, of pkg/sqlrewrite/ast_visitor.go; the text that the
-- library prints for them, and what is replaced in it, are not modelled.
--
-- Replication, for pkg/replication/server.go. Changes holds `ChangeEvent`; Events is
-- `convertToMySQLEvents` with the functions that create events, over a record Core of what they
-- read and write of the server; Clients is the dump clients, `processChangeEvent`, the packets
-- and the steps of the goroutines, in any order. A connection and its `Write` are parameters, and
-- the encoder is one of the clients' sending, so that it can be any; Events' theorems take that of
-- the module Encoder.
--
-- Replication.Streamer, for pkg/replication/pg_streamer.go: the handlers of the messages over the
-- cache of relations, with the library's parser as a parameter; Streamer.Types is the types and
-- values, Streamer.Backoff is `streamLoop` over the outcomes of its calls, and Streamer.Checkpoint
-- the checkpoint on a directory. The channel takes an event or not by a parameter.
--
-- Every loop is a structural recursion, on a list or on a count; the digits of a number are
-- counted by the number itself, which is enough, since each round divides it by ten.
--
-- Not modelled: the rewriting of syntax trees, which are those of a library, the
-- connections of the streamer to PostgreSQL, the conversion of values on their way to the client,
-- the statements of SHOW on replication and processes, and backups, which run other tools.
pub mod Base
pub mod Binlog
pub mod Encoder
pub mod Session
pub mod Schema
pub mod Rewrite
pub mod Replication
pub mod Pool
pub mod Postgres
pub mod Mapper
pub mod Admin
pub mod Tracker
pub mod Handler
