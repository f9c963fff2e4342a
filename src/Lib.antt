-- ===== src/Lib.antt =====
-- microservice-log-parser: four Go services that take InfiniBand diagnostic logs apart, store what is in
-- them and infer a topology. Paths are from the repository's root.
--
-- The parts, and which modules model them:
--
-- Prelude: shared types and lemmas. A text is the list of its bytes; upper and lower case and blanks
-- are those of ASCII. ℤ stands for int64 and int32; where the code converts to int32 or adds in it,
-- the wrap-around is written out (Int). A map is an association list with one entry per key. A
-- `sort.Slice` by a strict order is insertion sort (Sort), which keeps equal elements in place.
-- Parser: log-services/parser. Record, Number and Classify are raw.go and the reading of records in
-- section.go; Sections is dbcsv.go; KeyValue and Merge are in section.go; Table and Finalize are
-- `finalizeParsedLog`; Paths is `resolvePath`; Archive is archive.go, with `readSource`
-- and its readers in Archive/Sources; Engine is engine.go and core/service.go. Parameters: encoding/csv
-- (`read_all`), what the system and the archive packages answer (`Host`), the working directory, and
-- whether the context is done when the loop comes to a file (`done`).
-- Repository: log-services/repository. Rows are the row structs with their `toCore`; World is the
-- database: four tables, the sequences of their ids, and a schedule of faults that tells which
-- statements fail; Save, Logs and Queries are the methods of adapters/db/storage.go; Service is
-- core/service.go. A primary key or a UNIQUE constraint that is violated is an error of its statement.
-- Topology: log-services/topology/core. Kinds, Ports, Edges, Groups and Service are service.go; the
-- repository client is a parameter.
-- App: log-services/app. Service is core/service.go over the interfaces of core/ports.go, which are
-- the record `Ports` of calls on any state; what it relies on is the record `Keeps` of
-- Service/Outcome. Rest is adapters/rest: query and path values and pages (Pagination), payloads
-- and handlers (TopologyView for topology.go, Health for api.go), and the middleware, where a handler is
-- the list of what it does to the writer of the reply.
-- Wire: the calls between the services over gRPC. ParserRpc, RepositoryRpc and TopologyRpc hold the
-- messages of proto/, the servers of adapters/grpc and the clients of app/adapters and
-- topology/adapters/repository. A status is told by its code; its text, and reading and writing
-- times, are parameters.
-- System: the services joined as app/main.go and topology/main.go join them. A call arrives once and is
-- answered. Settled makes calls of `ParseLog` one after the other.
-- Tests: small inputs, and the theorems applied to them.
--
-- The app creates a log at the repository, has the parser parse its file, and saves what comes back or
-- marks the log as failed. The repository accepts only logs that are being processed. It refuses a
-- log whose infos or ports name no node of it. The topology service reads what is saved.
--
-- Bounds: loops are structural recursion. The digits of a number are taken off with the number itself as
-- fuel, which is enough for all of them.
--
-- Left out: `Ping` over gRPC, connections and replies that are lost, so a commit that fails has rolled
-- back; the limits of gRPC on a message, 4 MiB by default, and its refusal of strings that are not UTF-8;
-- the decoding of request bodies, the writing of logs, configuration and migrations, which are glue around
-- libraries; unpacking, which is the packages'; time, which is a text of the world. Texts that wrap an
-- error are not kept, nor are contexts that are done, but for the loops over files and over archive
-- entries.
pub mod Prelude
pub mod Topology
pub mod Parser
pub mod Repository
pub mod App
pub mod Wire
pub mod System
pub mod Tests
