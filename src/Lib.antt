-- ===== src/Lib.antt =====
-- Verification of yasdb, a store of append-only streams over an object-store engine, in Go.
--
-- A client creates a stream at a path, appends records to it and reads them from a position on. An
-- append is planned against a streamer, the state of one stream in memory (internal/ds/streamer.go),
-- in a burst with the other requests that wait; the burst becomes one batch of key-value mutations,
-- which the commit path (commit.go) hands to the storage engine (storage.go), and once the batch is
-- durable the readers see the new tail. The program's files are under internal/ds, unless said.
--
-- Which file models which part:
--   Prelude           lists, options, results, byte strings and finite maps that the parts share
--   Wire, Meta        meta.go: big-endian numbers (also be64 of keys.go); metadata, tails, producers
--   Keys              keys.go: every key encoder and `prefixEnd`; Keys/Order on scans, Keys/Distinct
--   Decimal, Offset   offset.go and the strict parsers of handlers.go: the tokens of positions
--   Producer          producer.go: `validateProducer`; Producer/Once on sequences of requests
--   Storage           storage.go: the interface as a record of operations and laws
--   ContentType, Json server.go, json.go: content types; JSON bodies as lists of records
--   LiveCache         livecache.go: the window of recent records
--   Streamer          streamer.go: the state of a stream, `planAppend` (Plan), `processBurst` (Burst),
--                     and with commit.go the outcome of a commit (Commit), stage by stage
--   Server            server.go, and stage by stage the life of a stream: `createStream`
--                     (handlers.go) in Server/Create, forks (fork.go) in Server/Fork, deletion
--                     (expiry.go, handlers.go) in Server/Delete, the sweep of deadlines (expiry.go)
--                     in Server/Expiry, the deletion in the background (deleter.go) in
--                     Server/Background, and reads of stored records (read.go) in Server/Read
--   Notifier          durability.go: the waiters for the durable watermark, as a machine of events
--   Watermark         contigwatermark.go: `mark`, and its loop on the count of marked numbers as
--                     fuel
--   Committer         commit.go: the shared committer in front of the notifier, as a machine of
--                     events
--   Pwal              pwalstore.go: the records of the partitioned log, reading them back (Decode),
--                     a shard (Shard) and the store over the shards (Store), with its recovery
--   Materializer      internal/state: validation of messages, and the entities that they build
--   Registry          registry.go: the shards of resident streamers, as a machine of operations
--   LiveWaker         livewaker.go: coalesced wake-ups, with the time as an argument
--   Cursor            cursor.go: the cursor of live responses
--   Request           handlers.go: the parsers of headers, and what `handlePost` passes on to a
--                     streamer
--   Sse               read.go: the data events of server-sent events
--   Live              read.go over HTTP: the replies and control events; Live/Turn the loops of live
--                     readers turn by turn (also `LiveCursor.Next`, public.go), Live/Published the
--                     two atomics that they load while `applyReader` stores them, Live/Catchup
--                     `handleGet` and `readCatchup`
--   Streamer/Mailbox  the goroutine of a streamer as a machine of events: submissions, touches and
--                     removals (server.go), and the turns of `run`, `drainBurst` and `tryRetire`
--                     (streamer.go); Streamer/Touch the refresh of the TTL by a read
--   Public            public.go: the operations of the Go API over the others; Server/Spawn
--                     `getOrSpawn` (server.go)
--
-- State is passed explicitly: an operation takes the streamer (or the store) and returns the new
-- one. The goroutines of the source own their streamer, so a step of the model is one burst; the
-- queue of a streamer, the notifier, the committer, the registry and the waker are machines of
-- events, one for each call and each end of an operation of the engine, in any order. Numbers are
-- natural numbers, with `% 2 ^ 64` where the source's uint64 wraps. Times are arguments. Errors are
-- values of `Result`, or answers with a status. Where the source follows a chain of forks or repeats
-- until a scan is empty, the model has fuel, and says in its result where it is too small: a chain
-- of d forks needs d + 1, and a background deletion more than the stream has keys. The iterator of a
-- scan is the list of its rows, so a scan fails at once or not.
--
-- Parameters: the engine (`Storage`, with the laws that the interface documents: a committed batch
-- is applied in order and atomically, one that fails wholly or not at all, a scan gives the keys of its
-- range in ascending order), the B-tree that indexes the partitioned log (Pwal/Store/Btree), the parser
-- of media types of Go's library, its JSON reader, its parser of times, and base64.
-- Storage/Memory fills the interface with stores in memory, on which the examples run.
--
-- Not modelled: the parsing of HTTP requests and the writing of responses beyond their fields, metrics,
-- administration and start-up provisioning, since they only move data in and out; the channels and locks
-- that schedule the goroutines, whose sections are the events of the machines; the engine, which is not
-- part of the repository; the Go wrapper, the load generator and the test adapter around the server.
pub mod Prelude
pub mod Wire
pub mod Keys
pub mod Meta
pub mod Decimal
pub mod Offset
pub mod Producer
pub mod Storage
pub mod ContentType
pub mod Json
pub mod Live
pub mod Public
pub mod LiveCache
pub mod Streamer
pub mod Server
pub mod Materializer
pub mod Pwal
pub mod Cursor
pub mod LiveWaker
pub mod Registry
pub mod Request
pub mod Sse
pub mod Watermark
pub mod Notifier
pub mod Committer
