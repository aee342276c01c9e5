-- ===== src/Lib.antt =====
-- Tumbleweed is a message broker: clients send frames over TCP to a server, which decodes them
-- (pkg/protocol), calls the broker (pkg/broker), which keeps each topic in a write-ahead log
-- (pkg/wal), and answers with a frame. This library models these parts and proves what they do.
--
-- - Base: Boolean tests, lists and the error results of the program over the native numbers. An
--   error result has one constructor for each error value of the source, and `panics` for a Go
--   panic.
-- - Bytes: byte slices, big-endian integers and io.ReadFull. A slice is a list of bytes; an access
--   out of range panics. Buffer, Cursor and Ensures carry the proofs on encoders and decoders.
-- - Protocol: pkg/protocol/protocol.go. Each message has a file with its record, `marshal_…` for its
--   Marshal and `unmarshal_…` for its Unmarshal function, and a module Laws with its wire format and
--   the theorems; Messages has the nine together. Frame has ReadFrame and WriteFrame.
-- - Wal: pkg/wal/wal.go. Wal.antt has the state of a log with roll, Append, findSegment and Read;
--   Wal/Encoding the bytes of a record, Wal/SegmentFile a segment's two files and what reads and
--   writes them, Wal/Log the invariant of a log: its segments hold the appended entries in order.
--   Each system call of an append may fail, and a failed write leaves a part of its bytes.
--   Wal/Recovery has NewWAL: how the segments of a directory are scanned, cut and indexed again;
--   Wal/Closing has Close, Flush and flushLoop.
-- - Broker: pkg/broker/coordinator.go. Leases is a group's map of leases, Group has slideWindow, Ack
--   and Nack on a group, Sort the exchange sort of fetchAvailable, Fetch fetchAvailable on a group.
--   Names has Go's maps with string keys; Topics the broker's state with CreateTopic, loadTopics,
--   loadGroups and getOrCreateGroup; Produce has Produce and dispatchMessage, Requests Fetch, Ack
--   and Nack, Expiry checkExpiredLeases. History is the life of a group as a sequence of steps.
--   Settled states a group against the set of the offsets that it has acknowledged, Group/Order
--   against the offsets that it has handed out. Closing has Close and the loop that checks the
--   leases. Sound is about the whole broker, each topic's log together with its groups, from
--   NewBroker on through any calls, which Sound/Runs has as a type; Sound/Stored has the files from
--   which it can start. A call that does not return, or panics, ends a sequence in the source; the
--   model goes on with the state that it has then.
-- - Server: pkg/server/server.go. processFrame, a function for each of its cases, over a record of
--   the broker's operations; Connection has handleConnection; Lifecycle has Start and Stop as the
--   steps of one state, with the connections counted.
-- - Client: pkg/client/client.go. execute and the calls over it; `peer` is what the other side
--   sends. Address has Connect with normalizeAddr. Served puts handleConnection there, States says
--   in which state that leaves the server, and EndToEnd has the broker behind it.
-- - Cli: cmd/tumbleweed-cli/main.go. Cli.antt has rearrangeArgs, Commands main with its switch over
--   a record of the client's calls; Flags and Decimal are what main uses of the packages flag and
--   strconv. EndToEnd puts the client, the server and the broker behind a command.
--
-- Integers are numbers with their wrap-around written out; an int64 on the wire or on disk is its
-- 64-bit pattern, a file size is below 2 ^ 63. The numbers of the configuration are not negative;
-- most theorems on the log need a positive limit of a segment, and say so. The checksum function of
-- hash/crc32 is the parameter `crc`, of which only that it returns 32 bits is used.
--
-- Loops run on fuel where they are not structural. That of slideWindow has as much as there are
-- leases, since a round deletes one; that of sort.Search as much as there are elements, since a
-- round makes the interval smaller; the scan and the rebuilding of verifyOrRebuildIndex one more
-- than the log has bytes, since a round goes forward by a record; the loop over new offsets in
-- fetchAvailable as much as there are offsets up to the end of the log; handleConnection one more
-- than bytes arrive. This is proved to be enough: for verifyOrRebuildIndex on logs of records whose
-- sizes do not wrap, and a tail that is shorter than a header or does not begin as a record; for
-- fetchAvailable on a log in order and a group that hands out its offsets without a gap; and always
-- for the other three.
--
-- Go visits a map in any order; a model has the order of its list, and what is proved holds for
-- every list. The clock is read once for a call. The mutex of a topic is the argument `held` of
-- get_or_create_group, since one operation takes it twice; each other operation runs under its mutex
-- without more being said.
--
-- Not modelled: the names of a log's files; the Close of the client's connection and Addr of the
-- server; cmd/tumbleweed/main.go, which copies flags into the configuration, a negative number too,
-- starts the server and waits for a signal; the texts that the commands print. These are calls of
-- the network, the file system and the terminal around the modelled operations. Each call of the
-- broker is one step, also where the source releases a mutex in between.
pub mod Base
pub mod Bytes
pub mod Protocol
pub mod Wal
pub mod Broker
pub mod Server
pub mod Client
pub mod Cli
