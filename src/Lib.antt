-- ===== src/Lib.antt =====
-- routn is a C++ framework of fibers, I/O and network protocols. This library models, from the sources
-- under src, the parts of it that keep state of their own, and proves what they promise.
--
-- Parts and files:
-- * ByteArray (src/ByteArray.h, src/ByteArray.cpp, src/Endian.h) is in ByteArray.antt: the chain of
--   blocks is a list of nodes, `_cur` the index of a block, and a run through a null pointer the outcome
--   `fault`; std::out_of_range is the outcome `oor`. `write`, `read`, `setPosition`, `addCapacity`,
--   `clear` are `write`, `read`, `set_position`, `add_capacity`, `clear`; their loops are `write_chain`,
--   `read_chain`, `seek` and `add_nodes`. ByteArray/Codec has the numbers (`writeFint8` .. `readDouble`),
--   ByteArray/Text the strings, ByteArray/Buffers `Read`, `toString` and the scatter/gather lists.
--   ByteArray/Invariant has the invariant, ByteArray/Refinement the view as flat bytes with a position,
--   ByteArray/Cursor and ByteArray/Bounds what the operations do to the view and where they fail,
--   ByteArray/RoundTrip and ByteArray/TextRoundTrip that reads give back what writes store.
-- * LRU_Cache (src/ds/LRUCache.h, src/ds/Cache.h) is in Cache/Lru.antt and Cache/Status.antt: the hash
--   map is an association list of node numbers, the linked list a list of nodes, a list iterator a
--   node's number. Cache/Lru/Invariant says how the two agree, Cache/Lru/Recency compares every
--   operation with one on a plain list of entries in order of use.
-- * HashLRU_Cache (src/ds/LRUCache.h) is in Cache/Hashed.antt: a vector of LRU caches, one of which the
--   hash, an argument, picks. Cache/Hashed/Routing says what a call does to the keys of all of them.
-- * Timed_Cache (src/ds/TimedCache.h) is in Cache/Timed.antt: the std::set of nodes is a list in the
--   order of time and key. Cache/Timed/Timeout is about `checkTimeout`.
-- * The RPC messages (src/Protocol.cpp, src/rpc/RockProtocol.cpp) are in Rock.antt: `serialize` and
--   `parse_from` stand on the byte array, `header_for` and `check_header` are the header. Rock/Compose
--   puts writers and readers in sequence, Rock/RoundTrip and Rock/Header have the round trips.
-- * The load balancer (src/streams/LoadBalance.cpp) is in LoadBalance.antt: the statistics by seconds, the
--   map of connections, and the choice by turns (LoadBalance/RoundRobin) and by weight
--   (LoadBalance/Weighted). Which connections are connected, and `rand()`, are arguments.
-- * FiberSemaphore (src/FiberSync.h, src/FiberSync.cpp) is in FiberSync.antt: a call is a step with an
--   effect, `run` a sequence of calls; FiberSync/Queueing has the order of waking and the permits.
-- * Scheduler (src/Scheduler.h, src/Scheduler.cpp) is in Scheduler.antt: a fiber is a number with a status,
--   a thread a position with a phase, and a round of `run` the steps `take` (under the lock), `begin` (up
--   to the switch to the fiber) and `finish` (behind it). Scheduler/Queue is about the search,
--   Scheduler/Invariant about where the fibers are, Scheduler/Change about what keeps this in order.
--   Scheduler/Searching, Scheduler/Switching and Scheduler/Returning have the three steps, Scheduler/Threads
--   sequences of them, Scheduler/Twice a fiber that is queued twice.
-- * IOManager (src/IoManager.h, src/IoManager.cpp) is in IoManager.antt: the vector of contexts by file
--   descriptors and the count of events; `addEvent` .. `cancelAll` and the round of `idle` over one event
--   are `add_event` .. `cancel_all` and `handle_event`. A context that a smaller resize has cut off the
--   table is not followed: a round over its event is `untracked`. IoManager/Table has a table of registered tasks,
--   to which IoManager/Context, IoManager/Operations and IoManager/Events relate every call, and
--   IoManager/Run and IoManager/Conservation have sequences of calls.
-- * FdManager (src/FdManager.h, src/FdManager.cpp) is in FdManager.antt: contexts are objects, the table
--   holds their numbers. `get` is `find` and, where that finds none, `create`, between which the lock is
--   free. FdManager/Lookup has its operations.
-- * Stream (src/streams/Stream.cpp) is in Stream.antt: `readFixSize` and `writeFixSize` over a list of what
--   the calls of `read` and `write` answer; an access outside of the buffer is `overrun`, and a
--   loop all of whose calls fail from then on, as those of a stream whose socket is disconnected do,
--   `spins`. Stream/Whole has both loops, Stream/Steady what they do while the connection lasts.
-- * The WebSocket frames (src/http/WSSession.h, src/http/WSSession.cpp) are in WebSocket.antt, on the
--   loops of Stream.antt: `ws_send_message` and `ws_recv_message`. WebSocket/Frames has what a sender
--   writes, WebSocket/Parts, WebSocket/Round and WebSocket/RoundTrip what a receiver makes of it,
--   WebSocket/Empty empty messages, and WebSocket/Progress and WebSocket/Termination, with
--   Stream/Leaves, that the loop ends while the connection lasts. Each frame of a message comes with
--   the `rand()` that its sender masks it with.
-- * The functions on texts (src/Util.cpp) are in Util/Url.antt (`UrlEncode`, `UrlDecode`), Util/Base64.antt
--   (`base64encode`), Util/Trim.antt (`Trim`, `TrimLeft`, `TrimRight`) and Util/Replace.antt
--   (`replace`). Util/Url/Plain compares the first two with a plain pass over the bytes,
--   Util/Url/RoundTrip and Util/Base64/Decoding have what a decoder gets back, Util/Trim/Ends what is
--   left of a text, Util/Replace/Single what `replace` answers for a character.
--   The tables are in the source's order, and the loop of `replace` is on fuel.
-- * Timer and TimerManager (src/Timer.h, src/Timer.cpp) are in Timer.antt: timers are objects known by
--   their addresses, and std::set is a list in the order of the comparator. Timer/Invariant says that
--   the set holds exactly the timers with a callback, Timer/Due and Timer/Firing what `listExpiredCb`
--   takes out of the set and hands out, Timer/Rollover when the clock counts as gone back, and
--   Timer/Expiry puts them together.
-- * Base.antt and its children hold the shared lists, tests, bytes and association lists.
--
-- How they interact: the RPC and the servers write their messages through byte arrays, the I/O manager
-- asks the timer manager how long to wait and which callbacks to run and hands tasks to the scheduler, the
-- WebSocket functions read and write through the loops of the stream, and the caches stand alone.
--
-- Conventions. Numbers are natural numbers; a fixed width is written out by `% 2 ^ w`. A float is its
-- bit pattern. The clock, the address of a new object and the byte that fresh memory holds are arguments.
-- A call under a lock is one step. Sizes stay below 2^53, where the source's use of `ceil` on a double
-- is exact. The loops of `write`, `read`, `setPosition` run along the chain; the varint loops have as
-- many rounds as the width has groups of seven bits (5 and 10). The loop of `prune` has as its fuel the
-- size of the map in the LRU cache and the size of the set in the timed one, since each round takes an
-- entry out of it. The loop of `readFixSize` runs along the answers of the stream, and that of
-- `WSRecvMessage` has fuel for its rounds, one for each frame.
--
-- Not modelled: events of contexts that are no longer in the I/O manager's table, the file functions of
-- ByteArray and its hexadecimal dump, the sharded timed cache, the switching of fibers, the start and the
-- end of the scheduler's threads, sockets, the WebSocket handshake and HTTP, the parsers that Ragel
-- generates, logging, configuration, the database clients and the vendored libraries.
pub mod Base
pub mod ByteArray
pub mod Cache
pub mod FdManager
pub mod FiberSync
pub mod IoManager
pub mod LoadBalance
pub mod Rock
pub mod Scheduler
pub mod Stream
pub mod Timer
pub mod Util
pub mod WebSocket
