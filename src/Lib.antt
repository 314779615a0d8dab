-- ===== src/Lib.antt =====
-- The verification library of fisk, a distributed compile system. A client (C++) asks the scheduler
-- for a builder, sends it the preprocessed source and gets the object file back; a builder runs the
-- compiles of its slots and keeps their objects in a cache; a daemon beside the clients hands out
-- the slots for preprocessing, local compiles and remote compiles of one machine.
--
-- Base: names of the libraries, Boolean tests, lists over the native numbers, results.
-- OrderedMap: a JavaScript object or Map in insertion order; its laws are in OrderedMap/Laws.
--
-- Daemon (src/daemon):
--   Slots is Slots.ts: a pool with `used` and `pending` in insertion order. The events that the code
--   emits, "changed" and the callbacks, are the second result. A failed assert is the outcome
--   `assertion_failed`, at which the process exits. Slots/Invariant has the pool's invariant, Slots/Queue the
--   contract as one queue of clients.
--   ClientBuffer is ClientBuffer.ts: chunks of bytes (numbers) and an offset; a thrown error is an
--   `err`. Contents and Stream see it as the stream of the bytes that are left.
--   Constants is Constants.ts.
--   Compile is Compile.ts: `_onData` on a ClientBuffer, with JSON.parse as a parameter. Frames is the
--   protocol on bytes alone, which Messages and Refinement relate to the code; Encoding has the framing that
--   `send` writes too, RoundTrip and Delivery what comes of a client's messages in chunks.
--   Handlers is fisk-daemon.ts: `dispatch` has one case per event of a connection, `step` is one
--   event of one connection, and `run` a sequence of them in any order, which is how the event loop
--   interleaves connections. The lookup of a compiler is asynchronous: `acquire_slot` starts one and
--   the event `info_resolved` is its answer with the load of that moment, at any later time.
--   Invariant, Steps and Protocol have what holds after every step.
--   CompilerInfo and CompilerInfoCache are CompilerInfoCache.ts: what is made of the answers of a
--   compiler's probes, with Versions and Fingerprint, and the cache of computations, with Callers for
--   those who wait and Computes for how often a compiler is probed.
--
-- Builder (src/builder):
--   ObjectCache is ObjectCache.ts with ObjectCacheItem.ts and Response.ts: the index of the cached
--   objects in the order of use, the sum of their sizes, and the writes that have not ended. What is
--   found on disk is an argument (`FileOnDisk`, or the result of stat). Accounts, Purge and Writes
--   have the laws of the books.
--   JobQueue is the part of fisk-builder.ts that admits, orders, starts and ends jobs. What the cache
--   answers when a job starts is an argument. Running counts the jobs that run, Capacity relates them
--   to the slots, Order is about priorities, Cancel about compiles of clients that went away.
--   VmCompile is the constructor of VM_runtime/Compile.ts up to the call of the compiler: one pass over
--   the arguments, in a mode that says whose operand the next one is. Scans and Remains are about what is left.
--   Results is what a job gets: the end of a compile's "finished" handler, and getFromCache. Framing is
--   about the index and the bytes behind it, Working and Cached about an object that is served. PendingItem is
--   ObjectCachePendingItem.ts, the writes of a cache file; Drains is about the stream's drains.
--   Sockets has the message handlers of Server.ts and Client.ts; Announced is about the bytes that JSON
--   announces.
--
-- Scheduler (src/scheduler):
--   Peak is Peak.ts. Calls are sequences of its calls; Window, Stands, History and Ever compare the
--   arrays that it keeps with everything that was recorded.
--   Environments is Environments.ts with Links.ts and Environment.ts. `remove` has two steps, before
--   and after the first save of the links.
--   ObjectCacheManager is ObjectCacheManager.ts: the maps and the pending transfers; Distribute has
--   `distribute`, and Events the methods that call it and the sequences of calls.
--   Builder and Choice are Builder.ts and the search for a builder in fisk-scheduler.ts, Sync is its
--   syncEnvironments. Program has its variables as a record and a builder's handlers,
--   Program/Compiles the handlers of a compile; Program/Events is one event of a builder, a compile
--   or the object cache, `run` a sequence of them in any order. Counts, Sums and Steps are about the
--   program's counters, Listed, Handlers and Assignment about the builders that a compile may get,
--   Answers about what a compile hears.
--   Server is Server.ts: the headers that a compile and a builder must send, and the messages of a
--   compile with its upload; Upload is about the bytes of uploads.
--   Database is Database.ts: the operations that wait, the one that is performed, and the file.
--   File is File.ts: the writes of an upload; Order is about any events, Drain about the writes' end.
--   Users is the part of fisk-scheduler.ts that adds, removes and logs in the users of monitors, with
--   the reads and writes of the database, and what is awaited between them, as separate steps.
--   Verified and Checked are about the tests of a login, Sessions about the user of a connection, Names
--   and Pending about pendingUsers, Accounts about a user who was added. Purge is its
--   purgeEnvironmentsToMaxSize: Listed has the files that it takes, Size what it keeps of them.
--
-- The parts meet in messages: a builder's cache reports "added" and "removed" (ObjectCache.Event),
-- which become the manager's events; what the end of a compile adds to the cache is what getFromCache
-- serves (Builder/Results); the daemon's slots are asked for by the clients alone.
--
-- Every loop of the models is structural: over a list, or over a number that is the index or the
-- bytes or the nodes left of the source's loop; the loop of Daemon/Compile has a round for each byte
-- that is available and one more, and Daemon/Compile/Fuel says that more rounds change
-- nothing. Numbers are natural numbers: the sizes, counts and ids of the models are not negative in
-- the code and far below 2 ^ 53; where a subtraction could go below 0 an invariant excludes it.
--
-- Not modelled: sockets, files, child processes, timers, log output, the monitor (src/monitor) and
-- the C++ client (src/client), which are I/O or another language; the HTTP end points and
-- the lists that monitors are sent; the listening sockets of the three programs; the environments on
-- the builders' disks and the child processes of their compiles.
pub mod Base
pub mod OrderedMap
pub mod Scheduler
pub mod Daemon
pub mod Builder
