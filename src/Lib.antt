-- ===== src/Lib.antt =====
-- CrimsonCache is an in-memory server for keys and values that speaks RESP. This library models its
-- parts as functions on their state and proves what makes each correct.
--
-- The parts and their files:
--   Base: numbers of 64 bits with their wrap-around, lists and tests.
--   CString: C strings as lists of bytes; strcmp, strcasecmp, tolower, isspace.
--   Dict (src/dict.c, src/dict.h): the hash table. Dict/Defs has the structs, Dict/Hash the hash and
--     the index, Dict/Chain the walks along a bucket, Dict/Lru the search for the least recently used
--     entry and the eviction, Dict/Ops the operations under the source's names. A pointer chain is a
--     list. Dict/Valid has the invariant and the abstract map `view`; Access, Create, Insert, Resize,
--     Scan, Evict, Add and Clear prove the operations against it.
--   Tokenizer (src/commands.c): `tokenize_command`, its three states as `Mode`.
--   Number, Reply (src/commands.c): the numbers that are read and printed, the replies as bytes.
--   Commands (src/commands.c): Keyspace has the handlers of the commands for keys, each a function of
--     the arguments, the database and what clock and memory give; Reads, Writes, Expiry and
--     Increment have their laws. Transactions has MULTI, DISCARD and the branch of `execute_command`
--     that queues; Blocks and Queueing have the laws.
--   Replication (src/replication.c, src/replication.h): the replicas of a primary and the feeding of
--     commands to them; Roles has the change of roles, Sync the first synchronization of a replica;
--     Feed says who is fed and who stays, Info has the text about replication and the end of it.
--   Server (src/main.c): the list of connected clients; Server/Clients its laws.
--   Dispatch (src/commands.c, src/transaction.c): the state of the whole server as a record, Handlers
--     with the handlers that need more than the database and `tx_execute_commands`, Table with the
--     command table, Execute with `execute_command`. Valid has the invariant of the server; Quiet, Exec
--     and Preserve prove that it is kept, Sequence what EXEC comes to.
--   Config (src/config.c, src/config.h): the settings and the parser of their file, on its bytes.
--   Process (src/main.c, src/eventloop.c): the server with its threads. Process has the start of `main`
--     and the threads for expiry and saving, Follow the replication thread, Clients the connections in
--     both models of concurrency, Steps one step of any of them and what is reached by steps, Stream
--     the rounds of the replication thread on a stream; the other files what is proved of these.
--   PubSub (src/pubsub.c, src/pubsub.h): channels and subscribers; a client is its socket.
--   Transaction (src/transaction.c, src/crimsoncache.h): the queue of a client in MULTI.
--   Persistence (src/persistence.c, src/persistence.h): Format has the bytes of numbers and strings,
--     Save and Load the two operations on the bytes of the file, Harmless the files whose reading stays
--     within the heap.
--   Tests: the theorems applied to small databases, lines, files and clients.
--
-- What the machine and the C library decide is an argument: whether an allocation, a write, an opening
-- or a renaming succeeds, and what the clock shows at each place where it is read. The functions of the
-- C library are as its standard has them, on a little-endian machine with a `size_t` and a `long` of 64
-- bits, an `int` of 32 bits and a signed `char`.
--
-- A handler calls the operations of Dict/Ops in the order of the source. Persistence walks the same
-- buckets, and adds what it loads by `dict_add`.
--
-- A command gets a `World`, what the machine gives to its calls; a command that EXEC runs gets a world
-- of its own, found by its place in the queue. The server that a command leaves is the state of the next
-- command; the writes to all sockets are kept in their order. A round of a thread, a connection, a
-- message, the end of a child process and a signal are the steps of a process; they can follow each
-- other in any order.
--
-- Fuel: `dict_create` is given the rounds that its doubling may take; 64 are enough for every size up to
-- 2 ^ 60, and above 2 ^ 63 no number is. The eviction is given one round more than there are entries,
-- since each round deletes one. `execute_command` is given the depth of its calls of itself through EXEC;
-- two are enough on a server that is well formed, since no queue has EXEC in it. All other loops are
-- recursions on a list or on the count that the source counts down.
--
-- Not modelled: rounds of different threads that overlap, for the source shares its database between
-- threads without a lock; two children that save at the same
-- time, or a child beside the automatic save, which share the name of the temporary file; the second
-- replication thread with a buffer of its own that the threaded model starts; SIGPIPE, which ends the
-- process where a write of the model fails; the end of the counter of changes, an int, which is a number
-- without a bound here; the setting up of sockets and
-- threads, and the loop around `epoll_wait`, which only bring the steps about; the resolution of names,
-- which is a parameter with the connection; the output to the terminal; and the functions that only release memory.
mod Base
pub mod CString
pub mod Dict
pub mod Tokenizer
pub mod Number
pub mod Reply
pub mod PubSub
pub mod Transaction
pub mod Persistence
pub mod Replication
pub mod Server
pub mod Commands
pub mod Dispatch
pub mod Config
pub mod Process
mod Tests
