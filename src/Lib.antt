-- ===== src/Lib.antt =====
-- Redis with pluggable allocators: models of its core data structures, and proofs about them.
--
-- util.c (Util): the conversions between a `long long` and its decimal text. `Util` has the
-- functions digits10, ll2string and string2ll; Util/Decimal the text itself; Util/Digits,
-- Util/Pairs, Util/Print and Util/Parse the proofs. The buffer of ll2string is a byte memory
-- (Prelude/Memory), its loop takes ten rounds of fuel, since 2 ^ 64 < 100 ^ 11, and digits10 is
-- nested at most once, since 2 ^ 64 < 10 ^ 24. Util/Glob is stringmatchlen: texts are lists of
-- bytes with a terminator behind them, and a read or a step outside of a text is a result of its
-- own. Each round uses up a byte of the pattern, which is the fuel. Glob/Tokens has the language of
-- patterns, tokens and the texts that they describe; Glob/Spelling, Glob/Agree and Glob/Total
-- compare the code with it. tolower is a parameter.
--
-- intset.c (Intset): the sorted set of integers in one block of memory. `Intset` has the functions
-- over the bytes of the block: _intsetGetEncoded and _intsetSet at the three widths, intsetSearch,
-- intsetUpgradeAndAdd, intsetMoveTail, intsetAdd, intsetRemove, intsetFind. The children prove:
-- Cell, what a cell keeps; Search, the binary search; Upgrade, the change of width in place; Model,
-- the abstract sorted list; Valid, the invariant; Grow and Shrink, insertion and removal; Refine,
-- the operations against the list. The search loop has as much fuel as the set has members. Sets
-- have fewer than 2 ^ 28 members, so that no position leaves `int` and no byte count leaves
-- `uint32_t`; redis keeps at most set-max-intset-entries (512 by default).
--
-- dict.c (Dict): the hash table with chaining that grows a bucket at a time while it is in use.
-- Dict/Table has the tables with dictExpand, dictResize and _dictExpandIfNeeded, `Dict` has
-- dictRehash, dictAddRaw, dictAdd, dictReplace, dictReplaceRaw, dictFind, dictGenericDelete and
-- dictEmpty over two tables; a table is a function from its index to a chain. Dict/Keys is
-- dictType, the hash function and the comparison, with the laws that the code relies on;
-- Dict/Chains the loops over one chain; Valid the invariant and the map that a dictionary stands
-- for; Mask and Push a write to one chain; Skip the search for a chain that is not empty; Rehash,
-- Grow, Find, Update, Delete, Replace and Raw the operations against the map; Small the indices of
-- tables that an `int` holds. The search for a chain that is not empty has as much fuel as chains
-- are left, and _dictNextPower 62 doublings, which reach LONG_MAX. The index of dictAddRaw is an
-- `int`: at a negative one an entry is written below the table, into no chain, and -1 is taken for
-- a key that is there. Iterators, dictScan, the random key and the hash functions are not modelled.
--
-- zmalloc.c (Zmalloc): allocation with a running total of the memory in use. The allocator is a
-- parameter: the calls take what malloc or realloc returns. `Zmalloc` has the heap, the counter and
-- its rounding; Zmalloc/Prefixed the calls of a build without HAVE_MALLOC_SIZE, which keep the size
-- in a header, and Zmalloc/Sized those of a build with it; Account the total of the live blocks and
-- the invariant; Prefixed/Counted, Prefixed/Calls and Sized/Tracked the calls against it, by
-- induction over what a program can do. Counters are in a `size_t`. Threads are not modelled; each
-- update is one atomic step.
--
-- slowlog.c (Slowlog): the log of slow commands. `Slowlog` has slowlogCreateEntry,
-- slowlogPushEntryIfNeeded and slowlogReset over a list with the newest entry first; Bounded proves
-- the bound and the order, Args what an entry keeps of its command. A loop that trims has as much
-- fuel as the log has entries. Reference counts and the replies of SLOWLOG are not modelled.
--
-- pubsub.c (Pubsub) and multi.c (Multi) keep, in the same way, tables from a name to the clients
-- that listen to it: Listeners has the insertion and the removal, with the list that goes with its
-- last client. `Pubsub` has the subscriptions of one client, Pubsub/Publish pubsubPublishMessage
-- and the commands; Valid the invariant, Commands the steps of the clients, Deliver who gets a
-- message. The answer of stringmatchlen is a parameter here. `Multi` has WATCH, MULTI, DISCARD and
-- the marks on clients; Multi/Exec execCommand, over a command table that is a parameter: what a
-- command does to the keyspace and which keys it reports to signalModifiedKey. Valid and Reach are
-- the invariant and the steps, Clean what discardTransaction and touchWatchedKey do, Trace and
-- Abort the promise of WATCH, Run a transaction that nothing has spoilt. Multi/Process is
-- processCommand of redis.c, with the state of the server that its guards read; Safe says which
-- commands may run, and Guards that these get past them. A client is a number. The list of a
-- client's channels is a set whose order the dictionary decides. MONITOR, the listing of channels,
-- reference counts and the copy of the arguments are not modelled.
--
-- notify.c (Notify): the two conversions between the letters of notify-keyspace-events and the
-- flags. Notify/Events is notifyKeyspaceEvent, with the channels of Pubsub and the numbers of
-- ll2string.
--
-- sds.c (Sds): the text of a number that sdsfromlonglong makes, digits first and then reversed in
-- place. Sds/Digits has what the two loops do, Sds/Text the text in the buffer. The digits loop has
-- 24 rounds of fuel behind the first, since 2 ^ 64 < 10 ^ 25.
--
-- rio.h and rio.c (Rio): streams in chunks, with a checksum. A backend is an interface, a pair of
-- functions with what they promise; the buffer keeps it, and rioWrite and rioRead over any backend
-- make a stream (Rio/Buffered). Rio/Crc64 is crc64.c, with its table, and rioGenericUpdateChecksum;
-- Rio/Checksum compares what two streams count, and Rio/Accepting is about writes that all go well.
-- The loops have as much fuel as bytes are left. After a failure the state of the stream is
-- dropped, as the callers do.
--
-- rdb.c (Rdb): values in the dump format, over any stream. `Rdb` has lengths, times and integers,
-- Rdb/Strings the three ways to save a string and the way back; Lengths, Integers, Saved and Packed
-- are the proofs for each of them, Restored the round trip and Accepted that a save goes well.
-- liblzf and strtoll are parameters with what the code relies on: what is compressed comes back,
-- and the number is a `long long`. The counts that the saves return are those of an `int`, -1 for
-- an error, so that the theorems are about strings of less than 2 ^ 31 - 7 bytes. Calls with a null
-- stream, which only count, and floats are not modelled.
--
-- db.c and t_string.c (Keyspace): databases of keys that expire. Keyspace/Interface is what the
-- code asks of a dictionary, with its laws, and Keyspace/Tables fills it with dict.c.
-- Keyspace/State is the state of the server, `Keyspace` has the functions from lookupKey to setKey
-- over any two such dictionaries, Keyspace/Commands the commands DEL, EXISTS, RENAME and MOVE,
-- Keyspace/Timed the commands EXPIRE, TTL, PERSIST and SET, Keyspace/Strings the commands GET,
-- GETSET, MGET and MSET, Keyspace/Numbers the commands INCR, DECR, INCRBY and DECRBY with the
-- conversions of object.c, Keyspace/Options the arguments of SET, and Keyspace/Flush the commands
-- FLUSHDB and FLUSHALL; a failed assertion is an abort, the result `none` of a step
-- (Keyspace/Steps). The calls of the rest of the server, such as notifyKeyspaceEvent,
-- signalModifiedKey and addReply, go to a list of events. The times that mstime returns are a
-- parameter. Keyspace/Spec and Keyspace/Described say what the functions and the commands promise
-- (Texts, Sums, Spelled and Flushed for those of Strings, Numbers, Options and Flush), over
-- contents: a value and perhaps a deadline for each key. Overflow has the arithmetic of INCR,
-- Emptied the loop of emptyDb. Shows relates a server to contents, and Yields says that a step runs
-- to such contents; Calls, Signals, Deadlines, Expiry, Refine, Removals, Moves, Times, Sets, Texts,
-- Multiples and Increments compare each function with its description, Session sequences of
-- commands, and Fresh and Gone have what follows for a server. A value is the number of an object;
-- what string objects hold, and the objects that are created, are a parameter of the commands on
-- numbers, as are strtoll and isspace. Reference counts, KEYS, SCAN and RANDOMKEY are not modelled.
-- The loops of the parser and of emptyDb go down their arguments and the databases, and need no
-- fuel.
--
-- Machine numbers are native numbers with their wrap-around written out. Memory is little endian.
-- Where an allocation fails zmalloc ends the process, so that the other parts have no such case.
--
-- Tests has runs of the modelled code and the theorems at concrete inputs.
--
-- Not modelled: files, sockets, the event loop, replication and scripts, which are input and
-- output; whole dump files; zipped lists, sorted sets and the commands on lists, sets, hashes, bits
-- and parts of strings, which work on the memory of objects in place, while an object here is a
-- number and what it holds; and whatever rests on floating point.
pub mod Prelude
pub mod Util
pub mod Intset
pub mod Dict
pub mod Zmalloc
pub mod Slowlog
pub mod Listeners
pub mod Pubsub
pub mod Multi
pub mod Notify
pub mod Sds
pub mod Rio
pub mod Rdb
pub mod Keyspace
pub mod Tests
