-- ===== src/Lib.antt =====
-- Data structures, key space, strings and transactions of the Redis 2.6 server that the game ships, in
-- redis-stable/src. The game's Rails application talks to the server over a socket, for its queue
-- of jobs; the server keeps every database in dictionaries, sets of small integers in intsets, and
-- numbers as text, and runs the commands of a client one at a time or as a transaction.
--
-- The parts and their files:
-- - Common: the names shared by all files, Boolean tests, lists and integers over native numbers.
-- - Memory: a block of bytes with loads and stores, `memmove` and `realloc` of the C library, whose
--   new bytes are a parameter. Memory/Words and Memory/Signed hold their lemmas.
-- - Intset (redis-stable/src/intset.c): a record for `intset`, one function per C function, on the
--   byte array itself. The children follow the proofs: Slots for single elements, Search, Insert,
--   Upgrade and Delete for the parts of the operations, Members for what a set holds, Contract and
--   Access for the entry points. The search has a round of fuel more than there are elements, and
--   each round halves the range. The sets have fewer than 2 ^ 28 elements, so that sizes in bytes
--   do not wrap in 32 bits; the wrap-around itself is written out.
-- - Numbers (redis-stable/src/util.c): `string2ll`, `string2l` and `ll2string`. Printing has fuel for the
--   32 bytes of the source's buffer, and a 64-bit number has at most 20 characters.
-- - Sds (redis-stable/src/sds.c): the functions that make text of numbers and split text.
-- - Rdb (redis-stable/src/rdb.c): lengths, integers and string objects of a dump file, as bytes that
--   are written and read. `lzf_compress`, `lzf_decompress` and `strtoll` are parameters. Lengths,
--   Integers and Strings hold the round trips.
-- - Protocol (redis-stable/src/networking.c): the part of a client that parses requests, and the
--   functions from `processInlineBuffer` to `readQueryFromClient`; a read is a value, and
--   `processCommand` of redis-stable/src/redis.c is a parameter, of which something is asked only for the
--   commands that are sent. Encode has
--   `catAppendOnlyGenericCommand` of redis-stable/src/aof.c. The loop over a buffer has a round for
--   each byte, and each request takes more than one. Lines, Rounds, Expects and Resume follow the
--   parser from a line to a call, Pipeline and Reads the stream of requests.
-- - Dict (redis-stable/src/dict.c, redis-stable/src/dict.h): Types has the structs and Ops the functions; a chain is a
--   list, a null table is the empty list. `dict_can_resize` is an argument. `rehashidx` and the index
--   of a new entry are an `int` in the source: a function gives `none` where one overflows, where the
--   assertion of `dictRehash` fails or where a table is accessed before its beginning. Tables of
--   fewer than 2 ^ 31 buckets exclude this, and dictionaries of fewer than 2 ^ 29 entries never grow
--   larger ones. `next_power` has fuel for the doublings up to 2 ^ 64, and `skip_empty` for the
--   whole table. The other files hold the abstract map (Rehash.view), the invariant and one operation each.
-- - Multi (redis-stable/src/multi.c): the server is a function from client numbers to clients and the
--   dictionaries of watched keys, a map to lists of clients; `none` as a result is a failed
--   assertion. Commands has the handlers, Steps the relation of interleaved steps: those of every
--   client, but for what the client in question does to end its own transaction. The function
--   `call` of redis-stable/src/redis.c that runs one command is a parameter.
-- - Pubsub (redis-stable/src/pubsub.c): clients with their channels and patterns, the server's map from
--   channels to clients and its list of patterns. A message is published to a list of clients.
--   The matcher of patterns is a parameter, for which Glob has a function. Channels has the invariant.
-- - Glob (redis-stable/src/util.c): `stringmatchlen`, where a result of none is a read behind the string or
--   the pattern, and `tolower` is a parameter. The loop has a round for each byte of the pattern and
--   one more. Grammar has the patterns as they are meant, as data, the text that each is written as and
--   what it matches, by definitions of its own; Tokens, Loop, Written and Classes have the proofs.
-- - Slowlog (redis-stable/src/slowlog.c): the log as the list of its entries, newest first. Trimming has
--   fuel for all entries. Trim has the loops, Entries the commands.
-- - Objects (redis-stable/src/object.c): string objects, their two encodings and how numbers are read
--   from them; `strtoll` is a parameter.
-- - Keyspace (redis-stable/src/db.c): the databases, each with a dictionary of values and one of
--   expire times, and the functions that look keys up, change them and let them expire. Commands
--   has the handlers. A handler is given its database and arguments and returns the reply and the
--   next server, or `none` for a failed assertion; the clock stands still during a command. What is
--   sent to the append-only file and to slaves, which keys were signalled to WATCH, and as what the
--   command is replicated are fields of the server. Map is the promise of a dictionary, Expiry and
--   Entries say what a lookup leaves and what it means that only one key changes, Writes, Rename
--   and Times follow the operations.
-- - Strings (redis-stable/src/t_string.c): the commands on strings, over the key space. Setting has SET and
--   its relatives, Counters INCR and DECR, Ranges GETRANGE and SETRANGE; Stored, Conditions, Sums,
--   Slices, Patches and Setrange hold their proofs. A read behind the end of a string and a request for
--   2 ^ 63 bytes are `none` too.
--
-- Intset, Numbers and Dict do not depend on each other; Multi and Pubsub use the promise of a
-- dictionary as a map from keys to lists. Rdb, Protocol and Objects print and read numbers by
-- Numbers. Strings changes databases only by the functions of Keyspace, and its objects are the ones
-- that Rdb saves.
--
-- Not modelled: reference counts and freeing, replies' text, MONITOR, the dictionary's iterators,
-- hash functions and random keys, INCRBYFLOAT and other floating point, RANDOMKEY, KEYS and
-- SHUTDOWN, the times of last access, the rest of redis-stable/src/util.c, and the other files of the server;
-- the Rails application, which is written in Ruby; and redis-stable/deps, which holds copies of other
-- projects.
pub mod Common
pub mod Memory
pub mod Intset
pub mod Numbers
pub mod Dict
pub mod Multi
pub mod Pubsub
pub mod Slowlog
pub mod Sds
pub mod Rdb
pub mod Protocol
pub mod Keyspace
pub mod Objects
pub mod Strings
pub mod Glob
