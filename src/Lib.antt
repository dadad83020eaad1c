-- ===== src/Lib.antt =====
-- A model of vanity, a server for keys and values of several types: its databases, how they survive a
-- crash, and how the requests of clients are read and answered.
--
-- A database (vanity/db/db) is a map of keys to values, of six types, with expiry times for some of
-- the keys. An operation looks at the time of its keys first and erases what has expired. It runs under
-- the lock of its database, after LockedDatabase has written it to the write-ahead log; an expiry is
-- logged too, when it happens. From time to time all databases are written to a file, and the log is
-- started anew. The files change places one by one, and a journal says how far that has got. A start
-- reads the journal first, then the database file, and then redoes the log (vanity/db/wal).
--
-- A message of a user is a request, or a pipe of many (vanity/request, vanity/pipe_server.cpp). Its
-- operation is looked up in a table (vanity/client/operations.h), and the client must be permitted to
-- ask for it. Then dispatch extracts the objects that belong to the operation and calls a method of the
-- server with them; what is refused in a pipe is skipped by dry_dispatch. The answers are responses
-- (vanity/response), which write strings and containers the way requests do.
--
-- Which file models what:
-- - Base: names of the libraries, lists measured by native numbers, integers, results.
-- - Std: strings as lists of bytes, unordered_map as an association list and unordered_set as a list
--   without repetitions, in their order of iteration.
-- - Operations: vanity/db/db/types.h, vanity/db/db/db_operations.h, vanity/db/wal/wal_entry_t.h.
-- - Database: the state, with base_map.h, expiry_database.h and database.h in vanity/db/db. Its children
--   model the other files there: Expiry expiry_database.cpp, General general_database.cpp, Primitive
--   primitive_database.cpp, ListDatabase list_database.cpp, SetDatabase set_database.cpp and HashDatabase
--   hash_database.cpp. A function has the name of its method. Writes and Transfers, and the files called
--   Laws or Valid, or after a law, are proofs.
-- - Locked: locked_database.cpp, as a function from an operation to the method behind it (run), the
--   log before it (execute), the redo of an entry, and the recovery of
--   vanity/db/wal/persist_journal_server.cpp for one database. Quiet, Redo, Recovery and Reads are
--   lemmas on operations at a time when no key has expired; Replay, Lost and Valid have the
--   results.
-- - Journal: journal.cpp, journalist.cpp and persist_journal_server.cpp in vanity/db/wal. Crash has the
--   results.
-- - Request: Extractable and Objects model vanity/request/extractable.cpp, Exact the templates of
--   extractable.h, Operation, Names and Permission vanity/client/operations.h with request.cpp, Call the
--   methods of request_handler.h, and Dispatch with its children request_handler.cpp, a part of the cases
--   in each. Serving models request_server.cpp and vanity/pipe_server.cpp, over a record of the methods
--   that it calls (Handlers). Bounds, DispatchBounds, Agree, Ends, Answers and Recursion
--   are proofs.
-- - Response: response.h, response.cpp, response_server.h and aggregate_response.h in vanity/response.
--   Reading and Containers have what extraction does with what is written, step by step; RoundTrip,
--   Backwards and Aggregates have the results.
-- - Serializer: vanity/utils/serializer.h as far as databases need it, and persist and from in
--   vanity/db/db/database.cpp. RoundTrip and Databases are proofs.
-- - Session: vanity/session_server.cpp and the session in vanity/client/session_info.h.
-- - Auth: auth_server.cpp and hasher.h in vanity/auth. Laws and Logins are proofs.
-- - Servers: the requests of vanity/db/servers on one database, as the method that they call (plan) and the
--   response to what it returns. Types, Found and BadType are proofs.
-- - Examples: the results, applied to a small database, short messages and two users.
--
-- An operation returns its answer and the new database. Option around them is for undefined behaviour
-- of C++: a walk out of a list, the use of a reference to something erased, the overflow of an integer.
-- The methods of the standard library that the code uses are modelled, strtoull and strtoll among them;
-- the clock, random draws, the sample of a purge and the addition of doubles are parameters (Env), and
-- so are strtod and the space for a vector (Platform), std::to_string of a double with the conversions of a
-- time (Doubles), and the bcrypt library (Bcrypt). A double is its 64-bit pattern.
-- An integer is checked against the range of int64_t where it is added to; sizes and counts are
-- natural numbers, as no list gets near 2 ^ 63 elements. The rounds of a shallow purge run on fuel, one
-- more than there are expiry times.
--
-- An extraction takes a position and gives a value and the next position, or ends with an exception and
-- the position where it was thrown, as a pipe goes on from there. A position behind the message would be
-- undefined behaviour and is a result of its own, like a recursion of pipes that is deeper than the fuel:
-- no fuel is enough for every message. Bytes are numbers, white space is that of the "C" locale.
--
-- A file is its bytes; a read past its end is a result of its own. A request on users leaves the logins,
-- the file of the users and the session of the client that asks.
--
-- The log is what one database has written to it, with the arguments as values. The serialized form of
-- log entries is not modelled, nor two databases under one log (a transfer between two is
-- modelled without the log), the table of 16 databases and what chooses from it, transactions (which do nothing yet), the
-- methods behind the requests other than those of a database and of users, the messages between peers,
-- publishing, the cluster, sockets and configuration. A write to the journal, which is flushed, and a rename or
-- removal of a file are taken as one step each.
pub mod Base
pub mod Std
pub mod Operations
pub mod Database
pub mod Locked
pub mod Journal
pub mod Serializer
pub mod Request
pub mod Response
pub mod Session
pub mod Auth
pub mod Servers
pub mod Examples
