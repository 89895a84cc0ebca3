-- ===== src/Lib.antt =====
-- The laboratory exercises: fs/, a Unix-like file system in a file of the host; threads/, user
-- threads on one thread of the host; webserver/, a server with worker threads and a cache of files;
-- and warmup/, a sorted list of points and a table of words. They share no code.
--
-- Parts of fs/, from the bottom up. fs/bitmap.c keeps sets of bits; fs/block.c reads and writes whole
-- blocks of the device; fs/super.c allocates inode numbers and blocks in two bitmaps, which it
-- writes through to the device; fs/inode.c counts the blocks of an inode; fs/read_write.c maps the
-- blocks of an inode through direct, indirect and double indirect tables, and reads, writes and
-- frees its data; fs/dir.c keeps the entries of a directory in the data of its inode, and has the
-- commands on directories; fs/file.c has those on files.
--
-- threads/thread.c keeps the threads that may run in a list, and those that sleep in wait queues. A
-- saved context is the place in the code with the variables of the call, so a switch ends one action
-- and what the next thread does from its place is another.
--
-- webserver/server_thread.c has one thread that puts connections into a bounded buffer and workers
-- that take them out, and serve each from a cache of files that keeps the ones used last. To serve a
-- connection is to read a request with the buffered reads of webserver/common.c, to read the file,
-- and to send it, in webserver/request.c; webserver/client.c sends the requests and checks the
-- answers.
--
-- Files. Each module of Fs models the file of fs/ with its name, and its child modules prove.
--   Common         memory as functions, the outcome of a C function, int and long, bytes
--   Fs.Layout      the sizes of fs/testfs.h and fs/inode.h
--   Fs.Bitmap      fs/bitmap.c; Words, Bits, Alloc, Marks and Count prove
--   Fs.Block       fs/block.c; Laws proves
--   Fs.Super       fs/super.c; Image says when a file system is mounted and in step with its disk,
--                  Runs, Sync, Alloc and Free prove
--   Fs.Inode       fs/inode.h and parts of fs/inode.c; Blocks and Codec prove
--   Fs.ReadWrite   testfs_read_block of fs/read_write.c; Allocate, Data and Release model the rest
--                  of that file, Map, Contents and Dangling prove
--   Fs.Mount       making, opening and closing a file system of fs/super.c, the start of
--                  fs/mktestfs.c and the hash of fs/inode.c at its start and end; Laws, Close and
--                  Format prove
--   Fs.Cache       the inodes in memory of fs/inode.c, at addresses; Store, Get and Put prove
--   Fs.Dir         the entries of directories of fs/dir.c; Entries and Lookup prove
--   Fs.Folder      what fs/dir.c does with a directory and a second inode; Commands models its
--                  commands, NotDirectory proves
--   Fs.File        fs/file.c and fs/common.c; Steps and Reads prove
--   Threads        the lists, ids, creation and wakeup of threads/thread.c; Chains, Wait and Create
--                  prove
--   Threads.Switch, Threads.Calls   thread_yield, thread_exit and thread_sleep of that file; Yield,
--                  Resume and Flagged prove
--   Threads.Lock   the locks and condition variables of that file as a step relation; Moves and
--                  Exclusion prove
--   Webserver.Buffer   the buffer of webserver/server_thread.c and its threads as a step relation;
--                  Ring, Invariant, Steps and Safety prove
--   Webserver.Cache    the cache of that file and do_server_request; Order, Room, Insert, Serve and
--                  Collision prove
--   Webserver.Rio  the reads and writes of webserver/common.c; Lines and Whole prove
--   Webserver.Text   the string functions that webserver/request.c calls
--   Webserver.Request   requests and error responses of webserver/request.c, and in Files the reading
--                  and sending of files; Headers, Responses, Refused and Served prove
--   Webserver.Client   client_send of webserver/client.c, and in Print client_print; Asks, Numbers,
--                  Answers, Header and Checks prove
--   Warmup.Points  warmup/sorted_points.c and warmup/point.c; Order, Sorted, Remove and Distinct prove
--   Warmup.WordCount   warmup/wc.c; Words says what a word is, Loop, Table and Counts prove
--   Fs.Tests, Threads.Tests, Webserver.Tests, Warmup.Tests   concrete values
--
-- A function of the source is a definition with its name. State is passed explicitly: an Action
-- takes a state and gives an Outcome, which is ok or err with a state (an int at least 0, and a
-- negative one), a failed assert (abort), the EXIT macro (exited), or an access outside an object
-- (fault). A pointer argument that is filled is part of the result. Loops are structural on the
-- number of rounds; the loops over the data of a file run on fuel, size / BLOCK_SIZE + 1 rounds,
-- which is one for each block that they touch, and end in fault without it. A walk along a list of
-- threads runs on one round for each address that malloc has given. The calls of read(2) and write(2)
-- on a descriptor are a list of results, on which the loops of webserver/common.c are structural; the
-- loops over lines count their rounds and give no outcome where these do not suffice, as the listing
-- of a directory ends in fault without fuel.
--
-- Not modelled: pwd and the command line of fs/; the signals that preempt the threads of threads/;
-- the sockets of webserver/, the threads and file sets of its client, and its random numbers, which
-- are doubles. stdio is taken to work on the device except past its end, sigprocmask not to fail,
-- and malloc to succeed in fs/dir.c, webserver/ and warmup/; strtoll, strtoull, stat and open are
-- parameters. pthread_mutex_lock and the condition variables of pthread are steps that the lock
-- admits, with wakeups that no signal caused; a worker may return from do_server_request at any
-- time or never. The doubles of the points and sqrt are parameters, whose order is a hypothesis
-- that holds without NaN.
pub mod Common
pub mod Fs
pub mod Threads
pub mod Webserver
pub mod Warmup
