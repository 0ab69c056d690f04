-- ===== src/Lib.antt =====
-- Verification of three programs of this repository: the file system testfs (fs), the user-level
-- thread library (threads) and the multi-threaded web server (webserver).
--
-- fs. Fs/Bitmap.antt models fs/bitmap.c: `create`, `alloc`, `mark`, `unmark`, `isset` and
-- `nr_allocated` are the functions bitmap_*, over bytes given as a function of their index.
-- Fs/State.antt has the state of the program: the device, the super block, both freemaps and the
-- inodes in memory; an operation takes the state and returns a result and the new state, or `none`
-- where the program aborts (a failed assert, EXIT, an access through a dangling pointer).
-- Fs/Layout.antt has the sizes of fs/testfs.h and the bytes of a buffer read as C numbers.
-- Fs/Block.antt models fs/block.c. Fs/Super.antt and Fs/Super/Mount.antt model fs/super.c and the
-- formatting of fs/mktestfs.c: a function testfs_f is `f` here. Fs/Inode.antt models fs/inode.c
-- with Fs/Create.antt for creating and removing inodes, Fs/Inode/Saved.antt has the inodes on the
-- device and Fs/Words.antt the words of a struct in a buffer, Fs/Inode/Cached.antt the invariant of
-- the inodes in memory and their table, and its siblings References.antt, Release.antt and
-- Counting.antt the references to them. Fs/ReadWrite.antt models
-- fs/read_write.c: `read_block`, `allocate_block`, `read_data`, `write_data` and `free_blocks`.
-- Its two loops run on fuel that is a little more than the number of blocks that the size spans,
-- and every round but the first handles a whole block. Fs/ReadWrite/Physical.antt has the
-- independent map from a file's blocks to the device, Fs/ReadWrite/Read.antt the bytes of a file,
-- Fs/ReadWrite/Kept.antt and Overwrite.antt writing to blocks that exist, and ReadBack.antt
-- reading what was written. Fs/Dirent.antt models the entries of fs/dir.c, whose loops have a
-- round for every 8 bytes of a directory (an entry takes at least 9), Fs/Dir.antt its commands,
-- where what a command prints is part of its result, and Fs/File.antt fs/file.c and fs/common.c,
-- with strtoll and strtoull as parameters. The recursions of testfs_ls and testfs_pwd run on fuel
-- that the caller gives, since a damaged file system can have a cycle. Fs/Dirent/Entries.antt has
-- the list of entries that the bytes of a directory stand for, and its siblings Lookup.antt,
-- Add.antt and Remove.antt the walks over it, a new entry and the end of one.
-- Fs/Testfs.antt is the program of fs/testfs.c: its table of commands, `parse_command` and the main loop over the lines of the input, with strtok_r
-- as a parameter; Fs/Testfs/Parse.antt is about the array of arguments. Fs/Mktestfs.antt is the
-- main function of fs/mktestfs.c.
--
-- threads. Threads/State.antt has the globals and structs of threads/thread.c, with the structs
-- named by addresses, Threads/Queue.antt the queues and thread_wakeup, Threads/Scheduler.antt
-- creating, yielding, exiting, killing and sleeping, and Threads/Sync.antt waiting, locks and
-- condition variables; the functions keep their names. A call that sets another thread's context
-- is `switched` to it, and `resume` is what a thread does when its own context is set. The
-- interrupt mask of threads/interrupt.c is part of the state, and Threads/Interrupt.antt has its
-- handler, which preempts a thread. What malloc gives, and what a field
-- holds that is not assigned, are arguments of `thread_init`, `thread_create` and `lock_create`; a
-- thread has no wait queue if the head of it does not hold zeros. The other calls of malloc succeed.
-- Threads/Scheduled.antt has the invariant of the scheduler, Threads/Switched.antt, Calls.antt,
-- Sleeping.antt, Choosing.antt, Waking.antt, Creating.antt, LockCalls.antt and WaitCalls.antt what
-- the calls do to it, Threads/Begun.antt the state that they start from, and Threads/History.antt
-- their histories, without exit and kill.
--
-- webserver. Webserver/Server.antt models the bounded buffer of webserver/server_thread.c with its
-- mutex and condition variables: each critical section of `worker` and `server_request` is one
-- step, and a history is any sequence of steps, spurious wake-ups and the exit.
-- Webserver/Cache.antt models the file cache of the same source: a walk of linear probing has a
-- round for each slot, after which the C loop would go round for ever; `request_begin`,
-- `request_insert` and `request_end` are the parts of do_server_request under `cache_lock`.
-- Webserver/Serving.antt is do_server_request as the phases of a request, and the requests of all
-- workers over one cache; its child modules are about what the steps leave in the cache.
-- Webserver/Rio.antt models the reading of lines and `rio_write` in webserver/common.c over the
-- system calls read and write, parameters that a descriptor's state is passed through, on fuel for
-- the calls that signals interrupt, and in `rio_write` for those that take a part of the bytes; Rio/Readline.antt compares it with the lines of the bytes that the descriptor delivers,
-- and Rio/Write.antt is about what a descriptor gets.
-- Webserver/Request.antt models webserver/request.c, with stat, the contents of files, sscanf and
-- strcasecmp as parameters, and its headers on fuel, since the loop need not end;
-- Webserver/Client.antt models `client_send` of webserver/client.c, and the loop that reads the body
-- of a response; Webserver/Client/Send.antt is about the server that reads what the client sends.
--
-- Not modelled: the text of the web server's responses; sockets, signals, timers, and
-- the options on command lines; the earlier copy of the thread library in threads/os-101.
mod Prelude
pub mod Fs
pub mod Threads
pub mod Webserver
