-- ===== src/Lib.antt =====
-- newtmq-server, a STOMP message broker in C: the receiving side, the queues, the transactions, the
-- persistent worker and the restart, the frame handlers and the sending workers, each by itself and
-- all together as the server runs.
--
-- How the program works. A thread for each connection calls `recv_data` on what `recv` gives; it
-- cuts the bytes into lines, and each line changes the frame of the connection. A finished frame
-- goes to a bucket, from which the management worker takes it and calls the handler of its command:
-- SEND puts the frame into the books of the persistent worker and into the queue of its
-- destination, or into a transaction; SUBSCRIBE registers a client and starts a sending worker,
-- which takes frames from the queue and writes MESSAGE frames to the client's socket.
--
-- Files, and the code they are about (paths below src/):
--   Base          C strings, lists, integers and searches over the native numbers
--   Common        lib/common.c: gen_random, get_hash, mkdir_recursive
--   Frame         include/newt/frame.h, alloc_frame of lib/frame.c, and of lib/stomp.c: ssplit,
--                 frame_setname, stomp_setdata, frame_update, frame_finish
--   Connection    lib/connection.c: send_msg, is_socket_valid, and the accepting threads (Accepting); of
--                 lib/stomp.c: stomp_send_error, stomp_send_receipt, stomp_send_message
--   Control       lib/newtctl.c, lib/newtctl_commands.c
--   Logger        lib/logger.c
--   Receive       recv_data and get_frame_from_bucket of lib/stomp.c; in Receive/Worker the thread of
--                 a connection: conn_init, stomp_conn_worker, conn_finish, and (Serving)
--                 connection_co_worker of lib/connection.c
--   Parse         lib/frame.c: parse_frame, frame_update, frame_finish
--   Queue         lib/queue.c
--   Transaction   lib/transaction.c
--   Persistence   lib/persistent_worker.c, what runs after the start
--   Restart       lib/persistent_worker.c: unpersist and what it calls
--   Management    lib/stomp_management_worker.c: initialize_manager, subscribers and iterate_header
--   Sending       lib/stomp_sending_worker.c: registration and one turn of each worker; free_dest_group
--                 (Freeing)
--   Protocol      lib/stomp_proto_*.c (Send, Session, Tid), and handle_frame (Dispatch)
--   Signal        lib/signal.c, the handlers of lib/persistent_worker.c and of the bucket, and
--                 initialize_persistent_worker (Starting)
--   System        lib/daemon.c and the loop of lib/stomp_management_worker.c: the state in which the
--                 threads start, and the steps that they take in any order
--   Daemon        newtd.c, lib/daemon.c, and (Options) lib/config.c and lib/optparse.c: the start
-- Below each of these stand the modules of its proofs, and in Tests its runs on small inputs.
--
-- How state is modelled. A struct is a record and a function takes and returns the state it
-- changes; `Server` is the state that all handlers share. A list of the C code is a list in the
-- order of its links. A pointer that is only passed on is a value; a frame keeps the address that
-- `malloc` gave it. `malloc` does not fail. What sockets get is a log of the calls of `send`, each
-- of which takes all it is given. A byte string ends at the end of the list or at a byte 0. A write
-- past the end of an array is an outcome of its own (`corrupted`, `overflow`, `overrun`), and so
-- are a failing assertion and a lock that its holder takes again. Locks are not modelled otherwise:
-- each call is one step (the code lets its locks go inside some calls, see below), and each turn of a
-- worker is one step; which sockets are healthy is asked anew in each turn. SUBSCRIBE is one step, so the
-- thread that it starts runs when its client is in the list.
--
-- What is taken as an argument: the values of `rand`, which sockets are healthy, what the calls of
-- sockets return, which files can be opened and what they hold, the junk in fresh memory, what argp and
-- libconfuse find, and the functions that `transaction_callback` could point to, of which the server
-- has none.
--
-- Fuel. `recv_data` and the loop of `transaction_commit` do not always end, and run on fuel; what
-- they do on enough fuel is stated with the bound, the number of bytes and of frames, and where no
-- fuel is enough that is stated too. `stomp_setdata` and `parse_frame` run on the length of their
-- input, which is always enough. The loops of `unpersist_queue_context` run on the length of a chunk
-- and of the file; for files of whole messages these are enough.
--
-- Not modelled: what happens between two threads inside a call: `frame_finish` puts a frame in the bucket
-- before its size is counted to the end, a handler still reads a frame that it has put in a queue, and
-- `get_queue` lets its lock go before it adds a queue. A turn of the persistent worker that would use
-- a freed frame is no step (`persist_turn`); the other uses of a freed frame are not told apart. A declared
-- length or a size is a number that an `int` can hold. An interrupt while a connection is open, for
-- which `cleanup_worker` gets the address of a local variable, is not defined. Further: include/newt/list.h, a copy of the list header of the Linux kernel, whose pointers are
-- lists here; the release of single lines and of other memory. The operating system, argp, libconfuse and
-- msgpack are arguments, the last with what it promises as a hypothesis.
pub mod Base
pub mod Common
pub mod Frame
pub mod Connection
pub mod Control
pub mod Receive
pub mod Queue
pub mod Transaction
pub mod Parse
pub mod Persistence
pub mod Restart
pub mod Logger
pub mod Management
pub mod Sending
pub mod Protocol
pub mod Signal
pub mod System
pub mod Daemon
