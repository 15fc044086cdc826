-- ===== src/Lib.antt =====
-- Verification library of the repository's C programs: what c/ibtest/ibv-rc.c, c/cl_qsort.c,
-- c/cl_rope, c/include/csnip_renum.h, c/reorder/reorder.c, c/cl_ca/audio.c, c/cl_daemonize.h,
-- c/testdaemon.c, c/cl_rdtsc_clock.c, c/cl_aio.c, c/ibtest/verb-probe.c, c/ibtest/cm-conn.c,
-- c/ibtest/ib-conn.c, kmod/ktoy/ktoy.c and kmod/ktoy/ktoy_test.c compute, and the theorems on
-- it. The parts share Base, verb-probe the world of ibv-rc, and ib-conn that of cm-conn.
--
-- Ibv: c/ibtest/ibv-rc.c, a test of an InfiniBand connection between a client and a server, of
-- which each run is one side.
--   Ibv/World: the structures config_t, cm_con_data_t and resources; the answers of the C library,
--     the sockets and libibverbs, one for each number of calls made before (Env); the state that a
--     run passes on (World), with the objects that are held, a flag for every use of an object that
--     is not held, a flag for every store past the end of an array, and a log of what is asked of
--     the hardware and the peer (Ibv/World/Data); and the commands that the code is written with
--     (Ibv/World/Command).
--   Ibv/Sock: sock_connect, sock_sync_data and poll_completion. Ibv/Sock/Descriptors: which sockets
--     stay open. Ibv/Sock/Receive: what is received. Ibv/Sock/Exchange: what is left alone.
--     Ibv/Sock/Poll: how polling ends. Ibv/Sock/Told: what is told meanwhile.
--     Ibv/Sock/Pair: both sides in their calls of sock_sync_data, as a step relation over what each
--     has written and read. Ibv/Sock/Pair/Sizes and Ibv/Sock/Pair/Exact: sums of sizes, and what a
--     side holds. Ibv/Sock/Pair/Barrier, Delivers, Progress, Overrun and Ends: what the calls do
--     together. Ibv/Sock/Pair/Calls and Returns: sock_sync_data itself among these steps.
--     Ibv/Sock/Pair/Tests: runs.
--   Ibv/Resources: resources_init, resources_create with its cleanup, and resources_destroy; the
--     gotos to the cleanup are go_on and finish. Ibv/Resources/Release, Ibv/Resources/Stages and
--     Ibv/Resources/Create: who holds what after them.
--   Ibv/Connect: modify_qp_to_init, modify_qp_to_rtr, modify_qp_to_rts, post_send, post_receive and
--     connect_qp, which is cut into query_my_gid, exchange and bring_up. Ibv/Connect/Keeps: what
--     it leaves as it is. Ibv/Connect/Data: the connection data on the wire. Ibv/Connect/Order
--     and Ibv/Connect/Handshake: the order of the moves and of what the peer is told.
--     Ibv/Connect/Peer: the exchange. Ibv/Connect/Returns: when it ends.
--   Ibv/Main: main, from the options that getopt_long finds to the exit status. or_exit is the
--     goto to main_exit. Ibv/Main/Arguments and Ibv/Main/Session: what its parts hold.
--     Ibv/Main/Lifecycle: what is held at its end. Ibv/Main/Together: the four calls of
--     sock_sync_data, by both sides. Ibv/Main/Steps and Ibv/Main/Trace: what a session tells and
--     asks for, in order. Ibv/Main/Returns: when it ends.
--   Ibv/Owned: the predicates on who holds what, and the rules for properties of a run (Post).
--   Ibv/Samples: libraries and worlds for tests.
--   Ibv/Tests: runs, and the theorems at concrete worlds. Ibv/Tests/Peer: those on the calls that
--     wait. Ibv/Tests/Both: those on the two sides together.
-- connect_qp and main call the functions of Ibv/Sock and Ibv/Resources on the one state that all
-- of them pass on.
--
-- Qsort: c/cl_qsort.c, uclibc_qsort over the bytes of memory, with its arithmetic on 64-bit
-- unsigned integers, and the two comparison functions that WRONG_CMP switches between.
--   Qsort/Bytes: the byte-wise exchange. Qsort/Reorder: what a sort may do to memory. Qsort/Order:
--     the contract of a comparison. Qsort/Sift, Qsort/Insert and Qsort/Pass: the loops.
--     Qsort/Sorts: the whole. Qsort/Tests: runs.
--   Qsort/Main: the table and main, with the C library's qsort and bsearch as parameters, for each
--     value of the two switches. Qsort/Main/Ascending: what it prints. Qsort/Main/Tests: a run.
--
-- Rope: c/cl_rope/rope.c and rope.h, on a store of nodes and texts; the union of the leaf flag and
-- the text's pointer is one word, of which the flag is the lowest byte. Rope/Holds: which tree of
-- texts a rope stands for. Rope/Tests: runs.
--
-- Renum: c/include/csnip_renum.h, the expansion of the macros as functions of the table of
-- entries. Renum/FromStr: what the function from a text returns. Renum/Tests: runs on ex_enum.
--
-- Reorder: c/reorder/reorder.c, one round of thread_routine1 and thread_routine2, from main's reset
-- of X and Y to the barrier at the end, as a step relation over the two threads and the store
-- buffers of their cores. Reorder/Fence: what main can detect in it. Reorder/Tests: runs.
--   Reorder/Program: all rounds of the two threads and main, with sync_thread, again as a step
--     relation; its counters wrap at 64 bits. Reorder/Program/Additions: how far they have come.
--     Reorder/Program/Barrier: the two phases of a round. Reorder/Program/Counts: what main counts.
--     Reorder/Program/Progress: what the threads wait for. Reorder/Program/Tests: runs.
--
-- Audio: c/cl_ca/audio.c, main up to CFRunLoopRun, AQTestBufferCallback and
-- AudioEnginePropertyListenerProc, and the run loop as the list of the calls that it makes.
-- Audio/Playing: what is enqueued. Audio/Closing: what is given back. Audio/Tests: runs.
--
-- Daemonize: c/cl_daemonize.h, as the list of the fates of all processes that the forks make.
-- Daemonize/Fates: what becomes of them. Daemonize/Program: c/testdaemon.c, in each of them.
-- Daemonize/Tests: runs.
--
-- Aio: c/cl_aio.c, main and the handler of its one request as a step relation, for a handler that
-- is a signal's and for one that has a thread. Aio/Ends: what has been done when main ends.
-- Aio/Tests: runs.
--
-- Probe: c/ibtest/verb-probe.c, in the world of Ibv. Probe/Released: what is held at each stage.
-- Probe/Tests: a run.
--
-- Conn: the servers c/ibtest/cm-conn.c and c/ibtest/ib-conn.c.
--   Conn/World: what the libraries answer, the objects that are held, the connections and the ids of
--     librdmacm (Conn/World/Data), and the commands.
--   Conn/Cm: cm-conn.c; event_loop is the loop of main over the events that come. Conn/Cm/Requests:
--     what becomes of a request. Conn/Cm/Polls: the polling thread.
--   Conn/Ib: ib-conn.c, with s_ctx passed along. Conn/Ib/Stages and Conn/Ib/OneContext: what is
--     held. Conn/Ib/Polls: the polling thread, whatever on_completion does.
--   Conn/Samples, Conn/Cm/Tests and Conn/Ib/Tests: runs.
--
-- Clock: c/cl_rdtsc_clock.c, with the counter's two registers and the clock's two fields. Clock/Rate:
-- what is measured. Clock/Tests: a run.
--
-- Ktoy: kmod/ktoy/ktoy.c and ktoy.h. ktoy_ioctl, over the memory of a user, which the kernel reads
-- and writes, and ktoy_init and ktoy_exit, over what is registered. Ktoy/Driver: what they promise.
-- Ktoy/Client: kmod/ktoy/ktoy_test.c over the C library, and Ktoy/Client/Latest: the client, the module
-- and its other users together. Ktoy/Tests: runs with a concrete kernel.
--
-- Base: numbers, the Boolean tests, lists over the native numbers, C's signed integers. Base/Lists:
-- what take and drop leave. Base/Bits: `|`.
--
-- Fuel. Each loop of uclibc_qsort is given one round more than there are elements: the gaps that are
-- tried, the elements of a pass and the places that one element moves down are no more than that.
-- print_rope's fuel bounds the depth of its calls. The loops that wait for a peer or for the
-- hardware, in sock_sync_data and poll_completion, take their fuel as an argument, and the theorems
-- on them say how much is needed: as many rounds as there are pieces to come, or until the clock
-- has gone on. Where neither is given, running out of fuel stands for waiting for ever.
--
-- Not modelled: what is printed, the result of listen, which the code does not test, the values
-- behind libibverbs' constants, the division in floating point of cl_rdtsc_clock, c/cl_fts.c,
-- which prints what fts_read returns, and the programs in other languages. One side of ibv-rc is
-- modelled at a time, the other being in the answers, but for the calls of sock_sync_data:
-- Ibv/Sock/Pair runs both sides in these, where no call of the sockets fails. cm-conn.c and
-- ib-conn.c do not compile as they stand; Conn/Cm and Conn/Ib say how they are read. What
-- ib-conn.c declares and does not define is a parameter.
pub mod Aio
pub mod Audio
pub mod Base
pub mod Clock
pub mod Conn
pub mod Daemonize
pub mod Ibv
pub mod Ktoy
pub mod Probe
pub mod Qsort
pub mod Renum
pub mod Reorder
pub mod Rope
