-- ===== src/Lib.antt =====
-- The echo servers of this repository, their load generator, and the drivers beside them.
--
-- Each server announces a message size to a new connection (four bytes, most significant first),
-- reads a greeting of two bytes, and from then on sends every message of that size back. The
-- servers differ in how they wait: simple.c gives each connection a thread, io_uring_sharded.c
-- drives all connections of a thread from the completions of a ring, uring.c has a ring for each
-- connection, and the epoll servers wait for readable descriptors. client.c is the other end:
-- threads that send messages, wait for each to come back, and report their rates. multiclient.c is
-- the same for several machines, which meet in a Redis server. i10e.c and x710.c
-- are drivers for two network cards, which share a region of memory with the card.
--
-- Which file models what:
--   Prelude  numbers, lists, Boolean tests and C's signed integers, shared by all.
--   Posix    the system calls, as a parameter: `Os` is a record of functions on a world that the
--            model does not look into. A command is a function from the world to a `Run`: a normal
--            end, an `exit`, or undefined behaviour. Posix/Laws has what POSIX documents of `send`
--            and `recv` on a stream socket, Posix/Listening of the calls that make a listening
--            socket and start threads; Posix/Loopback is a machine on which all of it holds.
--   Simple   simple.c: `greet`, `echo_round` and `echo_loop` are the parts of handle_conn,
--            `open_listener` and `accept_loop` those of start_server. The handlers take a size
--            that is not negative, start_server any int.
--   Sharded  io_uring_sharded.c: add_accept, and main_loop with the three branches of its loop
--            (`on_accepted`, `on_header`, `on_msg`). liburing is a parameter (Sharded/Liburing).
--            The kernel is a relation: it completes operations in flight, in any order and with
--            any result (Sharded/System), or heeds the links between them (Sharded/Linked).
--            Sharded/Server is its start_server.
--   Epoll    epoll_single.c: main_loop with the two kinds of events (`on_connection`,
--            `on_readable`), handle_new_conn, set_nonblocking and start_server, over epoll as a
--            parameter (Epoll/Epolling). EpollSharded is epoll_sharded.c, whose functions
--            before main have the text of epoll_single.c.
--   Ringed   uring.c: its handler, which makes each call of the loop through a ring; that is a
--            parameter too (Ringed/Operations).
--   Paired   uring2.c: its handler, which queues the reply and the next read together on the ring of
--            the connection. What it calls of liburing is a parameter (Paired/Rings).
--   Dma      vaddr_to_iovaddr, iovaddr_to_vaddr, u64_high, u64_low and dma_alloc_aligned, which
--            i10e.c and x710.c both have, with their DMA_IOVA_OFFSET as a parameter.
--   I10e     i10e.c: the set-up of the receive ring, rq_poll_once and get_link_speed; I10e/Init has
--            init_i10e in its parts, I10e/Send send_one and main (I10e/Sending its wait), and I10e/Setup init_vfio.
--   Device   the registers and the memory of a card as its driver accesses them: a log of all
--            accesses, in order, and a card that answers each read by what came before. Its
--            bar0_read and bar0_write are those of both drivers.
--   X710     x710.c: adminq_init, adminq_check_rq, in X710/Command adminq_get_ver and one_recv, and in
--            X710/Setup init.
--   Vfio     what init_vfio of i10e.c and init of x710.c call of VFIO, as a parameter, and the parts
--            that the two functions share.
--   Client   client.c: one_operation, the handshake of client with the server, and the aggregation
--            at the end of bench. Client/Thread is the whole of client, from getaddrinfo to its
--            report, with the addresses, the semaphores and the clock as a parameter.
--            Client/MainThread is main and bench, by their calls; Client/Session is a
--            thread's run on a connection while no signal comes.
--   EndToEnd a session of client.c and handle_conn of simple.c on the two ends of a connection.
--   Bench    bench of client.c: the main thread, its threads and the four semaphores, as a relation
--            between states in which the threads take their steps in any order.
--   Redis    what multiclient.c and dsync.c call of hiredis, as a parameter; Redis/Laws has what the
--            manual of Redis documents of the commands.
--   Dsync    dsync.c: dcounter_incr and dflag_wait.
--   Multiclient  multiclient.c: bench of a process, try_claim_spot, load_bench_params, put_report and
--            the start of a thread. Multiclient/Reports has all processes together, from their
--            reports on, and get_throughput of driver.py.
--   SetupRedis  setup-redis.c, an earlier client of this kind: load_bench_params, dsem_post, dsem_wait,
--            bench and main. The names that the file does not declare are those of multiclient.c.
--   Pi       go/pi.c: custom_pow and the sum of oneThread, over the arithmetic of `long double`, which
--            is a parameter; in Pi/Threads bench and main.
--
-- Bounds. The loops of the servers do not end, so their definitions take the number `k` of rounds
-- that they run, and the theorems hold for every `k`; the ring's loop takes the list of what the
-- ring gives. The poll of i10e.c takes fuel; 128 rounds are enough for a head register below 128.
-- The waits for a card take a number of rounds, and say whether they have ended by then, and so do
-- the loop over the capabilities of the IOMMU and the waits for a flag in Redis. The loop of
-- custom_pow takes 64 rounds at most, since its counter has 64 bits.
-- Machine integers keep their wrap-around. The machine is little-endian, as the x86 of the drivers.
--
-- Not modelled: what the programs print; the steps of the threads of different connections beside
-- each other, which share nothing but a variable that is set before they start; the programs in Go, and the scripts.
pub mod Prelude
pub mod Posix
pub mod Simple
pub mod Epoll
pub mod EpollSharded
pub mod Ringed
pub mod Paired
pub mod Sharded
pub mod Dma
pub mod I10e
pub mod Device
pub mod Vfio
pub mod Pi
pub mod SetupRedis
pub mod X710
pub mod Client
pub mod Bench
pub mod Redis
pub mod Dsync
pub mod Multiclient
pub mod EndToEnd
