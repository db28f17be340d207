-- ===== src/Lib.antt =====
-- The test programs of dpdk-perf: an echo client and server on the VPP session layer (udp-echo), a
-- server for VPP's VCL test client (vcl-test-server), a graph node (node-test), a process node
-- (process-test), an echo server on OFP (fp-sock), a kernel module for performance counters
-- (armv7l-pmu), and the throughput counters that the programs share (status.h).
--
-- Files and the code they model (paths from the repository's root):
--   Common           names of the libraries passed on, Boolean tests, lists over the native numbers,
--                    signed integers, bit operations.
--   UdpEcho/Ip6      src/udp-echo/main.c, unformat_ip6_address: `scan` is its while loop, `accept` the
--                    body, `expand` the two loops that open "::", `result` the end. Ip6/Reader is an
--                    independent reader that keeps the quads in lists; Ip6/Groups writes addresses.
--   UdpEcho/Session  src/udp-echo/main.c, handle_mq_event and its four handlers. EchoMain is
--                    udp_echo_main_t. The pool and the hash of vppinfra are the interfaces of
--                    UdpEcho/Vpp, records of operations and of the laws that their documentation
--                    gives; UdpEcho/Data has an implementation of both.
--   UdpEcho/Send     src/udp-echo/main.c, send_test_chunk and the loop of client_send_data. What
--                    app_send and svm_fifo_max_enqueue answer is an argument of each round.
--   UdpEcho/Control  src/udp-echo/main.c, the binary API replies that change the state, with
--                    the table of segments, and wait_for_state_change over the states that it reads.
--   UdpEcho/Client   src/udp-echo/main.c, client_test, which hands events to UdpEcho/Session until it has
--                    a session, and sends on it by the loop of UdpEcho/Send.
--   UdpEcho/Server   src/udp-echo/main.c, udp_server_test and server_handle_event_queue, which hands
--                    each event to UdpEcho/Session or UdpEcho/Echo.
--   UdpEcho/Options  src/udp-echo/main.c, the command line in main.
--   UdpEcho/Main     src/udp-echo/main.c, main with connect_to_vpp, unformat_uri and unformat_ip4_address: it
--                    reads the options by UdpEcho/Options, sets up the state and runs UdpEcho/Client or
--                    UdpEcho/Server.
--   UdpEcho/Echo     src/udp-echo/main.c, server_handle_fifo_event_rx: `reflect` is its inner
--                    loop, `rounds` the outer one. Each round has the answers of the FIFOs as arguments.
--   UdpEcho/CutThrough src/udp-echo/main.c, cut_through_thread_fn, with the same steps of sending as
--                    UdpEcho/Echo.
--   VclServer/Pool   src/vcl-test-server/main.c, the pool of connections of a worker.
--   VclServer/Server src/vcl-test-server/main.c, configuration messages and new clients.
--   VclServer/Loop   src/vcl-test-server/main.c, one epoll event of vts_worker_loop. It uses the pool
--                    through vts_new_client and the messages through vts_handle_cfg.
--   VclServer/Worker src/vcl-test-server/main.c, vts_worker_init (Worker/Start) and vts_worker_loop from
--                    one epoll_wait to the next: the events of a wait go through VclServer/Loop one
--                    after the other, but for the datagrams of UDP. Worker/Sessions says which places of the pool have a session,
--                    Worker/Lost which are in use without one.
--   VclServer/Udp    src/vcl-test-server/main.c, the counters of the UDP branch of vts_worker_loop; what the
--                    branch leaves of the worker is in VclServer/Worker.
--   VclServer/Options src/vcl-test-server/main.c, vcl_test_server_process_opts.
--   VclServer/Threads src/vcl-test-server/main.c, main and its threads as a step relation: a state has
--                    the place that each thread has come to and the two counters that they share.
--                    Threads/Atomic and Threads/Ending are about runs in which no two threads change
--                    one counter at once.
--   Status           src/status.h, record and the unit of a printed rate. A program calls RECORD once
--                    for each read.
--   NodeTest         src/node-test/src/node.c, aaa_qs_inline.
--   ProcessTest      src/process-test/src/node.c, example_process.
--   Pmu              src/armv7l-pmu/main.c, the kernel module that opens the performance counters. They
--                    are an interface.
--   FpSock/Startup   src/fp-sock/main.c, main.
--   FpSock/Options   src/fp-sock/utils.c, parse_args, which main calls first, and setup_exit.
--   FpSock/Udp       src/fp-sock/udp-server.c, udp_main, which main starts as a thread, and notify,
--                    which OFP calls for each event of the socket. The packets of ODP are an interface.
--   FpSock/Datagrams src/fp-sock/udp-server.c, send_data and recvfrom_udp.
--   FpSock/Hook      src/fp-sock/hook.c.
--   FpSock/Perf      src/fp-sock/utils.c, start_performance and its thread.
--   FpSock/Tcp       src/fp-sock/tcp-server.c, tcp_main, with a list of clients.
--   FpSock/Sockets   src/fp-sock/envs.h, the addresses of both servers.
--
-- Bounds and fuel: the loops recurse on their input, on the number of rounds left or on the list of
-- the library's answers, so none has fuel of its own. The loops of the client, of the server's echo
-- and of the cut-through thread give `none` when the answers end before they do; with as many
-- answers as bytes to send they do not, as long as each takes a byte. 64-bit counters wrap around
-- as written in the code; 32-bit handles and counts too.
--
-- The clocks, the answers of getopt and the interleaving of threads are arguments or steps without any
-- assumption on their order.
--
-- Not modelled: the calls of VPP, VCL, ODP, OFP and DPDK themselves (arguments or parameters); log
-- and screen output, but for the rates and packets that a result is about; code under `#if 0`; the
-- test programs under src/vpp-test and src/armv7l-pmu/test, which exercise libraries or registers;
-- src/node-test/src/cli.c, which registers a command that prints; shell scripts and configuration files.
pub mod Common
pub mod FpSock
pub mod NodeTest
pub mod Pmu
pub mod ProcessTest
pub mod Status
pub mod UdpEcho
pub mod VclServer
