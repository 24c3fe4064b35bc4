-- ===== src/Lib.antt =====
-- A model of VPNP2P: nodes that keep a list of each other, tell each other about it, and punch holes
-- through their routers.
--
-- The parts, the files that model them, and how they interact:
--
-- * NodeInfo/node_info.c and node_info.h keep the list of nodes, each with a list of its addresses. It
--   is stored in a text file and sent as text. `NodeInfo/Heap` is the store of `struct IP` and
--   `struct Node` with the commands on it, where a bad pointer or an overrun is a fault and fresh
--   cells hold anything; `NodeInfo/Values` are the lists without pointers, and `NodeInfo/Chain` says
--   that a pointer holds a list. `NodeInfo/Print` has the writers `struct2file` and
--   `convert_node_to_buf`, `NodeInfo/Lines` has `split` and the lines of `fgets`, `NodeInfo/Parse` has
--   the readers `file2struct` and `convert_buf_to_node`, which share their proofs through the record
--   `LineReader`. `NodeInfo/RoundTrip` joins writers and readers. `NodeInfo/Merge` has `node_merge`
--   and the merge of lists that it refines, `NodeInfo/IpMerge` the same for `ip_list_merge` (`Spec` is
--   the merge and `Addresses` what it holds, `Walk` and `Apart` are lists of cells that share none,
--   `MeetsOne` and `Meets` are the inner loop, `Link` is the end of the first list, and `Own` the part of
--   the second that has been linked to it). `NodeInfo/Merge/Versions` has the latest
--   count of each node. `NodeInfo/Compare` has `node_is_identical`, `contain_node`,
--   `ip_list_length`, `contain_ip` and `ip_list_identical`. `CString` has `startsWith`, `strip`, and
--   the C library's `strcmp`, `atoi` and `%d`.
-- * NodeInfo/table.c is a hash table of pointers: `Table`, with the record `KeyLaws` of what it wants of
--   the caller's `cmp` and `hash`, the invariant in `Table/WellFormed`, and the operations' effect on
--   the map in `Table/Laws`, `Table/Sizes` and `Table/Array`; `Table/Free` is `Table_free`.
-- * Util/message.c and message.h carry messages: `Message`. The calls of `send` and `recv` are
--   parameters: which `send` succeeds, and what each `recv` is given.
-- * server.c receives a message, and answers it: `Server`. `Server/Register` is `handle_register`, which
--   parses, merges, writes and prints by the functions of NodeInfo/node_info.c, and `Server/Turn` is
--   one turn of `thread_receive_pack`, `Server/Loop` its turns in a row,
--   `Server/Arrivals` registrations among other messages and `Server/Order` in another order;
--   `Server/WidthTest` is its turn on a width test, `Server/Routes` is `handle_router_refresh` with
--   its calls of `router_refresh`, and `Server/CronThread` is a turn of `thread_cron_job`.
-- * CronJob/node_cron_job.c has `local_ip_refresh`, in `Cron`, and `router_refresh`, which connects
--   twice to each address of a node and puts what it measures into a table of NodeInfo/table.c, under
--   a pair of NodeInfo/node_pair.c: `Router` and `Pairs`. `Router/Measure` is one turn of its loop,
--   `Router/Laws` the table that it leaves, `Router/Served` what it meets at server.c.
-- * JoinTest/node_join.c registers with a server: `Join` has `register_node` with the files of
--   Util/message.c, and `judge_local_ip` with `ip_match` of Util/util.c; `Join/Cluster` has `join` and
--   `send_recheck_msg`, `Join/Serves` is one registration with a peer, `Join/Overread` how `join`
--   ends. `LocalIp` has `get_local_ip` of Util/util.c, from what the system reports; the
--   functions that call it are given its slots. `NodeInfo/Generate` has `generate_local_node`.
--   JoinTest/node_join_server.c is an earlier server: `JoinServer`, where `JoinServer/Session` is a
--   registration from both sides.
-- * InitTest/node_start.c writes the file of the first node: `Start`. main.c chooses between `start` and
--   `join`: `Command`.
-- * PunchTest/udp_client.c has four threads that share variables: `Punch` has one turn of each. In
--   `Punch/Steps` a step is one access of a thread to a shared variable, and the steps come in any
--   order; `Punch/Threads` is about them, `Punch/Turns` builds the turns from them, and
--   `Punch/Arguments` reads the arguments of `main`.
--   PunchTest/udp_server.c answers its packets: `PunchServer`.
--
-- `Prelude` has the shared names and lemmas, `Tests` runs the definitions and applies each theorem at
-- a concrete input.
--
-- Bounds and fuel. The loops along linked lists take fuel, since a list could be cyclic; each theorem
-- asks for more fuel than the lists have cells, and then proves that the result is there. The numbers
-- of the node lists are of type ℤ; the readers check that they fit an `int`. Counters of
-- table.c and PunchTest/udp_client.c wrap around as their types do, or are undefined where a signed
-- one would overflow. `malloc` and `fopen` for reading are taken to succeed where their results are
-- not tested.
--
-- What the machine has behind the ends of objects is a parameter of `router_refresh` and `Table_put`:
-- the bytes of a block that `malloc` returns, and those behind a literal. A struct that a block of code
-- declares exists until the block ends. Accesses of threads to shared variables take effect one after
-- the other; that C leaves such races undefined is not modelled. The `double` of a width is the quotient
-- before rounding.
--
-- Not modelled: printing, except where it reads what it may not; the set-up of sockets and threads;
-- `free`, except in `Table_free`; `print_node` of NodeInfo/node_info.c.
pub mod Prelude
pub mod CString
pub mod NodeInfo
pub mod Table
pub mod Message
pub mod Server
pub mod Join
pub mod LocalIp
pub mod JoinServer
pub mod Cron
pub mod Pairs
pub mod Router
pub mod Start
pub mod Command
pub mod Punch
pub mod PunchServer
pub mod Tests
