-- ===== src/Lib.antt =====
-- Verification of the proxy: a program that joins the Ethernet segments of several hosts over TCP.
-- A proxy reads frames from its tap device and sends them to its peers; for each peer a thread
-- reads packets from the peer's connection and handles them. The membership list of peers is a hash
-- table that all the threads share under a readers-writers lock.
--
-- Prelude is what the other modules share. Rio models rio.c and rio.h: a `Kernel` holds the replies
-- that the system calls are going to give, in order, and a call that finds its list empty is
-- `blocked`, it has not returned. rio_readnb runs on `n + 1` rounds, which are enough because each
-- round but the last stores a byte; the other loops of rio.c recur on the list of replies. RwLock
-- models readBegin, readEnd, writeBegin and writeEnd of proxy.c as a step relation of threads that
-- interleave one statement at a time. Wire models the packed structures of proxy.h as bytes, on a
-- little-endian machine with 32-bit words. UtHash is the interface of uthash.h, a copy of a
-- library: a section parameter with the documented behaviour as laws, which UtHash.Lists meets.
-- Proxy holds the global state of proxy.h and proxy.c and the calls that functions make of it, with
-- one thread running at a time; a use of freed memory is `fault` and a wait for a lock that the
-- thread holds itself is `deadlock`. Proxy.Member models add_member and remove_member,
-- Proxy.Messages models Data, Leave and Quit of proxy.c and leave_handler and tap_handler of
-- handlers.c; Rio.Frames is about a device that gives one frame to each read. Proxy.Join models the
-- exchange of link states in initial_join_client, initial_join_server and connectbyaddr,
-- Proxy.Records models Link_State, Proxy.Probes the bandwidth probe, Proxy.Timeout the routine
-- timeout_handler on the list of what its waits return, Proxy.Ethernet a round of the loop of
-- eth_handler, and Proxy.Broadcast Link_State_Broadcast: the packet is the list of the bytes that
-- it writes, and to write more than the buffer has is a `fault`. Proxy.Startup models main of
-- main.c, and get_port, open_listenfd, allocate_tunnel, getMAC and connectbyname of proxy.c;
-- Proxy.Startup.Connections has what follows the configuration file. What the C library and the
-- system do there is the record `Library`, the configuration file is the list of the lines that
-- fgets gives, and the accept loop recurs on the list of what accept gives. Clock has the
-- differences of times that the handlers compute. Heap models the binary heap of route.c, with uses
-- of memory outside the array as `fault`; upheap runs on one round more than the position that it
-- starts from and downheap on one more than the size, which are enough because the position halves
-- or grows. Route models evaluate_record, remove_from_network and graph_free of route.c, on the
-- state of Proxy with the graph beside it; Route.Times reads the graph as a map from pairs of tap
-- addresses to times. Route.Search models shortest_path, bfs, their queue and
-- prepare_forwarding_table, and Route.Dijkstra the unfinished Dijkstra on the binary heap. The
-- values of pointers that are read before they are set are arguments; `Platform` has what the
-- compiler and utlist.h decide. The loops over the queue and the path run on fuel, for every number
-- of rounds.
--
-- Not modelled: the copies of uthash and utlist; Signal, which only calls sigaction, alarm and the
-- printed text; heap_free, since a heap is a value here, and the fields of its entries that
-- Dijkstra only writes. malloc never returns NULL. fcntl does not fail, so that rio_readinit does
-- not exit. A `float` is the term of the operations that compute it (`Float`), which C may round.
-- The words of a line of the configuration file that do not fit the arrays that sscanf copies them
-- to are a `fault`. In the time that the bandwidth probe measures, the numbers are not cut to 32
-- bits. A field of a packet's header of which a byte is missing is taken for 0, where the source
-- keeps what the variable held before.
pub mod Prelude
pub mod Rio
pub mod Route
pub mod RwLock
pub mod Wire
pub mod UtHash
pub mod Clock
pub mod Heap
pub mod Proxy
