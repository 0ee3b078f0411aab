-- ===== src/Lib.antt =====
-- gk, a library of Go packages. This development models its HTTP router, its in-process caches, its load
-- balancer, its retries, its capture files and its packet decoders, each package on its own: none of those
-- that are modelled calls another.
--
-- The router (ghttp/gserver). Gserver/Entry models the route entries and the splitting of paths of
-- matcher.go, Gserver/Radix the tree of radix.go with its insertion, Gserver/Radix/Find the backtracking
-- search, Gserver/Radix/Remove the removal. Gserver/PathCheck models CheckPathValid of util.go. Gserver/Method
-- models method_matcher.go: a map of static paths, a tree for all other routes and one tree for each number
-- of segments. Gserver/Server models the map from methods to matchers of matcher.go. A handler is a number.
-- A panic is an outcome, beside the errors that are returned. Each call of the source holds one lock from
-- start to end, so that the calls are sequential.
--
-- The caches (gcache). Gcache/Clock models lifetimes: a time is a number of nanoseconds, 0 is the zero time,
-- and the clock is an argument. Gcache/Timed models timed.go, and Gcache/Timed/Loop its goroutine beside the
-- callers, as a step relation. Gcache/Options models the options of cache.go and Gcache/Memory models
-- memory.go; Get, which takes its lock twice, is two definitions, so that other calls can come between. Gcache/Lru models lru.go on a heap: the map and the
-- linked list of container/list (Gcache/Linked) hold the numbers of shared elements; Gcache/Lfu
-- models lfu.go on two heaps, of elements and of entries. A nil dereference is `none`.
--
-- The load balancer (glb). Glb/Instances models the instances and the interface Strategy, as a record of a
-- state and a choice that promises nothing of the choice, Glb/RoundRobin, Glb/Weighted and Glb/LeastConnections
-- the strategies of strategy.go, and Glb/Balancer loadbalancer.go, which works with any strategy. That a
-- strategy chooses from its list is a hypothesis of its own, which is proved of the round robin and of the
-- random strategy. The discovery service is the caller's: its answers are arguments. The random generator is a
-- parameter with the range that it documents.
--
-- Retries (gretry/retry.go). Gretry/Options models the options and their setters, Gretry/Delay the delays with
-- the jitter, Gretry/Retry the loop of Do. Floats are a parameter. What the context and the retried function
-- do in a run is a record for each attempt, which may be any: every interleaving is a sequence of them. The
-- contexts of the language are a parameter that gives the run of each context.
--
-- Capture files (gnet/pcap, gnet/pcapng). Gnet/Bytes models byte orders, slices and io.ReadFull, and Gnet/Times
-- the times and durations of the language. A stream is the list of the bytes that were written to it or are
-- left to read. Gnet/Pcap models types.go and errors.go, Gnet/Pcap/Writer, Reader and Filter the files of
-- these names; the machine of the package bpf is a parameter, which may answer anything. Gnet/Pcapng models
-- blocks.go, Gnet/Pcapng/Options the options of blocks in writer.go and reader.go, Gnet/Pcapng/Writer the
-- options and the section header of writer.go and Gnet/Pcapng/Packets its interfaces and packets,
-- Gnet/Pcapng/Blocks the parsers of reader.go and Gnet/Pcapng/Reader its state and its loop; Gnet/Pcapng/Filter
-- models filter.go. The other files under them hold their theorems. The clock is an argument. A stream that fails otherwise than at its end is left out, and so are Close and the buffer, which
-- change no byte, and NewFileWriter, which opens a file.
--
-- Packet layers (gnet/layers). Gnet/Layers models base.go and the types of the layers, Gnet/Layers/Link
-- ethernet.go, Gnet/Layers/Network ipv4.go and ipv6.go, Gnet/Layers/Transport tcp.go, udp.go and icmp.go, and
-- Gnet/Layers/Headers the lengths of headers, and
-- Gnet/Layers/Decode decode.go, helpers.go and the table of decoders as the package fills it. The texts of
-- layers and the decoders of clients are left out.
--
-- The loops over a capture file take fuel above the number of bytes that are left, which is enough since each
-- turn takes bytes; an error of their own, or `none`, says that the fuel was short. The chain of layers takes
-- fuel for three.
--
-- The loop of Do tests its condition at each turn, and takes as fuel the number of turns after which the
-- condition fails; any more change nothing. All other loops are structural recursion: over the segments or
-- the list. The digits of an int64 take fuel above its value, which is enough since each digit divides
-- it by 10 (Common/Int64). An int64 wraps around where the source's does. Lengths, counters of calls and
-- indices are natural numbers.
--
-- Not modelled: the wrappers that only lock, the serializer of gcache, the servers behind
-- redis and valkey, and the packages that call other libraries, the network, the disk or the system: gcodec,
-- gcompress, gconfig, gcrypt, gerr, ghttp/codec, ghttp/gclient, the rest of ghttp/gserver, glog, the rest of gnet,
-- gotel, gresolver, grx, gsd, gsql, gws, cmd.
pub mod Common
pub mod Gserver
pub mod Gcache
pub mod Glb
pub mod Gretry
pub mod Gnet
