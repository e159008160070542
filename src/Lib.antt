-- ===== src/Lib.antt =====
-- orbshred measures which of several sources delivers Solana shreds first.
--
-- Sources receive datagrams (raw UDP sockets, a packet capture, Jito and DoubleZero receivers) or
-- gRPC streams (Yellowstone), parse them and send events over bounded channels. The aggregator in
-- src/main.rs drops what lies outside the run's slot range and the leader's slots and records the rest
-- in the registry; after the run the statistics are computed from the registry and printed.
--
-- The files and the code they model:
-- - Prelude and its children: the library's names, Boolean tests, lists over the native numbers, bit
--   masks, sorting by value and by key, strings, signed integers and decimal digits.
-- - Exec: reads and slices of byte buffers; a read out of range panics.
-- - Shred: src/shred.rs, `shred_type` and `parse_shred_key`. Shred/Header is the layout that its
--   comment documents, as an encoder; Shred/Parse relates the two.
-- - Pcap: src/sources/pcap.rs, `ip_header_offset`, `extract_src_ip`, `extract_udp_payload`, each cut at
--   its early returns. Pcap/Route is `route_matches`, Pcap/Capture the part of `capture_loop` that
--   handles a frame; Pcap/Capture/Offers says what a frame is worth, Pcap/Capture/Ledger relates it to
--   what the loop sends and drops.
-- - Bpf: src/sources/bpf_filter.rs, the program of `build_bpf_filter` and the interpreter `run_cbpf`
--   of its tests. Bpf/Step and Bpf/Run evaluate the program, Bpf/Accepts says what it lets through.
--   Bpf/Frames is the frames that the tests build and edit, Bpf/Scenarios the tests, Bpf/Valid a check of
--   programs that cannot go wrong.
-- - DashMap: the maps of the `dashmap` crate, an interface with the documented behaviour of `get`,
--   of `entry(k).and_modify(f).or_insert(v)` and of `iter`, which association lists meet.
-- - Channel: the bounded channels of `tokio`, an interface with the documented behaviour of
--   `try_send` and `recv`.
-- - Pcap/Built: the frames of its tests, which the filter and the extractors take apart;
--   Pcap/Scenarios is the other frames and the routes of the tests.
-- - Pcap/Socket: the rest of `capture_loop`, from opening the socket to closing it: the set-up's ways
--   out, the receive calls and the descriptors that are open. Pcap/Socket/Closed is about both.
-- - KernelTs: src/sources/kernel_ts.rs, the clock conversion, `BatchRecv` and the timestamps in the
--   control messages. What the kernel writes on a receive is the record `Kernel`. KernelTs/Clock is
--   about the conversion, KernelTs/Batch about the slots, KernelTs/Single is the anchor and the receive
--   of one datagram.
-- - Receive: the receive loops that the sources share, batched or one datagram at a time, for any
--   treatment of a datagram; Receive/Handled and Receive/Sockets say what they hand on, Receive/Platform
--   what each system compiles to. Sender is `try_send` with its drop counter, Receive/Listener a
--   datagram's way into the channel, and the Ledger of each says what becomes of the events.
-- - RawUdp, DoubleZero: src/sources/raw_udp.rs and src/sources/doublezero.rs, the threads from their
--   set-up on; RawUdp/Accounts and DoubleZero/Packets say what becomes of the datagrams.
--   DoubleZero/InterfaceIp is how other systems find the interface's address in the output of `ip`, whose
--   texts are lists of character codes; its children Octets, Words and Shown relate it to what is printed.
-- - Jito: src/sources/jito.rs. `run` says which modes run; `udp_listener` is the thread of two of them,
--   `run_direct_mode` what the third starts. Jito/Auth is the tokens and heartbeats, Jito/Entries the
--   entry stream, Jito/Port the port of an address.
-- - Reconnect: the loop around a gRPC stream that connects again after an error.
-- - Table: src/output/table.rs, the numbers, rows and orders of `print_results`. Table/Numbers is about
--   the commas, Table/Ranked about the tables, Table/Banner is the box above them, and Table/Printout
--   everything that is printed.
-- - Yellowstone: src/sources/yellowstone.rs, what `connect_and_stream` does with each update.
--   Yellowstone/Entries is about the entry map, Yellowstone/Baseline about the overhead sample;
--   Yellowstone/Sessions adds the connections.
-- - Registry: src/registry.rs, all of its types and operations over such maps. `after` is the registry
--   after a history of calls, the newest call first. Registry/History, Registry/Slots and
--   Registry/Drops say what it then holds; Registry/Scenarios is the file's tests.
-- - Stats: src/stats.rs, `compute_stats`; Stats/Percentiles, `compute_percentiles` and `percentile`;
--   Stats/Slots is about the range of slots.
-- - Aggregator: src/main.rs, the run's bounds, the aggregator's `select!` loop, the silence monitor and
--   the delayed cancellation. A `System` is the registry, the shared flags, the monitor and whether the
--   aggregator still receives; `step` is one message, one second of the monitor, or one cancellation,
--   and `execute` runs any sequence of them, that is, any schedule of the tasks.
-- - Pipeline: the sources' sends, the three channels, the aggregator and the end of the run in
--   src/main.rs as one program. A `World` is the three lanes (a channel and what passed through it), the
--   drop counters and the `System`; a `Move` is what one task does between two suspensions and `schedule`
--   runs any sequence of moves. A channel refuses an event only when its receiver is gone or as many wait
--   as its capacity, which is the interface's. Pipeline/Conserved is about events and drop counters,
--   Pipeline/Recorded and Pipeline/Records about the registry, Pipeline/Drained about what the
--   aggregator takes in time, and Pipeline/Shutdown about what it leaves behind. Pipeline/Threads is
--   the threads of the shred sources, Pipeline/Sources relates them to moves, and Pipeline/Delivered
--   follows what they hear into the registry.
-- - Log: src/output/logfile.rs, the log entry of a shred; Log/Earliest is about its map by source.
--   Log/Write is `write_log`, whose calls can fail.
-- - Config and Setup: src/config.rs, and in src/main.rs `source_name` and the start of the sources.
--   Setup/Ids says what numbering the sources means, Setup/Distinct that each start keeps it,
--   Setup/Start that the sources that listen themselves do together. Setup/Captures groups the packet
--   captures by port and interface, Setup/Captures/Sockets says what a group's socket is opened with,
--   and Setup/Captures/Grouped is about all sources. Setup/Named says which ids each started source
--   reports under, and Setup/Named/Starts and Setup/Named/Reported are about the active ones.
-- - Leader: src/leader.rs, `fetch_leader_slots` for whatever the two requests to the RPC node bring;
--   Leader/Slots says what it returns; both operations on slot numbers wrap around at 2^64, as in a
--   release build. A set of slots or addresses is a list.
-- - Main: src/main.rs, what `main` does before and after the run. `prepare` ends in an error or in what
--   the run starts from, Main/Starts counts the sources started, Main/Choices says which bounds, timer
--   and log path a configuration asks for, and Main/Prepared how the preparation can end.
--   Main/Wait is the wait for the end and the stop. Main/Report puts `prepare`, a schedule of the
--   pipeline, `compute_stats`, `printout` and `write_log` together, Main/Charged is about the accounts
--   in the statistics, and Main/Faithful about the result.
-- - Examples: concrete inputs, runs and instances.
--
-- Numbers are natural numbers. Where the code computes in u64 or u8 the wrap-around is written out;
-- slots and ports are not bounded unless a theorem says so. An `Instant` is a number of nanoseconds
-- from the earliest instant, and sums of instants and durations are not bounded.
-- The rank of a percentile is computed in f64: the float type is a parameter with monotone operations
-- (`F64`). The sum of the samples wraps around, as a release build's does.
--
-- `run_cbpf` takes the program's length as fuel, which is enough since every jump goes forwards. The
-- digits of a number take the number plus one as fuel, which is more than they are.
-- All other recursion is structural.
--
-- Not modelled: system calls and threads, whose answers are inputs of the definitions; the gRPC clients,
-- cryptography and time parsing, which are parameters; pinning a thread to a CPU; the drawing of a
-- table; the parsing of arguments and of the configuration file; log messages. `ClockAnchor` beside
-- the registry's start time stands for the start time alone.
pub mod Main
pub mod Pipeline
pub mod Prelude
pub mod Exec
pub mod Shred
pub mod Pcap
pub mod Bpf
pub mod DashMap
pub mod Channel
pub mod Registry
pub mod Stats
pub mod Yellowstone
pub mod KernelTs
pub mod Sender
pub mod Reconnect
pub mod Table
pub mod Receive
pub mod RawUdp
pub mod DoubleZero
pub mod Jito
pub mod Leader
pub mod Log
pub mod Config
pub mod Setup
pub mod Aggregator
pub mod Examples
