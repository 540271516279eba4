-- ===== src/Lib.antt =====
-- Niulang carries TCP connections and UDP associations over several QUIC or TLS lanes. Its transport
-- is written in Go; this development models the part of it on which the order, the identity and the
-- memory of the carried bytes rest, and proves what that part promises.
--
-- The parts and how they interact:
--
-- * Wire frames, internal/protocol/frame.go, modelled by Protocol and the files under it. A frame is
--   a header of 46 bytes and a payload. `encode`, `decode_header` and `validate` are Header.Encode,
--   DecodeHeader and Header.Validate; `encode_ack_ranges` and `decode_ack_ranges` the report of what
--   a receiver holds out of order; `append_frame`, `parse_frame`, `parse_frame_owned`, `read_frame`
--   and `write_frame` whole frames. A byte string is a list of numbers, the big-endian integers of
--   encoding/binary are `put_be` and `get_be` of Prelude.Bytes, and the error messages are the
--   constructors of `Error`. An io.Reader is the list of bytes that it will still yield, an io.Writer
--   the list of the answers that its next calls will give; a writer whose list ends is blocked.
-- * Memory budget, internal/memlimit/budget.go, modelled by MemLimit and the files under it. One
--   budget bounds the bytes that all flows of a process retain. `acquire_round` is a pass of
--   Acquire's loop under the lock and `acquire_woken` what follows its select; MemLimit.Flows puts any
--   number of flows into interleaving steps of Acquire, TryAcquire and Release. A channel is the
--   number of channels closed before it: closing it adds one to `changed`.
-- * Segment reassembly, internal/multipath/reassembly.go, modelled by Multipath and the files under
--   it. The receiver of a striped flow puts segments that arrived on different lanes in order; what
--   it buffers is charged to the memory budget, by `try_acquire` and `release` of MemLimit, of which
--   it knows what MemLimit.Laws states. `insert` is Insert and InsertOwned, `consume_contiguous` the
--   two loops that hand out a contiguous chain, `close` Close; `Follows` of Insert.Follows says
--   apart from the loops what the buffer continues from a sequence on. A Go map is the list of its
--   segments by ascending key, and the slice `order` is kept beside it as in the source.
-- * Acknowledgement tracker, internal/pep/acktrack.go, modelled by Pep.AckTracker and the files under
--   it. The sender of a striped flow keeps what the peer acknowledged: a cumulative sequence, and
--   the ranges of a frame's ACK report (Range of Protocol.AckRanges) above it. Each method is a function
--   from a tracker to the next one; `wait` and `wait_change` are one pass of a waiting method, and
--   what it does when its condition does not hold yet.
-- * Report of received ranges, internal/pep/mpflow.go, modelled by Pep.ReceivedRanges and the files
--   under it: publishReceivedRanges, takeReceivedRanges and what writeACK puts into an
--   acknowledgement of them. Here the reassembler and the wire frames meet.
-- * Bandwidth filter, internal/congestion/bbr_tuic_minmax.go, modelled by Congestion.MinMax and the
--   files under it: the three-sample maximum over rounds and wall time on which a lane's bandwidth
--   estimate rests. The clock of quic-go is the parameter `Clock`, of which nothing is assumed.
-- * Traffic classifier, internal/classifier/classifier.go, modelled by Classifier and the files under
--   it: which scheduling class a flow gets from what is observed of it. The comparison of float64
--   rates is the parameter `Rates`, of which nothing is assumed.
-- * Session payloads, internal/session (open.go, packet.go, session.go), modelled by Session and the
--   files under it: the destinations of flows in Session.Destination, the UDP packets that name one
--   and the reset payloads in Session.Packets, and in Session itself the payloads that open and grant
--   a UDP association whose relay may be reclaimed. NewSessionID reads random bytes and is left out.
-- * SOCKS5, internal/socks5/socks5.go, modelled by Socks5 and the files under it: Socks5.Requests is
--   ReadRequest with negotiateMethod, authenticate and readHost, Socks5.Datagrams is ReadUDPDatagram and
--   WriteUDPDatagram with readHostBytes and encodeHost. A connection is the `Conn` of Net.Io: the bytes
--   that it will still deliver, the answers of its next calls of Write, and what it was sent. Code that
--   uses it is a function from a connection to a result and the next connection.
-- * Flow scheduler, internal/pep/flowscheduler.go, modelled by Pep.FlowScheduler and the files under it:
--   which flow's send is handed to a path next. `request`, `release`, `cancel` and `close_flow` are the
--   methods of flowScheduler, `dispatch` is dispatchLocked and `take_eligible` takeEligibleLocked. Grants
--   and flow states are shared by pointers, which are numbers into two heaps. The set of schedulers, one
--   for each path, and its waits on channels are not modelled. `turns` of FlowScheduler.Turns logs,
--   beside the rounds of dispatchLocked, from which queue each grant came and what waited then, and
--   FlowScheduler.History carries the log through any calls.
-- * Record limiter, internal/pep/recordlimiter.go, modelled by Pep.RecordLimiter and the files under
--   it: which events of a storm get a record in the log, and how many each record stands for.
-- * Erasure code arithmetic, internal/fec/gf.go, modelled by Fec and the files under it: the tables that
--   init fills, `inv`, and `mul_slice_xor` for mulSliceXor. The window that codes packets with it is not
--   modelled.
--
-- Net and the files under it hold what the Go standard library does for the text of addresses
-- (JoinHostPort, SplitHostPort, Itoa, Atoi, TrimSpace) and for reading and writing (io.ReadFull). The text
-- of an IP address, net.IP.String and net.ParseIP, is the parameter `Addresses`; of ParseIP it is assumed,
-- where a theorem says so, that it returns sixteen bytes.
--
-- Prelude and the files under it hold the Boolean tests and lists over the native numbers, bytes, and
-- results with errors. Each part has its concrete runs in a file Examples.
--
-- Bounds and fuel. Go's uint64 arithmetic is written with its wrap-around (`% 2 ^ 64`) wherever it can
-- be reached; the reassembler's limits are assumed to fit a Go int. The loop of compactLocked runs on
-- as many rounds as there are ranges and one, of which each but the last removes a range. The loops of
-- consumeContiguous run on as many rounds as there are buffered segments and one, since each round
-- but the first takes one out; running out would be the error `out_of_fuel`. The loop of dispatchLocked
-- runs on one round for each grant that may still become active, since each round but the last makes one
-- active. The counters of the scheduler are natural numbers, where subtraction stops at zero.
-- TrimSpace runs on as many rounds as there are bytes, Itoa on the twenty
-- digits that are more than any Go int has, and Atoi refuses what a 64-bit int cannot hold.
--
-- What is not modelled: the lanes themselves (QUIC, TLS, HTTP/3 and sockets), timers, contexts but for
-- whether one has ended, the congestion controllers above that filter, the window of the erasure code and its transport, the pacing of
-- senders, identities and their files, metrics, and the commands. Locks are taken for
-- granted: an operation under one is a single step. The wrap-around of counters that only name channels is left out.
pub mod Classifier
pub mod Congestion
pub mod Fec
pub mod MemLimit
pub mod Multipath
pub mod Net
pub mod Pep
pub mod Prelude
pub mod Protocol
pub mod Session
pub mod Socks5
