-- ===== src/Lib.antt =====
-- irtt, a client and a server that measure round-trip times over UDP. The client opens a connection
-- with a packet that has the parameters of the test in it; the server limits them, stores the connection
-- under a token, and answers with what it granted; the client checks that answer. Then the client sends
-- numbered packets, which the server echoes with its timestamps and what it has received, and the client
-- records each round trip.
--
-- The files and the code that they model:
--   Prelude.*    numbers, lists, parts of arrays (Slice), int64 and uint64 (Word), bits, Go's maps (Dict),
--                float64 (Float)
--   Code         error.go, the codes of errors and events
--   Fbuf.*       fbuf.go, the byte buffer with fields. Layout has the invariant, Sets is about setFields
--                and addFields, Resize, Frame and Write about set and get, Removal about remove
--   Time.*       time.go, times, clocks and the settings for timestamps
--   Params.*     params.go, the parameters and their encoding; Params.Varint is what it uses of Go's
--                encoding/binary
--   Net.*        udpAddrsEqual of net.go and bytesEqual of bytes.go; Version is IPVersion of net.go and DF of df.go
--   Packet.*     packet.go: Format has the flags and fields, Auth is validate, readReset and updateHMAC,
--                Stamps has the timestamps and received statistics, Numbers is about the header's numbers
--   Config       the constants of defaults.go and version.go, and the configurations of sconfig.go and
--                cconfig.go
--   Glob         glob.go
--   Negotiate.*  restrictParams of sconn.go, checkParameters of client.go, validate of cconfig.go
--   Conn.*       conn.go: send and receive of lconn and cconn, setDSCP, and the packet of cconn.close. Opening is
--                cconn.open, Unclosed is about the errors of its replies, Listen has the addresses that a server
--                listens on, and Distinct is about them
--   Filler.*     filler.go: the pattern filler, NewFiller; Repeat and Pattern are about what is read, and Payload
--                is readPayload of packet.go
--   Server.*     sconn of sconn.go with its window of received numbers (Window), and connmgr of server.go
--                (Manager). Echo is serve, serveClose and serveEcho, Open is accept and readOneAndReply, and
--                Runs the loop of readAndReply over arrivals, up to a fatal error; Kept, Sound and Handling are the
--                lemmas of its invariant.
--                Strangers is about packets from unknown addresses, Expiry about removeSomeExpired, and Pool is
--                the pool of packets
--   Recorder.*   recorder.go: the buffer of round trips (Ring), the times of a round trip (Delays),
--                DurationStats (Stats, Spread), recordReceive (Receive, Outcome), and what is counted over
--                any operations (Counts)
--   Result.*     newResult of result.go: the status of the round trips (Loss), variations and counts
--   Averager.*   averager.go: the three averagers and NewAverager; Ring is about the window
--   Timer.*      timer.go: the four timers and NewTimer; Waits is about the busy loop
--   Waiter       waiter.go: the three waiters and NewWaiter
--   Client.*     client.go: receive, and which replies the client records (Replies, Received); send (Send), the
--                times of its packets (Pace) and its end (Steps, Ends); Run and wait, where the two loops share
--                the recorder (Run, Start, Orderly, Whole)
-- The Tests and Scenario modules apply the theorems at concrete values.
--
-- A Go slice is its backing array with the length that is shown. A function that may panic gives an
-- Option, and `none` is the panic. An error is a code beside the result. An int64 is an integer, and
-- arithmetic on it wraps around. Wall times of the operating system, random numbers, the order in which
-- Go visits a map, what the network does with a packet and the decoder of encoding/hex are arguments. A
-- float64 is its bits, and its arithmetic the record `Prelude.Float.Float64`. HMAC-MD5 is the record
-- `Packet.Mac` of a function and its length.
--
-- Fuel: the loop of parseParams runs on the length of its input, of which each round takes a byte at
-- least, so it is enough. The loops of NewPatternFiller and of Read run on the number of bytes to fill,
-- of which each round fills one at least. The loop of newCtoken runs on the list of the random
-- candidates, those of readAndReply, of Client.receive and of the replies of open on the list of the
-- arrivals, the busy loop of a timer on the list of its passes, and that of Client.send on the list of its
-- turns. A turn takes three steps, one for each time that it locks the recorder, and between any two of them
-- the receiving loop can read.
--
-- Not modelled: sockets, goroutines and locks, the operating system, printing, JSON, profiling and the
-- command line, which have no logic of the protocol; the means, medians, percentages and rates of
-- recorder.go and result.go, which are floating-point numbers; the calls of handlers; the reads of the
-- server's one default filler by the connections of other listeners, which change where its pattern goes
-- on; dial and listen, but for what dial makes of cconn.open, since the rest is calls of Go's net;
-- bitrate.go, which prints, and the memory that a recorder needs.
pub mod Prelude
pub mod Code
pub mod Fbuf
pub mod Time
pub mod Params
pub mod Net
pub mod Packet
pub mod Config
pub mod Glob
pub mod Negotiate
pub mod Conn
pub mod Server
pub mod Recorder
pub mod Result
pub mod Averager
pub mod Timer
pub mod Waiter
pub mod Client
pub mod Filler
