-- ===== src/Lib.antt =====
-- A model of mock5g, a mock gNB and AMF that measure how SCTP and QUIC carry signalling traffic.
--
-- The program. `mock5g amf` listens on a transport and answers the request frames of each session;
-- `mock5g gnb` runs workers that each dial a session, send frames and, in latency mode, wait for the
-- answer of each. Their counters and latencies go to one collector, from which the rows of the CSV
-- file are made.
--
-- Which file models what (paths are those of the repository):
--   Wire        pkg/wire/frame.go: `Frame`, `Encode` (encode), `Decode` (decode).
--   Metrics     pkg/metrics/metrics.go: `Collector`, its Add methods, `Snapshot`, `percentiles`; Csv is
--               `WriteCSV`.
--   Nas         pkg/nas/template.go: `LoadTemplate`.
--   Config      pkg/config/config.go: `Default`, `Load`.
--   Transport   pkg/transport/transport.go: `Config`; below it
--     Stream    what a connection gives to `io.ReadFull` and takes from a loop of writes;
--     Tls       the TLS configurations of pkg/transport/{sctp,sctpkernel,quic};
--     Kernel    pkg/transport/sctpkernel/sctpkernel_linux.go: FdConn is `fdConn`, Sockets
--               `resolveSockAddr` and `pollFD`, Session `Listen`, `Dial`, `Accept` and
--               `session.Close`, Fds the descriptors that they open and close, Channel
--               `channel.Send` and `channel.Recv`;
--     Quic      pkg/transport/quic/quic.go: `writeAll`, `Send`, `Recv`, `quicConfig`; its Session
--               `Listen`, `Dial`, `Accept` and the channels;
--     Sctp      pkg/transport/sctp/sctp.go: `Send` and `Recv`; its Session `Listen`, `Dial` and
--               `Accept`, each a race between the context and a call of the library;
--     Queue     `transport.Channel` as an interface, with the queue of messages that it stands for;
--     Backend   pkg/transport/backend/backend.go: the choice of the transport.
--   App         pkg/app: Amf is `AMFServer.Run` and `handleSession`, Gnb is `GNBClient.Run`.
--   Load        pkg/load/load.go: Rates is the arithmetic of workers and tickers, Attempt one round of
--               a worker and its loop, Run is `RunLatency`, `RunFlood` and `collectSnapshots`, Sweep is
--               `RunThroughputSweep`, Open `Runner.open` over the backend and the session that a
--               worker closes, Path a request's way to the AMF and back.
--   Cli         cmd/mock5g/main.go: `configPathFromArgs`, what flags and file make together, `main`.
--   Base        numbers, lists, errors, bytes, sorting; Tests applies the theorems to concrete values.
--
-- How it is modelled. Bytes are numbers below 256. Go's integers are numbers with their wrap-around
-- written out; an error is a value of `Error`, and a (value, error) pair a `Result`. What the kernel,
-- the clock, the network and the libraries answer is an argument: a list of answers for a loop, which
-- is structural in that list and comes to an explicit "waits" when there are no more answers, and a
-- record of functions (`Crypto`, `Net`, `Floats`, `Library`) for a library. A loop over a
-- buffer is structural in the answers too, and the theorems on it say how many answers are enough.
-- Two functions bound their steps: trimming by the length of the text, of which each step takes a
-- byte (Nas/Ends shows that it goes on until no space is left), and printing n in base ten by n + 1,
-- which is more than n has digits (reading the digits back gives n).
-- Goroutines are the sequences of the calls that they make; the mutex of the collector makes each
-- call one step, and the theorems on a run hold for every order of the calls.
--
-- Not modelled: the stub of the kernel transport for other systems (two functions that return an
-- error), `Addr` and `RemoteAddr` (texts of addresses), console output, the Go tests and the scripts.
-- Libraries are parameters: the SCTP library, quic-go, crypto/tls and x509, the YAML decoder, flag,
-- encoding/csv and the file system.
pub mod Base
pub mod Wire
pub mod Metrics
pub mod Transport
pub mod App
pub mod Config
pub mod Load
pub mod Nas
pub mod Cli
pub mod Tests
