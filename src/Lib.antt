-- ===== src/Lib.antt =====
-- Verification of copper, the Go package in the repository's root: its connection layer, which
-- multiplexes streams over one connection, its server, which routes streams to services, and the
-- remote calls between the two.
--
-- The program. A connection (rawconn.go) reads frames (frame.go) and dispatches them to its pings
-- (rawconn_pings.go), settings (rawconn_settings.go) and live streams (rawconn_streams.go). A stream
-- (rawstream.go) is a state machine of two sides, each with a byte ring (buffer.go). What is to be
-- sent is put into the connection's outgoing side (rawconn_outgoing.go): acknowledgements, pings, and
-- two queues of streams (rawstream_queue.go), which the writer goroutine serves in turn.
--
-- On a connection of a client (server_client.go) the first byte of a stream names a remote call
-- (rpc_io.go, rpc_server.go), whose messages are converted to and from the server's values
-- (rpc_conv.go). A client publishes endpoints, which a publication (server_pubs.go) hands to requests
-- by their load, with a queue of waiters. A subscription (server_subs.go) follows the routes
-- (server_routes.go), publications and remotes of its services and picks the best; server.go does so
-- for a single request by name. A peer (server_peers.go) reads another server's stream of changes
-- (server_changes.go) and keeps a remote for each service within reach.
--
-- The files and what they model.
--   Prelude     names and lemmas that the other files share: Boolean tests, lists measured by native
--               numbers, Go slices, maps and sets, bits, signed numbers
--   Pow2        `minpow2` of buffer.go, on a 64-bit int
--   Ring        what the cells of a ring hold, for the two rings
--   Buffer      buffer.go: `read`, `readbyte`, `write`, `writebyte`, `clear`, `peek`, `discard`
--   StreamQueue rawstream_queue.go: `push` and `take`
--   Errors      errors.go: an error is `GoError`, which keeps what the code tells apart
--   Frame       frame.go: Frame/Wire the bytes of numbers and headers, Frame/Reader `FrameReader` and
--               the parsers, Frame/Writer `FrameWriter`, Frame/RoundTrip the two together
--   StreamIds   rawconn_streams.go: the live streams and `allocateLocked`
--   Outgoing    rawconn_outgoing.go: the methods that add work, and the choice of a round of the loop
--               of `writeFrames`
--   Pings       rawconn_pings.go; the calls of callbacks are returned
--   Settings    rawconn_settings.go; `handleSettings` is in Conn/Dispatch
--   Stream      rawstream.go: incoming frames; Stream/Output `writeCtrl` and `writeData`; Stream/Api
--               the calls of the application
--   StreamLaws  what holds of a stream in any interleaving of frames, calls and rounds
--   Conn        rawconn.go: `closeWithError`; Conn/Dispatch `processFrame`, its handlers, `NewStream`
--   Publication server_pubs.go and `decrementCounterUint32` of util.go; Publication/Endpoints
--               `publishLocked` and `unpublishLocked`, Publication/Runs their interleavings
--   Subscription server_subs.go: options; Subscription/Changes the methods of a subscription
--   Watch       server_changes.go; Watch/View adds a reader
--   Routes      server_routes.go: the draw of a case by weight, `setRouteLocked`
--   Search      server.go: `findEndpointRLocked`
--   Peers       server_peers.go: remotes and their two indexes; Peers/Reader what happens to a peer,
--               Peers/Pair a peer that reads another server's Watch
--   Clients     server_client.go: what a client subscribed to and published; Clients/Calls its runs
--   Rpc         rpc_io.go and the reading of target ids in rpc_server.go and rpc_client.go;
--               Rpc/Conversions rpc_conv.go with the messages of protocol/copper.pb.go
--   Tests       the theorems at concrete inputs
--
-- The model. A method that holds a mutex is one step, a function on the state. `writeCtrl` gives its
-- mutex up while it writes, so it is a sequence of rounds, between which other steps may come. A call
-- that waits gives `blocked` and is tried again. A stream is known by a number, the identity of its
-- pointer, and its calls of `scheduleCtrl`, `scheduleData` and `remove` are listed in `requests`,
-- which Conn carries out. A channel that is only closed is the count of its closings, of which a
-- second one would panic. A reader has the bytes that are to come and the error behind them; a writer
-- has the outcomes of its calls. Go's `==` on two error objects is the parameter `alias`, and
-- `isTimeout`, which asks an error of package net, the parameter `timeout`.
--
-- The server's mutex makes a method one step too. Publications, endpoints, remotes, subscriptions and
-- clients are numbers, the identities of their pointers, and a field that several of them reach is in
-- a table. What a method tells others is listed: the endpoints sent to waiters, the notices to
-- subscriptions, what was unsubscribed. A Go map is a function or a list, in the order that Go's
-- iteration takes. `sort.Sort`, the random numbers, and protobuf's `Marshal` and `Unmarshal` are
-- parameters; a stream that is read from has the pieces in which its bytes arrive, and
-- whether its end is known when the last of them is read.
--
-- Bounds and fuel. The loop of `allocateLocked` has 2^31 + 2 rounds, more than the ids of a parity
-- that two passes look at. The loop of `writeCtrl` has five, one more than the kinds of frames that
-- it may owe when no other step comes between. The rings are followed up to 2^62 cells, where
-- `minpow2` stays in a 64-bit int, and the runs of the outgoing side up to 2^60 events.
--
-- Not modelled: deadlines and timers (cond.go, rawconn_reader.go, rawconn_writer.go), goroutines and
-- the wait groups, so `readloop` and `writeloop` are not run; the texts of formatted error messages;
-- the order of Go's map iteration, and steps of others between the streams that `failLocked` closes;
-- the sharing of the reader's scratch buffer with the frame; `blocked`, which only tests set. Of the
-- server: listeners, HTTP, dialling, the callbacks that copy a stream's bytes, and its maps by name
-- where a method only registers in them. rpc_client.go's requests, client.go, http.go and passthru.go
-- are left out.
pub mod Prelude
pub mod Pow2
pub mod Ring
pub mod Buffer
pub mod StreamQueue
pub mod Errors
pub mod Frame
pub mod StreamIds
pub mod Outgoing
pub mod Pings
pub mod Settings
pub mod Stream
pub mod StreamLaws
pub mod Conn
pub mod Publication
pub mod Subscription
pub mod Watch
pub mod Routes
pub mod Search
pub mod Peers
pub mod Clients
pub mod Rpc
pub mod Tests
