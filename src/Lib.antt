-- ===== src/Lib.antt =====
-- A file transfer between two peers: a sender offers a file in chunks of 32 KB, each encrypted under a
-- key of its own; the receiver commits to each response with a ticket before it gets the key, checks
-- every chunk against its commitment, and at the end both compare the roots of Merkle trees over what
-- was sent. This library models that protocol from its Go source and proves what it promises.
--
-- Parts, and the code that each models:
--   Base: the language. Native numbers with wrap-around written out, byte slices as lists of numbers,
--   `binary.BigEndian` (Base/Words), and functions on a state that return a value, an error, a panic or
--   the end of the process by `log.Fatal` (Base/Action). Base/Text has what is used of the package
--   `strings`.
--   Protocol: Protocol/state.go in Protocol/State (states, names, allowed transitions),
--   Protocol/protocol.go in Protocol/Types, Protocol/stream.go in Protocol/Stream,
--   Protocol/session.go in Protocol/Session, Protocol/fsm.go in Protocol/Fsm. Protocol/File stands for
--   `*os.File`. Protocol/Progress has what holds of `Run` for any table of steps, Protocol/Reached the
--   sessions that are reached while bytes arrive between the rounds, Protocol/Paths the paths through
--   the transition table and the states that `Run` passes through.
--   Wire: the messages of Chunk/chunk.go, `Send*` as `encode_*` and `send_*`, `Read*` as `read_*`. A
--   connection is what it still delivers, the error at its end, what was written, and which writes it
--   accepts, so that a peer may send anything and stop anywhere. Wire/Exact has both directions of each
--   message in one statement.
--   Crypto: Utils/utils.go and `BuildAndEncryptChunk`. Keccak-256 and AES-GCM are a parameter, a record
--   of three functions; theorems that need their documented laws take them as `IsLawful`. The source of
--   randomness is the list of the bytes that it will deliver.
--   Merkle: Merkle/merkle.go. Merkle/Shape follows the levels that `BuildTree` makes, Merkle/Binding
--   compares the roots of lists of leaves, Merkle/Reference has the trees, indexed by their height and
--   with a hash at each node, to which Merkle/Heights compares the levels, and Merkle/Filled those trees
--   with copies in place of missing subtrees.
--   Controllers: Controllers/controllers.go, `SendFile` and its table of steps in Controllers/Sender,
--   `RecieveFile` and its table in Controllers/Receiver, `ReadChunkPlaintext` of Chunk/chunk.go in
--   Controllers/Actions. A step is a function of the whole session; `Run` calls the step of the
--   session's state, checks the transition and goes on. Controllers/Exchange states what a party has
--   been given before it reveals a key or acknowledges; Controllers/Sender/Path and
--   Controllers/Receiver/Path follow the states of a run.
--   Transfer: both parties together. Transfer/Sending and Transfer/Receiving follow each party through
--   all chunks, Transfer/Opening has the header before them, Transfer/Each has the whole of
--   `SendFile` and of `RecieveFile`, Transfer/EndToEnd puts the two together, Transfer/Empty does so
--   where there are no chunks. Transfer/Transcript and Transfer/Told are about one party and any peer: which
--   messages a receiver, and a sender, has read and written in each state, at the end and at every
--   moment; Transfer/Tampering compares the file of a receiver with the one that a sender has, and
--   Transfer/Cut is about a receiver to which the last bytes never come.
--   Transfer/Turns is the step relation of the two parties by turns, with
--   what is on its way between them; Transfer/Parties has the turns of one party,
--   Transfer/Inevitable what every order of turns comes to, and Transfer/Waiting the rounds that wait;
--   Transfer/Roots, Transfer/Liveness and Transfer/Schedule follow a transfer back from its end through
--   the roots, the chunks and the header.
--   P2P: P2P/host.go. libp2p and multiaddrs are parameters, records of what they answer. P2P/Identity
--   has `LoadOrCreateIdentity` on a key file, P2P/Relays and P2P/Connections what hold of
--   `StaticRelayAddrs`, `NewHost`, `connKindToPeer` and `CircuitAddr`, P2P/Watch the loop of
--   `WatchForDirectUpgrade` on the cases that its `select` took, P2P/Reservations the loop of
--   `keepReservationAlive` on a clock.
--   Client: Client/client.go, `splitNonEmpty`, `RequestFile` and `main`; Client/Parts on the lists in
--   RELAY_ADDRS, Client/Calm and Client/Outcomes on how `main` ends.
--   Server: Server/server.go. `HandleStream` is in Server, with Server/Requests on the request that it
--   reads, Server/Outcomes on how it ends and Server/Delivery on a client and a server together; `main`
--   is in Server/Start.
--   Relay: relay/main.go.
--   Tests: a small cryptography that keeps the laws, and the theorems at concrete inputs.
--
-- Bounds: `run` takes a number of rounds. A sender needs at most 4 for each chunk and 4 more, a
-- receiver 5 for each chunk and 4 more, where the number of chunks is a uint32. `BuildTree` takes as
-- many rounds as there are leaves, since every level is shorter than the one before it.
--
-- Assumptions of the model: a session is used by one goroutine, so its mutex is left out; log output is
-- left out; writes of a message are all or nothing; the time and the file system are arguments.
--
-- The arguments and variables of the mains are lists of code points, so valid UTF-8; the client's path
-- goes on as its UTF-8 bytes. In Transfer/Turns a round that
-- needs bytes which are not there yet is made again once they are, and what it wrote before is on its
-- way; in Protocol/Reached bytes arrive between rounds only, so that a round finds all that it reads.
--
-- Not modelled: what the mains print for a reader (only the addresses that the server and the relay
-- print are there) and their wait for a signal; the client's watch and sleep before it opens the stream;
-- connLogger of Server/server.go, which starts a watch for each new connection, and LogIdentifyEvents of
-- P2P/host.go, which only logs; the resets of a stream by a lost connection, but for the end that a
-- connection gives to a read; and code that is commented out.
pub mod Base
pub mod Protocol
pub mod Wire
pub mod Crypto
pub mod Merkle
pub mod Controllers
pub mod P2P
pub mod Client
pub mod Server
pub mod Relay
pub mod Transfer
mod Tests
