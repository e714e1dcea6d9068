-- ===== src/Lib.antt =====
-- Simple-BlockChain: a chain of heart-rate blocks that nodes replicate over libp2p.
--
-- The parts. `internal/blockchain` has the blocks, with hash and validation, and the chain, a doubly
-- linked list under a mutex with subscribers that are called for each block it takes.
-- `internal/storage` saves a chain to SQLite and loads it. `internal/p2p` has the messages, the host on
-- libp2p, and the server, which hands the blocks of peers to the chain, subscribes to it, and sends each
-- new block to its peers. The programs under `cmd` put these together.
--
-- The files.
--   Common: the libraries' names, Booleans, lists, `int` with its wrap-around, texts, maps, pointers.
--   Platform: times, and the parameters SHA-256, `time.Format` and `time.Parse`.
--   Block, Block/...: internal/blockchain/block.go.
--   Chain: internal/blockchain/blockchain.go and blockchain_node.go up to GetBlocksAfter; Chain/Fork:
--     ValidateChain, ReplaceChain and TryAcceptChain. Chain/Linked is the invariant of the pointers,
--     Chain/Spec the abstract chain, a list of blocks; the other children relate the two. Chain/History
--     has all sequences of operations.
--   Storage: internal/storage/store.go; Storage/Rows is the table.
--   Message: internal/p2p/message.go.
--   Server: internal/p2p/server.go and peer.go. Server/Handle is handleMessage, one function for each
--     type of message, Server/Dial the outgoing connections with Connect of internal/p2p/host.go,
--     Server/Ask what goes to all peers.
--     Server/Node is a node's invariant, Server/Quiet the messages that leave the chain alone,
--     Server/History all sequences of calls, Server/Grow what they leave of a chain,
--     Server/Race the goroutines that handle one block at once.
--     Server/Seeds is the search for first peers, Server/Maintain one tick of each maintenance task.
--   Peer: reading from a stream, internal/p2p/peer.go and readMessages. Sync: two servers that talk.
--     Sync/CatchUp is one request for blocks, Sync/Wire the reading of a round's mail from a stream,
--     Sync/Connect the two servers of server_sync_spec.go, from the opening of their stream on, Sync/Meet
--     how that ends, and Sync/Spread a block that one of the two makes. In Sync/CatchUp and Sync/Spread
--     the mail is taken to be delivered once and in order.
--   Host: the rounds of the discovery loops of internal/p2p/host.go; Host/Start is NewHost and Close.
--   Config: internal/p2p/config.go.
--   Cli: cmd/sbc/main.go, with one function for each command; Cli/Lines is the prompt.
--   Program: how the programs under cmd start and stop a node. Program/Callbacks: the callbacks and the
--     log handler of cmd/sbcd, and its main. Program/Tester: cmd/tester.
--   Logger: internal/p2p/logger.go.
--   Seed: the table of addresses of cmd/seed/main.go; Seed/Fresh is the table over time, with the
--     goroutines of main, whose cleanup comes at most `late` behind its time, a parameter. Seed/Service
--     is what is answered over HTTP.
--   Tests: the theorems at concrete inputs.
--
-- The correspondence. A function has the name of the Go function in this spelling
-- (processBlockInternal is `process_block_internal`). A struct is a record. A pointer to a node is an
-- index into `nodes`, which only grows, as Go's heap does as far as the program sees; a nil
-- dereference is a result of its own, as are an index or a slice out of range and a loop that runs
-- out of fuel. The fuel of each traversal is one more than the number of nodes; in a linked chain
-- each step goes to a node of greater index, so that it is never used up, and the theorems of the
-- form `Returns ...` say so. `int` has 64 bits. A time is an instant in nanoseconds and a zone;
-- `time.Now()` is an argument or the field `clock`, and a call reads one time throughout unless two
-- readings are arguments. A method that holds a mutex is one step. What a server sends is the list
-- `sent`, what its callbacks are told the list `events`. A map of peers is a list in some order.
-- JSON, multiaddrs, connections and the database are parameters; what is relied on is a record of
-- laws (`IsFaithful`, `IsSql`, `IsWire`), which Tests has instances of. A string is a list of numbers, its
-- bytes where the program counts bytes and its code points in the command line and the settings,
-- which are taken as ASCII.
--
-- Not modelled: the scheduler, timeouts, sockets and the transports, and the goroutines and tickers,
-- but those of cmd/seed and of Server/Race; the SQL of the database; which log lines the operations of
-- the server write; net/http; the tests, but for the scenario of server_sync_spec.go. They either only
-- call libraries, or decide when the operations above run.
pub mod Common
pub mod Platform
pub mod Block
pub mod Chain
pub mod Storage
pub mod Message
pub mod Peer
pub mod Server
pub mod Config
pub mod Logger
pub mod Seed
pub mod Host
pub mod Sync
pub mod Cli
pub mod Program
pub mod Tests
