-- ===== src/Lib.antt =====
-- A library about btm-stats: the wire format of blocks and transactions, the hashes, Merkle roots
-- and asset ids over it, the readers and writers below it, and parts of the network.
--
-- The parts, from the bottom:
-- - Io: the io.Writer interface, as a step on a state of its own that returns a count and an error,
--   and code over it, which may panic. A bytes.Buffer is the list of its bytes.
-- - Errors: errors/errors.go (an error is a value, or a message before an error), and in
--   Errors/Writer errors/writer.go, the writer that keeps its first error.
-- - Encoding: encoding/blockchain/blockchain.go. Encoding/Reader has the Reader, its methods and
--   the chaining of reads; Encoding/Varint the other readers and the two functions of
--   encoding/binary below them; Encoding/Write the writers. The files beside them hold proofs:
--   Reads says what it is that a reader reads a value from its bytes whatever follows, and that
--   it takes a prefix; Uvarint, Varints and Strings prove it of each reader and writer; Laws says
--   what they promise.
-- - Bc: protocol/bc. Bc/Words has encoding/binary's and encoding/hex's functions, Bc/Hash hash.go,
--   Bc/Merkle merkle.go, Bc/Entry writeForHash of entry.go, Bc/Asset asset.go, Bc/TxStatus
--   tx_status.go. The messages of bc.pb.go are records beside their methods.
-- - Types: protocol/bc/types. Types/TxOutput has txoutput.go and output_commitment.go,
--   Types/TxInput txinput.go and the kinds of inputs, Types/Transaction transaction.go,
--   Types/Block block.go, block_header.go and block_commitment.go. Each has a child Coding with
--   its wire format, and TxInput/Refused is about an issuance with another asset id.
-- - Consensus: consensus/general.go, the reward of a block; Consensus/Supply adds the rewards up.
-- - Protocol: Protocol/BlockIndex is protocol/state/blockindex.go; its children Links and MainChain
--   have the proofs about SetMainChain.
-- - P2p: p2p, in these parts.
-- - P2p/NodeInfo is node_info.go, and P2p/PeerSet peer_set.go, over any keys and peers; in its
--   children, Others, Cutting and Swapping are about Remove, and Calls about sequences of calls.
-- - P2p/Channel is a channel of p2p/connection/connection.go; its child Stream has two channels at
--   the ends of a connection and the schedules of their calls, and the proofs are in Packets,
--   Sending, Receiving and Delivery.
-- - P2p/Connection is MConnection, with several channels: Work and Draining are about the sending;
--   Receiving is the receiving loop, and Lanes and Messages are about it.
-- - P2p/SecretConnection is p2p/connection/secret_connection.go, over an interface, Crypto; its
--   child Handshake has MakeSecretConnection, Nonces and Stream prove what the frames need and
--   carry, and Order and Agreement join two ends.
-- - P2p/Switch is p2p/switch.go, with what it uses of peer.go, over an interface, World, to
--   connections, reactors, the address book and the database, whose calls it logs; its child Peers
--   has the admission and the removal of peers, Admission and Closing prove what an admission
--   does, Limit is about the listener and Bans about bans.
-- - P2p/NetAddress is p2p/netaddress.go, over P2p/Ip, Go's net.IP and net.IPNet; its child Routing
--   says which addresses are routable.
-- - P2p/Pex is p2p/pex. Pex/KnownAddress is know_address.go with the constants of param.go.
--   Pex/AddrBook is addrbook.go: the book and the functions below its calls; its children Calls,
--   Selection and Pick are the calls, over an interface, Addressing, to the addresses, and
--   Pex/Groups fills the interface with groupKey, calcNewBucket and calcOldBucket. Consistent says
--   what it is that a book is consistent, Changes what a change at one address has to keep;
--   Raising, Growing and Placing, Lowering, Shrinking and Removing, Deleting and Erasing, and
--   Rewriting prove it of each change; Expiring, Entering, Keeping, Aging, Promoting and Adding
--   compose these to the calls, Reached to their sequences, and PickEnds is about PickAddress.
--   Pex/Reactor is Receive of pex_reactor.go over a book, and its child Received says what becomes
--   of the book.
-- - P2p/BanScore is p2p/trust/banscore.go with its client, addBanScore of netsync/peer.go.
-- - Common: common. Common/Bytes is bytes.go; its child Numbers is about the numbers that it reads.
-- - Netsync: netsync/block_keeper.go. Netsync/BlockKeeper is BlockRequest, with the cases of its
--   select as a list of events; its child Worker is BlockRequestWorker over an interface, World,
--   to the chain, the peers and the switch. Netsync/BestPeer is BestPeer of netsync/peer.go.
-- - Database: Database/UtxoView is database/leveldb/utxo_view.go and
--   database/storage/utxo_entry.go.
-- - Base: names of the libraries that all parts use, Boolean tests and lists over native numbers.
-- - Tests: runs, and the theorems at concrete inputs.
--
-- How code became definitions:
-- - A function that reads takes the Reader, a list of the bytes that are left, and returns a
--   value or an error beside the Reader afterwards, since a failed read has moved it too. A method
--   that fills its receiver (readFrom, ReadFrom) returns the value; what a receiver holds after an
--   error is not modelled. A nil slice is the empty one. A nil pointer or interface is `none`.
-- - Numbers are natural numbers; a varint's 64 bits are written out in read_uvarint_loop, and
--   MaxInt32 and MaxInt64 bound what the readers and writers accept. `x | y` on bits that do
--   not meet is `x + y`.
-- - binary.ReadUvarint is the documented one: at most ten bytes, io.EOF where no byte was read and
--   io.ErrUnexpectedEOF after that. hex.Decode is that of Go 1.9 and later.
-- - Fuel: merkleRoot recurses with the number of nodes as fuel, the floored logarithm in
--   prevPowerOfTwo with its argument; both are enough, as the theorems about them show. The
--   logarithm of a float is exact below 2^48 nodes.
-- - SHA3-256 of golang.org/x/crypto is the parameter sum256. A theorem about equal digests has
--   the case of two different inputs with one digest, which it names. json.Marshal is written out
--   for TxVerifyResult.
-- - A block node is known by an address, and SetMainChain works on a list of addresses; its loop
--   has the node's height as fuel, which is enough where a node is one higher than its parent.
-- - The Go channel of a p2p channel is a list, and sendQueueSize, a count that starts at 0 and is
--   raised by every message queued, is a natural number. The average recentlySent of a
--   channel stands beside it, and a float32 of sendMsgPacket is an interface. The writer of a
--   connection is a parameter, and its reader a list of what it gives. A
--   map that the source never ranges over is a function.
-- - The address book has a heap of known addresses, and its maps are lists of entries
--   (Base/Maps), since it ranges over them; the order of a range, the random numbers and the time
--   come from outside, for one call at a time. Times are nanoseconds since Go's zero time. A
--   slice of buckets is a function; calcNewBucket and calcOldBucket are in its range. PickAddress
--   has fuel for its loop, and the theorem about it gives enough.
-- - A secret connection has keys, signatures and nonces as their bytes. What the other end sends is
--   a list of bytes, and a write goes to a writer of Io, so that two ends meet where each reads
--   what the other wrote; the two sides of cmn.Parallel use different fields. Write has the length
--   of the data as fuel, and io.ReadFull the bytes that are left.
-- - A switch handles one call at a time, a connection is a number, and its listener takes a list of
--   connections with the time of each. The calls of reactors are in the order that the interface
--   gives. The configuration is the default one: encrypted, and not fuzzed.
-- - A float64 of the ban score is an interface, and its times are not negative. The database is a
--   function from keys, and proto's coding of an entry a parameter.
-- - BlockCommitment.readFrom, BlockHeader.writeTo, Tx.WriteTo and the entries made by MapTx are
--   called but not held by the repository: they are parameters of the definitions about blocks.
--
-- Not modelled: the pools of buffers and hashes, since a buffer is reset before its use; stack
-- traces; database/sql's Value and Scan; negative indexes; texts of messages where they hold
-- numbers; the sockets, timers and float ratios of the network, the rest of p2p and netsync,
-- the store of blocks, and the node's start-up.
pub mod Base
pub mod Io
pub mod Errors
pub mod Encoding
pub mod Bc
pub mod Types
pub mod Consensus
pub mod Protocol
pub mod P2p
pub mod Netsync
pub mod Database
pub mod Common
pub mod Tests
