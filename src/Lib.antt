-- ===== src/Lib.antt =====
-- bluGOLD, a proof-of-work currency node: a model of its core and what holds of it.
--
-- A node keeps a tree of blocks, follows its heaviest valid chain, and holds the accounts that
-- the blocks of that chain make. Blocks and transactions come from peers, from a local miner and
-- from the owner's wallet; each passes the checks of internal/chain, and is applied to the
-- accounts by internal/state. internal/node ties these together under one mutex: insertion, fork
-- choice, mempool, mining candidates, and the answers to peers.
--
-- Base holds what the parts share: lists, results and integers over the native numbers, byte
-- strings, and dictionaries for Go maps.
-- Crypto is internal/crypto/crypto.go: the text form of addresses and the signature check.
-- SHA-256 and ed25519 are a parameter, the record Crypto.Interface.Primitives, which says only
-- that a digest has 32 bytes.
-- Chain is internal/chain: Codec is codec.go (the writers), Tx is tx.go and HashBytes of
-- hash.go, HashText the rest of hash.go, Block is block.go, Params and Difficulty are params.go
-- (RewardAt and Target; NextDifficulty), and so is Amount (FormatAmount, ParseAmount).
-- State is internal/state/state.go: every method is an action on the map of accounts, with
-- errors and panics as outcomes (State.Monad).
-- Node is internal/node/node.go: Data is the Node struct; Tree has pathToGenesisLocked,
-- anchorLocked, rejectSubtreeLocked; Pool has revalidateMempoolLocked, rebuildMempoolLocked,
-- dropConfirmedLocked; Switch has selectTipLocked, switchChainLocked, replayLocked,
-- commitChainLocked; Insert has insertBlockLocked, addOrphanLocked, promoteOrphansLocked;
-- Transactions has AddTx and BuildCandidate; Sync has the locator, blocksAfterLocatorLocked and
-- the handlers of messages; Wallet has Send, SubmitSolution, Info and RecentBlocks; Boot has New,
-- from the blocks that are stored on; Network has the start of the switch, a round of syncLoop,
-- and Stop; Tips has SubscribeTips and the channels of publishLocked, apart from the node's
-- record. What a call does outside the node's memory (disk, gossip, subscribers) is an event in
-- the node's log. Run is the relation of a node before and after one call, and what a started node
-- can become. Mined follows a candidate of BuildCandidate through SubmitSolution: the checks
-- (Checked), the choice of the tip (Chosen), both together (Accepted, Tip). Node.Ledger is what
-- the node promises, without its checkpoints, its index or its replays: the state of a chain
-- (chain_state) is what its blocks make, one by one, of no accounts. Its children prove that the
-- node keeps to it: Paths and Climb describe the tree and the paths in it, Replay and Rebasing the
-- replay from a checkpoint, Pruning the removal of a subtree, Switching, Moving and Selecting the
-- change of the tip, Placing and Inserting a new block, Booting and Running the start and the
-- other calls; Index, Listing and Answering take the index by height and the answers to peers.
-- Miner is internal/miner: Midstate is sha256mid.go, with the compression function of SHA-256
-- written out. Its Hash is the hash of a whole message on that function (checked at "abc"), against
-- which the midstate is proved. Target has targetWords; Kernel is the kernel of gpu_opencl.go and
-- Search, behind what OpenCL does (Device); Backend is backend.go and the choice of a backend in
-- miner.go, Workers is mineOnceCPU, with the steps of its goroutines in any order, and Rounds is
-- mineOnceGPU, mineOnce and Run.
-- P2p is internal/p2p/p2p.go: the table of peers, the known addresses and the handshake. A
-- connection is a number, what it sends is a row of decoded frames, and what the switch does with
-- sockets is an event; the functions of package net are the parameter Net. Table and Serving have
-- what holds of the table whatever the connections do; Dialing is what is accepted and dialled.
-- Wire is the frames of internal/wire/wire.go, with JSON as a parameter.
-- Store is AppendBlock and LoadBlocks of internal/store/store.go, on the bytes of the file of blocks;
-- Store.Peers has SavePeers and LoadPeers.
-- Api is internal/api/api.go, the handlers behind the decoding of a request. Cmd is
-- cmd/blugold/main.go: what the commands do behind their flags, with the wallet file of
-- internal/crypto/crypto.go in Cmd.Wallets. Cmd.Sending follows a payment from the command line
-- through the handler to the node.
-- Tests has the runs at concrete inputs, with a small hash in the place of SHA-256.
--
-- Integers: uint64 arithmetic is written out modulo 2^64 (add_u64), int64 arithmetic wraps
-- (Base.Int.wrap_i64), and a big.Int is exact. A loop over a list is recursion on it. The merkle
-- loop runs on as many rounds as there are transactions, since each round halves the level. A
-- walk to the genesis block, and a locator, run on one round more than the height of the entry,
-- since each step goes down. The removal of a subtree runs on one round more than the blocks of
-- the tree, since each call takes one away. The insertion of a block, with the orphans that it
-- frees, runs on one round more than the orphans that wait. The digits of a uint64 take 20 rounds.
--
-- Simplifications: one call reads the clock once. A Go map is ranged over in the order of its
-- dictionary, and maps by byte strings have one entry per key unless a result says otherwise. A
-- nil slice and an empty slice are the same, except for the key and the signature of a
-- transaction, where Go's test for nil is kept. A block's list of transactions holds no null
-- entries (a message's list of blocks may). A panic stops the model's call with an outcome of
-- its own; the node is marked as crashed. Where a result says so, no block has the hash of 32 zero
-- bytes (NoZeroHash), which stands for the parent of the genesis block. The results on the miner's
-- hashes take the SHA-256 of Miner.Midstate.Hash for that of crypto/sha256.
--
-- Not modelled: JSON, the sockets, timers and goroutines of internal/p2p and internal/node, the
-- opening of files and of an OpenCL device, the texts of rates (internal/miner), HTTP
-- (internal/api), and the flags, the output and the start of the commands (cmd).
pub mod Base
pub mod Crypto
pub mod Chain
pub mod State
pub mod Node
pub mod Miner
pub mod P2p
pub mod Wire
pub mod Store
pub mod Api
pub mod Cmd
mod Tests
