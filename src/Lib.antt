-- ===== src/Lib.antt =====
-- The main chain of the Go program in this repository, parts of its URL chains and of its crawlers,
-- and its two-phase commit, as definitions
-- translated from the source and theorems about them.
--
-- The parts. The main chain keeps a ledger of accounts, domains (each with its chain's users and
-- miners) and miners who offer themselves (providers). A transaction changes the ledger's pending
-- part; a commit moves the pending changes to the committed part. Blocks of transactions form a tree,
-- and a branch is a head block, a preview of the ledger behind it, and two pools of transactions,
-- those in its blocks and those not yet in one. A branch applies blocks that arrive and produces
-- blocks of its own. The chain keeps the branches, one of them the head, and the last irreversible
-- block, which all of them hold; it switches to a branch that gets longer than the head, and then
-- confirms the blocks that are old enough. A domain has a chain of the queries of its database, with an
-- index of their acknowledgements and a pool of the executed ones, and a crawler a queue of the URLs
-- that it bids for. Apart from these, a coordinator asks workers to prepare and then to commit.
--
-- Which file models what:
--   Base: the library's names, Boolean tests, lists over native numbers, keys with an equality.
--   GoMap: Go's built-in map, with an unspecified order of iteration.
--   Word: the wrap-around of 64-bit and 32-bit integers.
--   Exec: methods that return a value, return an error, or panic, and leave a state behind in each
--     case; Exec.Triple has the rules for their invariants.
--   Hash: crypto/hash/hash.go, the text of a hash.
--   Types: types/account.go and types/token.go (data), Types.Permission (the roles of a user), and
--     Types.Transactions (one record for each type of transaction).
--   Presbyterian.Env: presbyterian/errors.go, and what comes from outside as parameters.
--   Presbyterian.MetaIndex: presbyterian/metaindex.go, safeAdd and safeSub and the maps.
--   Presbyterian.MetaState: presbyterian/metastate.go, one function for each method, named as there.
--     The child modules Tokens, Users, Permissions, Providers, Matching, Domains, Deposits, Billing
--     and Apply hold the transactions; View, Commit, Transfers, Arrears, Charges, SuperUsers,
--     Strangers and Valid hold proofs.
--   Presbyterian.BlockNode: presbyterian/blocknode.go, with proofs in Ancestry, Searches, Segments and
--     Descent.
--   Presbyterian.Branch: presbyterian/branch.go; Produce has produceBlock; proofs in Pools, Produced,
--     Agreement and Heads.
--   Presbyterian.Chain: presbyterian/chain.go, the state under the chain's lock, and `store` of
--     presbyterian/storage.go. Peers has presbyterian/bpinfo.go, Clock the heights and turns, Switch
--     replaceAndSwitchToBranch, Blocks applyBlock, produceAndStoreBlock and processAddTxReq, Start
--     NewChain, and Runs its goroutines as events; proofs in Slots, Heads, Pooled, Switched, Room, Grown,
--     Headed, Started, Confirmed, Irreversible, Turns and Runs.
--   Twopc: twopc/twopc.go, the coordinator of a two-phase commit; proofs in Twopc.Phases.
--   UrlChain.AckIndex: urlchain/ackindex.go, the index of responses and acknowledgements; proofs in
--     Counters, Kept and Calls.
--   UrlChain.Block: types/block.go, with the verification of a block; UrlChain.BlockIndex:
--     urlchain/blockindex.go; UrlChain.Runtime: urlchain/runtime.go.
--   UrlChain.Chain: urlchain/chain.go, blocks that are pushed and checked; Start has NewChain, Fetches what is
--     fetched and the cache of blocks, Turns produceBlock, runCurrentTurn and processBlocks and
--     their events, Bills the billing; proofs in Linked, Grown, Pruned, Kept, Steps, Runs,
--     Refused, Charged and Balanced.
--   Merkle: merkle/merkletrie.go.
--   Types.Queries: types/request_type.go, types/response_type.go and types/ack_type.go.
--   State.Pool: state/pool.go, the pool of executed queries; proofs in Indexed and Truncation.
--   State.Execution: state/state.go, over an SQL engine (State.Storage); Replay has the queries of other
--     nodes; proofs in Replicas, Pools, Replays and Batches.
--   Frontera.ProbBiddingQueue: frontera/bidding_queue_prob.go; proofs in Pops and Overtaking.
--   Frontera.BiddingList: frontera/bidding_list.go, the bids for a URL and the list of the URLs; proofs
--     in Bids and Most.
--   Tests: the theorems at a small ledger, three short chains, two workers, a database that counts its
--     changes, and small indexes.
--
-- How the model stands for the code. Pointers that may be nil are options, and a read through nil is
-- a panic. A deep copy is the value itself; a write through the pointer of a committed account
-- (storeBaseAccount) is a write to the committed map, and an arena's writes of this kind reach the
-- branch that it was made from. A BaseAccount is an object whose account the ledgers that apply it may
-- share and change; here it is a value, as it was sent, so the theorems on what a
-- switch confirms are about blocks without one. The chain's headBranch is a reference to a slot of its branches, or
-- to a branch that has left them. The answers of the database to one call of `store` are a parameter,
-- and what it has committed is a list of procedures. Hashes and addresses are numbers below 2 ^ 256, floating-point
-- numbers are bit patterns whose operations are parameters. A loop over a map is a loop over `range`,
-- one order of the entries; the theorem on commit is about every order. Sorting without stability is
-- insertion sort, one of the orders that Go may return. All loops are structural recursion, on the
-- list or the chain of parents that they walk, except the inner loop of syncHeads, which has the fuel
-- 2 ^ 32 + 1; a theorem says how much is enough. A call that waits for a lock that it holds itself
-- returns the error `deadlock`. The heights and counts of a domain's chain fit an int32. A query at
-- the level read uncommitted does not end the state's transaction and sets no savepoint of its own.
--
-- What is not modelled: the network, the timers, the SQL text, the cache that clears old
-- blocks of the main chain, the signing of transactions, the merkle root of a main chain's block, the
-- synchronisation of a domain's chain with its peers, and logging. Signatures, hash
-- functions, the encoders and the SQL engine are parameters (Presbyterian.Env, the argument `seal` of
-- the main chain's produce_block, UrlChain.Block.Crypto and State.Storage.Engine).
pub mod Base
pub mod GoMap
pub mod Word
pub mod Exec
pub mod Hash
pub mod Types
pub mod Presbyterian
pub mod Merkle
pub mod Twopc
pub mod UrlChain
pub mod State
pub mod Frontera
mod Tests
