-- ===== src/Lib.antt =====
-- kkchain: the account state of the chain, the calls of contracts, the transition that a
-- transaction makes, the transactions that wait for a block, the proof of work of a header, and
-- the routing table of the peers.
--
-- Parts, and how they interact:
-- * State models core/state. `StateDb` is `StateDB`, `StateObject` is `stateObject`, `Entry` the
--   implementations of `journalEntry`, and each method is a function of the same name in snake
--   case that returns the new state: State/Object (state_object.go), State/Store and
--   State/Methods (statedb.go, the changing methods), State/Getters (the reading ones),
--   State/Revert (journal.go, `Snapshot`, `RevertToSnapshot`) and State/Lifecycle (`New`,
--   `Reset`). The stateObject methods that log an entry are `change_balance`, `change_nonce`,
--   `change_code` and `change_state`. State/World is the view of a state that the getters show,
--   and what undoing an entry does to it; the caches are not in it. State/Step, Setters, Create,
--   Changes and Steps show what a method does to the view, State/Rollback and Snapshots what a
--   revert does.
-- * Evm models core/vm/evm.go and core/evm.go over State: Evm/Defs has `Call`, `CallCode`,
--   `DelegateCall` and `StaticCall`, Evm/Create has `create`. Evm/Machine has interpreters: any
--   that acts by calls of a StateDB, uses gas and calls the EVM again, one level deeper.
-- * Transition models core/state_transition.go and core/gaspool.go over Evm: Transition/Defs has
--   `IntrinsicGas`, `preCheck`, `buyGas`, `refundGas` and `TransitionDb`.
-- * Dht models p2p/dht/route_table.go and p2p/dht/peer.go; Dht/Closest has `FindClosestPeers`, a
--   loop on fuel: one more than the number of buckets, since a round moves one bucket on.
-- * Trie models trie/encoding.go, the encodings of the keys of the trie: Trie/Encoding has the
--   functions, Trie/Nibbles the lemmas on pairs of nibbles, Trie/Compact the round trips.
-- * Vm has the parts of the interpreter that stand on their own: Vm/Stack (core/vm/stack.go and
--   core/vm/stack_table.go), and Vm/Words (core/vm/common.go, common/math/integer.go and
--   `RightPadBytes` of common/bytes.go).
-- * Pool models core/tx_list.go. Pool/SortedMap has `txSortedMap`, with `filter_map` for
--   `Filter`, Pool/TxList has `txList`, where `filter_list`, `remove_tx` and the names in _list
--   are the methods of the same name. Pool/Entries and Loops have the lemmas on entries and
--   loops, Upkeep, Operations and Calls what each operation of the map does, Sorting that the
--   order of the range does not matter to `Flatten`, Limits, Filter and Strict what those of the
--   list do.
-- * TxPool models core/tx_pool.go over Pool: TxPool/Priced has `txLookup` and `txPricedList`,
--   with the heap of container/heap: its loops have the length of the heap as fuel, which is
--   enough, since a round of `up` or `down` moves a level and a round of the others pops an
--   element (TxPool/Stale); TxPool/Defs has `add` (as `add_pooled`), `validateTx`, `enqueueTx`,
--   `promoteTx` and `removeTx` (as `remove_pooled`). TxPool/Places is the view of a pool as one
--   map of places against the lookup, TxPool/Lookup and Moves have the lemmas on entries and
--   lists, Sound the invariant; Enqueue, Remove (over Vacate), Add (over Stores) and Promote show
--   it for the method of that name; Complete and Remain have the lemmas on what stays listed. Demote
--   has `demoteUnexecutables`, Shed, Demotion, Demoted and Executable lemmas on it.
-- * Consensus models consensus/pow/pow.go and `CalcGasLimit` of core/validator.go:
--   Consensus/Difficulty (`calcDifficultyFrontier`), Seal (`verifySeal`, `mine`), Mining (what a
--   search finds), Header (`Initialize`, `VerifyHeader`), GasLimit.
-- * Base has the shared names.
--
-- Conventions: addresses, hashes, keys and storage values are numbers, since the code only
-- compares them and passes them on. A big.Int is an integer; a uint64 is a natural number with
-- its wrap-around written out. A Go map is a function with a default. A panic is `none`. The
-- loops over a journal, a bucket, the data of a transaction and the nibbles of a key are
-- structural recursion on the list. The map of a txSortedMap is ranged over, so it is the list of
-- its entries, by ascending nonce; where the code collects its values to sort them, the order of
-- the range is an argument, and elsewhere it is ascending. Its heap is the list of the elements
-- in the order in which they are popped. Mining goes on until it is told to stop, which is a
-- number of nonces to try.
--
-- Parameters: the packages trie, rlp and crypto and the code database, as the record `Backend`,
-- whose reads are functions; and `run` of core/vm/evm.go, the interpreter, as the field `runs` of
-- `Evm`. What the theorems on calls assume of it is `RunLaw`: it acts on the state by the methods
-- of a StateDB, and it does not add gas, in a state in which a call can start; Evm/Machine shows it
-- for its interpreters. `Signer` has the size of a transaction and the check of
-- its signature, `Hashes` the hashes of ethash and of headers, `ChainReader` the headers that the
-- chain has.
--
-- Not modelled: the writing of the trie (`Finalise`, `Commit`, `updateTrie`), `Copy`, the
-- interpreter and its gas table, the promotion of whole accounts in the transaction pool, its
-- limits by account, the block chain, the threads of `Seal` and the rewards, synchronisation,
-- network I/O, RPC and the tools. The mutexes of the routing table are left out: each operation
-- holds the lock of its bucket. The tracer and the log lines are left out.
pub mod Base
pub mod State
pub mod Evm
pub mod Transition
pub mod Dht
pub mod Trie
pub mod Vm
pub mod Pool
pub mod TxPool
pub mod Consensus
