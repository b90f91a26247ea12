-- ===== src/Lib.antt =====
-- A verification library of Crain: a proof-of-work chain (a Substrate node with its runtime and
-- pallets) and the ink! contracts beside it.
--
-- The parts, where their code is, and the files here that model them:
--
-- primitives/src/lib.rs: the constants of the difficulty adjustment. Primitives.
-- pallets/difficulty/src/lib.rs: the pallet that sets the difficulty on each timestamp.
--   Difficulty (Entries: storage and the loops over the array of sixty entries; Retarget: damp,
--   clamp, the genesis build and on_timestamp_set), with its specification in Formula and the
--   proofs in Loops, Totality, Adjust, Response, History, Climb, Drift and Stall.
-- pow/src/lib.rs: the algorithm of the blocks' seals. Pow (Crypto: seals, computations and what
--   is taken from outside; Algorithm: hash_meets_difficulty, Compute::compute, difficulty,
--   break_tie, verify, preliminary_verify), with the proofs in Target, Verify and Tie.
-- node/src/service.rs: Node.Mining is the loop of the mining thread that new_full spawns, with
--   its proofs in Search and Halts. Node.Service is decode_author, new_partial and new_full,
--   with the proofs in Author, Effects, Walk, Errors, Mines and Start; Node.Objects are the
--   objects that they pass between Substrate's functions, and Node.Steps the effects of a start.
-- node/src/chain_spec.rs: Node.ChainSpec, the two configurations and their genesis.
-- node/src/command.rs, node/src/cli.rs: Node.Command is load_spec, with its proof in Specs,
--   and the constant answers to the CLI; Node.Command.Run the dispatch of the subcommands, with
--   its proofs in Offline.
-- node/src/command_helper.rs: Node.Benchmark, the benchmark's extrinsics and inherent data, with
--   the proofs in Period and Signed.
-- node/src/rpc.rs: Node.Rpc, the handler that create_full builds.
-- runtime/src/lib.rs: Runtime, the values that the configuration computes and how it connects
--   the difficulty pallet; Runtime.Apis is impl_runtime_apis!, over the functions of FRAME.
-- contracts/erc20/src/lib.rs: Contracts.Erc20, with the proofs in Transfer, Supply and
--   Allowance; Ledger states what the token promises, Refine relates the contract to it, Token
--   is the contract up to what can be seen of it, and Back a transfer and the one back.
--   UnitTests is the file's unit tests (Topics: their helpers, with the proofs in Hashes and
--   Passes).
-- contracts/moneybag/src/lib.rs: Contracts.Moneybag, with the proofs in Rules, Bids, Prize,
--   Last, Ends and Rounds, and UnitTests, the file's unit tests, with the proofs in GenRange,
--   GivePrize and Passes.
-- contracts/flipper/src/lib.rs: Contracts.Flipper, with the proofs in Runs, and the unit tests
--   in UnitTests.
--
-- How they interact: the timestamp of a block calls on_timestamp_set of the difficulty pallet,
-- which the runtime serves to the node as the difficulty of the next block; the node's mining
-- thread makes seals for it, and a node that imports a block verifies its seal with the same
-- algorithm. The genesis of the chain specifications is the pallet's first storage. Chain is
-- that composition: a step (Chain.Step) adds a block whose seal verifies at the difficulty
-- that the algorithm reads from the runtime, and calls the pallet with its timestamp.
-- Chain.History specifies a chain's difficulty on the plain list of its blocks, Recent relates
-- the pallet's array to that list, Direction is how the difficulty moves by the blocks'
-- timestamps, Held is what the pallet's storage keeps of the history, and Sound and Live are
-- the lemmas on the whole. Chain.Forks is a node that imports blocks on any block it knows:
-- Known is about the chains of one node, Agree about two nodes, and Mined about a block that
-- is mined at one of them. Chain.Served is the runtime's API over the execution of blocks.
--
-- How the code is read. State is a record that a function takes and returns. A panic is the
-- outcome panic, and a Result of Rust is a value of Result; a panic in a contract is a trap, and
-- undoes the call. A machine integer is a native number with its range written out
-- (Prelude.Machine): the arithmetic is that of a build, with overflow checks or wrapping, and a
-- statement that names no build holds for each. U256 is checked in every build, as in
-- primitive-types. A loop over an array has the number of rounds that are left as its first
-- argument, which the caller sets to the length that the code loops over, so it never runs out.
-- The unbounded loop of the mining thread is modelled round by round; first_submission takes a
-- number of rounds, and its theorem says how many are enough. What a start of the node does to
-- the outside is a list of effects in order; an object of Substrate is kept as the arguments that
-- it is made with.
--
-- Parameters. Hash functions, the SCALE codec and H256 are Pow.Crypto. The storage mapping of
-- ink! is Ink.Mapping, with the laws that a read sees the last insertion; what a unit test takes
-- from ink_env is Ink.Testing, and Contracts.Erc20.UnitTests.Topics.Engine for the topics. The
-- random seed, the ChaCha generator and the native transfer are Contracts.Moneybag.Environment.
-- Key formats, the keystore and whether each step of Substrate succeeds are Node.Service.Keys
-- and Node.Service.Host, key derivation is Node.ChainSpec.Keys, signatures, eras and the codec
-- of a payload are Node.Benchmark.Substrate, jsonrpc's handlers are Node.Rpc.IoHandlers, and the
-- weights and the rounding of Perbill are Runtime.Substrate. The functions of FRAME behind the
-- runtime's API are Runtime.Apis.Frame, and that they set the timestamp of a block, and leave the
-- difficulty pallet's storage alone otherwise, is Chain.Served.SetsDifficulty. What
-- sc_consensus_pow demands of an imported block, the client of a fork, and the timestamp pallet
-- of a timestamp, are the premises of Chain.Step and of Chain.Forks.Accepts.
-- Where a theorem rests on one of them, its witness in a module Tests has a concrete instance.
--
-- Not modelled: the choice among forks, which is Substrate's; the configuration of the other
-- pallets, which only names types and constants of Substrate; the composition of the runtime
-- by construct_runtime!, the entry points and the build scripts, which call Substrate with no
-- logic of their own; and what a subcommand does once its components are built, of which
-- Node.Command.Run takes the effects and the result as parameters.
pub mod Prelude
pub mod Primitives
pub mod Difficulty
pub mod Pow
pub mod Node
pub mod Ink
pub mod Contracts
pub mod Runtime
pub mod Chain
