-- ===== src/Lib.antt =====
-- Taraxa's Ethereum virtual machine (core/vm), the contract of its delegated proof of stake
-- (taraxa/state/contracts/dpos/precompiled) and the storage collections of its contracts
-- (taraxa/state/contracts/storage), modelled and verified.
--
-- A transaction (`EVM.Main`) charges the sender, runs a call or a creation (`EVM.call`,
-- `EVM.create`), and returns what is left of the fee. Calls and creations take a snapshot of the
-- state and run a contract (`EVM.run`): a loop that decodes an operation, validates the stack,
-- computes the size of the memory and the gas, and executes the operation, which may call again.
--
-- The DPOS contract keeps validators, delegations and undelegations under keys of its account's
-- storage. A method reads objects, checks them, pays rewards by the difference of two states of a
-- validator, and writes the objects back. The lists of addresses and numbers are iterable maps over
-- a storage wrapper, whose cache stands before the account's dirty entries and the database.
--
-- Prelude     numbers, lists, integers and tests shared by all modules
-- Vm/Env      what the machine is given: the 256-bit words of the uint256 library with the
--             documented laws of a few operations, the interfaces State, StateAccount and
--             PrecompiledContract, block, transaction and chain (core/vm/interface.go,
--             core/vm/contracts.go, core/vm/gas_table.go, core/vm/errors.go)
-- Vm/Machine  the state of one run and the monad of its operations: an operation returns, ends in
--             an error of the machine, or in a fault, which stands for a Go panic or spent fuel
-- Vm/Stack, Vm/Common, Vm/Memory, Vm/MemorySize, Vm/Gas, Vm/Jumpdest
--             stack.go, stack_table.go, common.go, memory.go, memory_table.go, gas.go, analysis.go
--             and contract.go of core/vm, function by function
-- Vm/Ops      core/vm/instructions.go and core/vm/eips.go
-- Vm/OpCode, Vm/JumpTable
--             core/vm/opcodes.go and core/vm/jump_table.go
-- Vm/Interpreter, Vm/Transaction
--             core/vm/evm.go: run, call, create, and Main
-- Vm/Effect   what every operation does to stack and gas, up to the termination of the machine
-- Vm/Laws     what single parts compute
-- Vm/Sample, Vm/Tests
--             a concrete environment, and the theorems applied to it
-- Storage/Codec
--             the number encodings of taraxa/util/bin and of the iterable map
-- Storage/Interface, Storage/Wrapper
--             a storage as the collections use it, with keccak256 as a parameter without
--             collisions, and storage.go, which implements it
-- Storage/IterableMap
--             iterable_map.go, addresses_imap.go and ids_imap.go, and the list a map stands for
-- Dpos/State  the contract's state, one map for each kind of storage key, and the monad of its
--             methods: a method returns, returns an error, or panics
-- Dpos/Votes, Dpos/Collections, Dpos/Validators, Dpos/Delegations, Dpos/Undelegations, Dpos/Rewards
--             the helpers of dpos_contract.go, validators.go, delegations.go, undelegations.go
-- Dpos/Stake, Dpos/Redelegate, Dpos/Registry, Dpos/Run
--             the methods of dpos_contract.go and their dispatch
-- Dpos/Meets, Dpos/Errors, Dpos/Accounts, Dpos/Stuck
--             rules for what a method keeps and reaches, and the theorems
-- Storage/Sample, Storage/Tests, Dpos/Sample, Dpos/Tests
--             concrete storages and a contract with two validators
--
-- Go names keep their words: `opCallDataLoad` is `op_call_data_load`, `memoryGasCost` is
-- `memory_gas_cost`. A uint64 is a natural number with its wrap-around written out; a word, an
-- address and a hash are the numbers that their bytes spell. The top of the stack is the head of a
-- list. The loop recurs on fuel, of which a round and a nested run spend one unit; every
-- operation that lets the loop go on costs gas, and a call gets less gas than it costs, so fuel
-- above the gas is enough.
--
-- The prefixes of an iterable map are slices with a capacity, since `Init` appends to one slice twice:
-- where it has room, both prefixes end in the same byte. The items are therefore taken to have other
-- lengths than the four bytes of a position, as addresses and ids do.
--
-- Amounts of the contract are natural numbers: a negative one panics in the source when it is
-- encoded, and in the model where it would arise. The loop of GetItems takes the count of items as
-- fuel, which bounds its rounds.
--
-- Not modelled: tracing, and the caches of the jump destination analysis, which depends on the
-- code alone. The state behind the interfaces, the precompiled contracts, RLP and the ABI are
-- parameters or lie outside this library: the DPOS contract's storage holds objects where the
-- source holds their encodings, and its calls come decoded. The distribution of rewards, the
-- getters and the gas of the DPOS contract, the slashing contract, the journal of the state and the
-- trie are left out.
pub mod Prelude
pub mod Dpos
pub mod Storage
pub mod Vm
