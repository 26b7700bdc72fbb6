-- ===== src/Vm/Tests.antt =====
-- Applications of the theorems on the virtual machine at concrete inputs.
use taraxa_evm.Prelude.{◌+◌, ◌-◌, ◌/◌, ◌*◌, ◌≤◌, ◌≡◌, [], ◌∷◌, arith, refl, true, inl}
use taraxa_evm.Vm.Common.{to_word_size}
use taraxa_evm.Vm.Gas.{call_gas, memory_gas_cost, intrinsic_gas_of}
use taraxa_evm.Vm.Machine.{Machine, Contract}
use taraxa_evm.Vm.Ops.Calls.{call, create1}
use taraxa_evm.Vm.OpCode.{OpCode}
use taraxa_evm.Vm.JumpTable.{operation_of}
use taraxa_evm.Vm.Interpreter.{run_loop, calls_of, evm_call, evm_create_at, step}
use taraxa_evm.Vm.Transaction.{main}
use taraxa_evm.Vm.Effect.Rules.{Ends, Effect}
use taraxa_evm.Vm.Effect.Nested.{GivesBack}
use taraxa_evm.Vm.Effect.Validate.{Allows, validate_stack-Allows}
use taraxa_evm.Vm.Effect.Charge.{Covers, gas_cost-Covers}
use taraxa_evm.Vm.Effect.Execute.{execute-Effect}
use taraxa_evm.Vm.Effect.Round.{Advances}
use taraxa_evm.Vm.Effect.Termination.{
  step-Advances, nested_call-GivesBack, nested_create-Deposits, Deposits, nested-Serves,
}
use taraxa_evm.Vm.Effect.Fees.{Pays, main-Pays}
use taraxa_evm.Vm.Laws.Reverting.{FailsFrom, refuses, evm_call-FailsFrom}
use taraxa_evm.Vm.Laws.ReadOnly.{Refused, step-Refused}
use taraxa_evm.Vm.Laws.Prices.{
  words_of, to_word_size-words_of, call_gas-le, Sums, intrinsic_sum, intrinsic_gas_of-Sums, Grows,
  memory_gas_cost-Grows, Costs, memory_gas_cost-linear,
}
use taraxa_evm.Vm.Laws.Slices.{Writes, mem_set-Writes}
use taraxa_evm.Vm.Laws.Wrapping.{op_mstore-wraps}
use taraxa_evm.Vm.Memory.{mem_set, empty_memory}
use taraxa_evm.Vm.MemorySize.{memory_mstore}
use taraxa_evm.Vm.Ops.Storage.{op_mstore}
use taraxa_evm.Vm.Jumpdest.{get_op}
use taraxa_evm.Vm.Machine.{ok, fault, slice_bounds}
use taraxa_evm.Vm.Env.{u256_mod}
use taraxa_evm.Vm.Effect.Rules.{with_stack}
use taraxa_evm.Prelude.{Bytes, replicate}
use taraxa_evm.Vm.Sample.{sample, evm, contract, machine, World}

main-Pays_example : Pays 100000 21000 (main sample (run_loop sample 100000) evm)
main-Pays_example = main-Pays sample 100000 evm (omega arith) (omega arith)

step-Advances_example :
    Ends 100
      (Advances (machine 100 []))
      (step sample (calls_of sample (run_loop sample 100)) (machine 100 []))
step-Advances_example = step-Advances sample 100 (machine 100 []) (omega arith)

nested_call-GivesBack_example :
    GivesBack 50 (evm_call sample (run_loop sample 60) call contract 7 [] 50 10 evm)
nested_call-GivesBack_example =
    nested_call-GivesBack sample 60 call contract 7 [] 50 10 evm (omega arith)

nested_create-Deposits_example :
    Deposits 500
      ((evm_create_at sample (run_loop sample 501) create1 7 (0x60 ∷ 1 ∷ 0 ∷ []) 500 3 evm).1)
nested_create-Deposits_example =
    nested_create-Deposits sample 501 create1 7 (0x60 ∷ 1 ∷ 0 ∷ []) 500 3 evm (omega arith)

gas_cost-Covers_example :
    Covers sample OpCode.call (machine 5000 (100 ∷ 7 ∷ 5 ∷ 0 ∷ 0 ∷ 0 ∷ 0 ∷ [])) (
      (operation_of sample OpCode.call).gas_cost 0
        (machine 5000 (100 ∷ 7 ∷ 5 ∷ 0 ∷ 0 ∷ 0 ∷ 0 ∷ [])))
gas_cost-Covers_example =
    gas_cost-Covers sample 0 (machine 5000 []) OpCode.call (100 ∷ 7 ∷ 5 ∷ 0 ∷ 0 ∷ 0 ∷ 0 ∷ [])
      (omega arith)

execute-Effect_example : Effect 2 1 0 (machine 5000 (1 ∷ 2 ∷ [])) (
    (operation_of sample OpCode.add).execute
      (calls_of sample (run_loop sample 6000))
      (machine 5000 (1 ∷ 2 ∷ [])))
execute-Effect_example =
    execute-Effect sample (machine 5000 []) 6000 (calls_of sample (run_loop sample 6000))
      (nested-Serves sample 6000) OpCode.add tt (1 ∷ 2 ∷ []) (omega arith) (omega arith)

validate_stack-Allows_example :
    Allows 2 1 3 ((operation_of sample OpCode.add).validate_stack (1 ∷ 2 ∷ 3 ∷ []))
validate_stack-Allows_example = validate_stack-Allows sample OpCode.add (1 ∷ 2 ∷ 3 ∷ [])

evm_call-FailsFrom_example :
    FailsFrom sample 7 50 evm
      (refuses sample call 7 2000 evm)
      (evm_call sample (run_loop sample 60) call contract 7 [] 50 2000 evm)
evm_call-FailsFrom_example =
    evm_call-FailsFrom sample (run_loop sample 60) call contract 7 [] 50 2000 evm

abbrev frozen : Machine World
frozen = record (machine 30000 (1 ∷ 2 ∷ [])) { evm = record evm { read_only = true } }

-- SSTORE
abbrev frozen_contract : Contract
frozen_contract = record contract { code = 0x55 ∷ [] }

abbrev frozen_machine : Machine World
frozen_machine = record frozen { contract = frozen_contract }

step-Refused_example :
    Refused frozen_machine (step sample (calls_of sample (run_loop sample 60)) frozen_machine)
unfolding get_op
step-Refused_example =
    step-Refused sample (calls_of sample (run_loop sample 60)) frozen_machine refl (inl refl)

to_word_size-words_of_example : to_word_size 100 ≡ words_of 100
to_word_size-words_of_example = to_word_size-words_of 100 (omega arith)

call_gas-le_example : call_gas sample 6400 700 10000 + (6400 - 700) / 64 + 700 ≤ 6400
call_gas-le_example = call_gas-le sample 6400 700 10000 (omega arith) (omega arith)

intrinsic_gas_of-Sums_example :
    Sums (53000 + intrinsic_sum (0 ∷ 7 ∷ [])) (intrinsic_gas_of (0 ∷ 7 ∷ []) true)
intrinsic_gas_of-Sums_example = intrinsic_gas_of-Sums (0 ∷ 7 ∷ []) true

memory_gas_cost-Grows_example : Grows 100 (machine 50 []) (memory_gas_cost 100 (machine 50 []))
memory_gas_cost-Grows_example = memory_gas_cost-Grows 100 (machine 50 []) (omega arith) refl

memory_gas_cost-linear_example :
    Costs (3 * 4294967296) (memory_gas_cost 137438953472 (machine 50 []))
memory_gas_cost-linear_example =
    memory_gas_cost-linear 137438953472 (machine 50 []) (omega arith) (omega arith) refl refl

-- PUSH2 0x5b 0x5b, JUMPDEST: only the last byte is a destination.
abbrev pushed : Bytes
pushed = 0x61 ∷ 0x5b ∷ 0x5b ∷ 0x5b ∷ []

abbrev with_memory : Machine World
with_memory = record (machine 50 []) { mem = record (empty_memory 0) { store = replicate 32 0 } }

mem_set-Writes_example :
    Writes 3 1 (7 ∷ 8 ∷ []) 4 with_memory (mem_set 3 1 (7 ∷ 8 ∷ []) with_memory)
mem_set-Writes_example = mem_set-Writes 3 1 (7 ∷ 8 ∷ []) 4 with_memory (omega arith) (omega arith)

op_mstore-wraps_example :
    (memory_mstore sample.u256 (with_stack (machine 50 []) ((u256_mod - 32) ∷ 1 ∷ []))
      ≡ ok (u256_mod - 32 + 32 - u256_mod) (with_stack (machine 50 []) ((u256_mod - 32) ∷ 1 ∷ [])))
    × (op_mstore sample (with_stack (machine 50 []) ((u256_mod - 32) ∷ 1 ∷ []))
        ≡ fault slice_bounds)
op_mstore-wraps_example =
    op_mstore-wraps sample (u256_mod - 32) 1 [] (machine 50 []) (omega arith) (omega arith)
