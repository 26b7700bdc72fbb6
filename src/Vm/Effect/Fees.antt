-- ===== src/Vm/Effect/Fees.antt =====
-- The gas that a transaction pays for.
use taraxa_evm.Prelude.{
  ℕ, ◌+◌, ◌-◌, ◌*◌, ◌/◌, ◌%◌, ◌≤◌, ◌<◌, ◌≡◌, Bool, ◌&&◌, Option, none, some, arith, leb, ltb, Bytes,
  true, false, Bool-cases, ==→eq, ==→ne, ltb→ge, refl, ◌==◌, inl, inr, ap,
}
use native.Mathlib.Nat.{div-lt_iff_lt-mul}
use taraxa_evm.Prelude.Int.{pos_part}
use taraxa_evm.Vm.Env.{Env, Address, Error, insufficient_balance_for_gas, intrinsic_gas, u64_mod}
use taraxa_evm.Vm.Machine.{Evm}
use taraxa_evm.Vm.Gas.{intrinsic_gas_of}
use taraxa_evm.Vm.Ops.Calls.{Called, returned, failed, call, create1}
use taraxa_evm.Vm.Interpreter.{balance_gte, with_state, run_loop}
use taraxa_evm.Vm.Transaction.{
  Executed, executed, panicked, refuse, settle_transaction, charged_transaction, create_contract,
  call_contract, execute_transaction, main, sender,
}
use taraxa_evm.Vm.Effect.Rules.{IsSafe}
use taraxa_evm.Vm.Effect.Nested.{GivesBack}
use taraxa_evm.Vm.Effect.Termination.{nested-Serves}

-- Half of `least` is paid for unless there is a consensus error.
abbrev pub IsCharged : (least used : ℕ) → Option Error → Type 0
IsCharged least used none = least ≤ used + used
IsCharged least used (some e) = Unit

-- The gas used is at most the limit, and at least `least` when there is no consensus error.
abbrev pub Pays : (limit least : ℕ) → {W : Type 0} → Executed W → Type 0
Pays limit least (executed r evm) =
    (r.gas_used ≤ limit) × IsCharged least r.gas_used r.consensus_err
Pays limit least (panicked f) = IsSafe f

intrinsic_gas_of-ge :
    (bytes : Bytes) (creation : Bool) (gas : ℕ)
    → intrinsic_gas_of bytes creation ≡ some gas
    → 21000 ≤ gas
unfolding intrinsic_gas_of
intrinsic_gas_of-ge bytes creation gas h = ground (arith, h)

module _ (env : Env) where
  open env use {trx}

  refuse-Pays :
      (least : ℕ) (bump : Bool) (gas : ℕ) (e : Error) (evm : Evm (env.World))
      → gas ≤ trx.gas
      → Pays trx.gas least (refuse env bump gas e evm)
  unfolding refuse
  refuse-Pays least bump gas e evm h = ground arith

  settle_transaction-Pays :
      (addr : Address) (intrinsic : ℕ) (called : Called (env.World))
      → intrinsic ≤ trx.gas
      → trx.gas < u64_mod
      → GivesBack (trx.gas - intrinsic) called
      → Pays trx.gas intrinsic (settle_transaction env addr called)
  unfolding settle_transaction
  settle_transaction-Pays addr intrinsic (failed f) enough word h = h
  settle_transaction-Pays addr intrinsic (returned ret gas e evm) enough word h = ground (arith, h)

  module _ (fuel intrinsic : ℕ) (evm : Evm (env.World)) (enough : intrinsic ≤ trx.gas)
      (some_gas : 0 < intrinsic) (word : trx.gas < u64_mod) (fuelled : trx.gas ≤ fuel) where
    create_contract-Pays :
        (w : Option (env.World))
        → Pays trx.gas intrinsic
            (create_contract env (run_loop env fuel) (trx.gas - intrinsic) evm w)
    unfolding create_contract
    create_contract-Pays none = ground arith
    create_contract-Pays (some w) = settle_transaction-Pays _ intrinsic _ enough word (
        (nested-Serves env fuel).serves_create create1 trx.from trx.input (trx.gas - intrinsic)
          trx.value (with_state env w evm) (omega arith))

    call_contract-Pays :
        (to : Address) (w : Option (env.World))
        → Pays trx.gas intrinsic
            (call_contract env (run_loop env fuel) to (trx.gas - intrinsic) evm w)
    unfolding call_contract
    call_contract-Pays to none = ground arith
    call_contract-Pays to (some w) = settle_transaction-Pays 0 intrinsic _ enough word (
        (nested-Serves env fuel).serves_call call (sender env) to trx.input (trx.gas - intrinsic)
          trx.value (with_state env w evm) (omega arith))

    execute_transaction-Pays :
        (to : Option Address)
        → Pays trx.gas intrinsic
            (execute_transaction env (run_loop env fuel) to (trx.gas - intrinsic) evm)
    unfolding execute_transaction
    execute_transaction-Pays none = create_contract-Pays _
    execute_transaction-Pays (some to) = call_contract-Pays to _

  available_le :
      (balance : ℕ) → balance < trx.gas * trx.gas_price → balance / trx.gas_price ≤ trx.gas
  available_le balance h = elim (Bool-cases (trx.gas_price == 0)) [
    | inl free ↦ absurd (ground (arith, h, ap (λ p. trx.gas * p) (==→eq trx.gas_price 0 free)))
    | inr priced ↦ omega (arith, below (omega (arith, ==→ne trx.gas_price 0 priced)))
  ]
    where
      below : 0 < trx.gas_price → balance / trx.gas_price < trx.gas
      below p = (div-lt_iff_lt-mul p).1 h

  -- Whether the fee cannot be paid.
  fee_unpaid :
      (w : env.World)
      → balance_gte env trx.from (trx.gas * trx.gas_price) w ≡ false
      → pos_part (env.state_ops.get_balance trx.from w) / trx.gas_price ≤ trx.gas
  unfolding balance_gte
  fee_unpaid w h =
      available_le (pos_part (env.state_ops.get_balance trx.from w)) (ground (arith, h))

  charged_transaction-Pays :
      (fuel : ℕ) (intrinsic : Option ℕ) (evm : Evm (env.World))
      → ((gas : ℕ) → intrinsic ≡ some gas → 21000 ≤ gas)
      → trx.gas < u64_mod
      → trx.gas ≤ fuel
      → Pays trx.gas 21000 (charged_transaction env (run_loop env fuel) intrinsic evm)
  unfolding charged_transaction
  charged_transaction-Pays fuel none evm least word fuelled =
      refuse-Pays 21000 _ trx.gas _ evm (omega arith)
  charged_transaction-Pays fuel (some intrinsic) evm least word fuelled =
      elim (Bool-cases (ltb trx.gas intrinsic)) [
        | inl short ↦
            ground (arith, short, refuse-Pays 21000 env.rules.is_cornus trx.gas intrinsic_gas evm)
        | inr enough ↦ ground (
          arith,
          enough,
          least intrinsic refl,
          execute_transaction-Pays fuel intrinsic evm
              (omega (arith, ltb→ge trx.gas intrinsic enough)) (omega (arith, least intrinsic refl))
              word fuelled trx.to,
        )
      ]

-- With at least as much fuel as the gas limit, which is a 64-bit number, a transaction ends: the gas
-- used is at most the limit, and without a consensus error it is at least 10500, half of the
-- intrinsic gas of a call; a fault is neither a lack of fuel nor an access below the stack.
pub main-Pays :
    (env : Env) (fuel : ℕ) (evm : Evm (env.World))
    → env.trx.gas < u64_mod
    → env.trx.gas ≤ fuel
    → Pays env.trx.gas 21000 (main env (run_loop env fuel) evm)
unfolding main
main-Pays env fuel evm word fuelled = ground (
  arith,
  charged_transaction-Pays env fuel
      (intrinsic_gas_of env.trx.input (elim env.trx.to [ none ↦ true | some _ ↦ false ]))
      (with_state env
        (env.state_ops.sub_balance env.trx.from (env.trx.gas * env.trx.gas_price) evm.state) evm)
      (intrinsic_gas_of-ge env.trx.input (elim env.trx.to [ none ↦ true | some _ ↦ false ])) word
      fuelled,
  fee_unpaid env evm.state,
  refuse-Pays env 21000
      (env.rules.is_cornus && leb (env.state_ops.get_nonce env.trx.from evm.state) env.trx.nonce)
      ((pos_part (env.state_ops.get_balance env.trx.from evm.state) / env.trx.gas_price) % u64_mod)
      insufficient_balance_for_gas
      (with_state env
        (env.state_ops.sub_balance env.trx.from
          (pos_part (env.state_ops.get_balance env.trx.from evm.state)
            / env.trx.gas_price
            * env.trx.gas_price)
          evm.state)
        evm),
)
