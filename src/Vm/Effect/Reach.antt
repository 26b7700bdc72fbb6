-- ===== src/Vm/Effect/Reach.antt =====
-- The size of the memory that an operation needs is read off the stack alone.
use taraxa_evm.Prelude.{ℕ, ◌<◌, ◌≤◌, ◌≡◌, refl, length, arith, none, some, Option, subst, sym}
use taraxa_evm.Vm.Env.{Env}
use taraxa_evm.Vm.Machine.{Machine, M, ◌>>=◌, Outcome, pure}
use taraxa_evm.Vm.Stack.{back}
use taraxa_evm.Vm.MemorySize.{
  range_at, memory_call, memory_call_data_copy, memory_code_copy, memory_create, memory_create2,
  memory_delegate_call, memory_ext_code_copy, memory_keccak256, memory_log, memory_mcopy,
  memory_mload, memory_mstore, memory_mstore8, memory_return, memory_return_data_copy,
  memory_revert, memory_static_call,
}
use taraxa_evm.Vm.OpCode.{OpCode}
use taraxa_evm.Vm.JumpTable.{operation_of}
use taraxa_evm.Vm.Effect.Rules.{Ends, Ends-bind}
use taraxa_evm.Vm.Effect.Prices.{back-Ends}
use taraxa_evm.Vm.Effect.Table.{pops}

-- The machine stays.
abbrev pub Stays : {W A : Type 0} → Machine W → Outcome W A → Type 0
Stays m = Ends m.gas (λ _ m'. m' ≡ m)

-- The rule for a sequence whose first part leaves the machine alone.
module _ {W A B : Type 0} (Q : B → Machine W → Type 0) (c : M W A) (k : A → M W B)
    (m : Machine W) where
  pub Ends-stay :
      (R : A → Type 0)
      → Ends m.gas (λ a m'. (m' ≡ m) × R a) (c m)
      → ((a : A) → R a → Ends m.gas Q (k a m))
      → Ends m.gas Q ((c >>= k) m)
  Ends-stay R h next =
      Ends-bind m.gas m.gas (omega arith) (λ a m'. (m' ≡ m) × R a) Q (c m) k h
        (λ a m' (same, r). subst (λ m''. Ends m.gas Q (k a m'')) (sym same) (next a r))

  pub Ends-quiet : Stays m (c m) → ((a : A) → Ends m.gas Q (k a m)) → Ends m.gas Q ((c >>= k) m)
  Ends-quiet h next =
      Ends-bind m.gas m.gas (omega arith) (λ _ m'. m' ≡ m) Q (c m) k h
        (λ a m' same. subst (λ m''. Ends m.gas Q (k a m'')) (sym same) (next a))

pub Stays-bind :
    {W A B : Type 0} (c : M W A) (k : A → M W B) (m : Machine W)
    → Stays m (c m)
    → ((a : A) → Stays m (k a m))
    → Stays m ((c >>= k) m)
Stays-bind c k m h next = Ends-quiet (λ _ m'. m' ≡ m) c k m h next

module _ (env : Env) (m : Machine (env.World)) where
  range_at-Stays :
      (i j : ℕ) → i < length m.stack → j < length m.stack → Stays m (range_at env.u256 i j m)
  unfolding range_at
  range_at-Stays i j hi hj =
      Stays-bind (back i) _ m (back-Ends env i m hi)
        (λ off. Stays-bind (back j) _ m (back-Ends env j m hj) (λ l. refl))

  top-Stays : (f : ℕ → ℕ) → 1 ≤ length m.stack → Stays m ((back 0 >>= λ x. pure (f x)) m)
  top-Stays f h = Stays-bind (back 0) _ m (back-Ends env 0 m h) (λ off. refl)

  two-Stays :
      (i j k l : ℕ) (f : ℕ → ℕ → ℕ)
      → i < length m.stack
      → j < length m.stack
      → k < length m.stack
      → l < length m.stack
      → Stays m ((range_at env.u256 i j >>= λ x. range_at env.u256 k l >>= λ y. pure (f x y)) m)
  two-Stays i j k l f hi hj hk hl =
      Stays-bind (range_at env.u256 i j) _ m (range_at-Stays i j hi hj)
        (λ x. Stays-bind (range_at env.u256 k l) _ m (range_at-Stays k l hk hl) (λ y. refl))

  memory_mcopy-Stays : 3 ≤ length m.stack → Stays m (memory_mcopy env.u256 m)
  unfolding memory_mcopy
  memory_mcopy-Stays h = Stays-bind (back 0) _ m (back-Ends env 0 m (omega arith)) (λ dst.
      Stays-bind (back 1) _ m (back-Ends env 1 m (omega arith))
        (λ src. Stays-bind (back 2) _ m (back-Ends env 2 m (omega arith)) (λ l. refl)))

  -- An operation's own reading of the stack.
  abbrev pub Reads : Option (M (env.World) ℕ) → Type 0
  Reads none = Unit
  Reads (some size) = Stays m (size m)

  pub memory_size-Stays :
      (code : OpCode) → pops code ≤ length m.stack → Reads ((operation_of env code).memory_size)
  unfolding operation_of memory_call memory_call_data_copy memory_code_copy memory_create
      memory_create2 memory_delegate_call memory_ext_code_copy memory_keccak256 memory_log
      memory_mload memory_mstore memory_mstore8 memory_return memory_return_data_copy memory_revert
      memory_static_call
  memory_size-Stays OpCode.stop h = tt
  memory_size-Stays OpCode.add h = tt
  memory_size-Stays OpCode.mul h = tt
  memory_size-Stays OpCode.sub h = tt
  memory_size-Stays OpCode.div h = tt
  memory_size-Stays OpCode.sdiv h = tt
  memory_size-Stays OpCode.modulo h = tt
  memory_size-Stays OpCode.smod h = tt
  memory_size-Stays OpCode.addmod h = tt
  memory_size-Stays OpCode.mulmod h = tt
  memory_size-Stays OpCode.exp h = tt
  memory_size-Stays OpCode.signextend h = tt
  memory_size-Stays OpCode.lt h = tt
  memory_size-Stays OpCode.gt h = tt
  memory_size-Stays OpCode.slt h = tt
  memory_size-Stays OpCode.sgt h = tt
  memory_size-Stays OpCode.eq h = tt
  memory_size-Stays OpCode.iszero h = tt
  memory_size-Stays OpCode.and h = tt
  memory_size-Stays OpCode.or h = tt
  memory_size-Stays OpCode.xor h = tt
  memory_size-Stays OpCode.not h = tt
  memory_size-Stays OpCode.byte h = tt
  memory_size-Stays OpCode.shl h = tt
  memory_size-Stays OpCode.shr h = tt
  memory_size-Stays OpCode.sar h = tt
  memory_size-Stays OpCode.keccak256 h = range_at-Stays 0 1 (omega (arith, h)) (omega (arith, h))
  memory_size-Stays OpCode.address h = tt
  memory_size-Stays OpCode.balance h = tt
  memory_size-Stays OpCode.origin h = tt
  memory_size-Stays OpCode.caller h = tt
  memory_size-Stays OpCode.callvalue h = tt
  memory_size-Stays OpCode.calldataload h = tt
  memory_size-Stays OpCode.calldatasize h = tt
  memory_size-Stays OpCode.calldatacopy h = range_at-Stays 0 2 (omega (arith, h)) (omega (arith, h))
  memory_size-Stays OpCode.codesize h = tt
  memory_size-Stays OpCode.codecopy h = range_at-Stays 0 2 (omega (arith, h)) (omega (arith, h))
  memory_size-Stays OpCode.gasprice h = tt
  memory_size-Stays OpCode.extcodesize h = tt
  memory_size-Stays OpCode.extcodecopy h = range_at-Stays 1 3 (omega (arith, h)) (omega (arith, h))
  memory_size-Stays OpCode.returndatasize h = tt
  memory_size-Stays OpCode.returndatacopy h =
      range_at-Stays 0 2 (omega (arith, h)) (omega (arith, h))
  memory_size-Stays OpCode.extcodehash h = tt
  memory_size-Stays OpCode.blockhash h = tt
  memory_size-Stays OpCode.coinbase h = tt
  memory_size-Stays OpCode.timestamp h = tt
  memory_size-Stays OpCode.number h = tt
  memory_size-Stays OpCode.difficulty h = tt
  memory_size-Stays OpCode.gaslimit h = tt
  memory_size-Stays OpCode.chainid h = tt
  memory_size-Stays OpCode.selfbalance h = tt
  memory_size-Stays OpCode.pop h = tt
  memory_size-Stays OpCode.mload h = top-Stays _ (omega (arith, h))
  memory_size-Stays OpCode.mstore h = top-Stays _ (omega (arith, h))
  memory_size-Stays OpCode.mstore8 h = top-Stays _ (omega (arith, h))
  memory_size-Stays OpCode.sload h = tt
  memory_size-Stays OpCode.sstore h = tt
  memory_size-Stays OpCode.jump h = tt
  memory_size-Stays OpCode.jumpi h = tt
  memory_size-Stays OpCode.pc h = tt
  memory_size-Stays OpCode.msize h = tt
  memory_size-Stays OpCode.gas h = tt
  memory_size-Stays OpCode.jumpdest h = tt
  memory_size-Stays OpCode.tload h = tt
  memory_size-Stays OpCode.tstore h = tt
  memory_size-Stays OpCode.mcopy h = memory_mcopy-Stays h
  memory_size-Stays OpCode.push0 h = tt
  memory_size-Stays (OpCode.push n) h = tt
  memory_size-Stays (OpCode.dup n) h = tt
  memory_size-Stays (OpCode.swap n) h = tt
  memory_size-Stays (OpCode.log n) h = range_at-Stays 0 1 (omega (arith, h)) (omega (arith, h))
  memory_size-Stays OpCode.create h = range_at-Stays 1 2 (omega (arith, h)) (omega (arith, h))
  memory_size-Stays OpCode.call h =
      two-Stays 5 6 3 4 _ (omega (arith, h)) (omega (arith, h)) (omega (arith, h))
        (omega (arith, h))
  memory_size-Stays OpCode.callcode h =
      two-Stays 5 6 3 4 _ (omega (arith, h)) (omega (arith, h)) (omega (arith, h))
        (omega (arith, h))
  memory_size-Stays OpCode.return h = range_at-Stays 0 1 (omega (arith, h)) (omega (arith, h))
  memory_size-Stays OpCode.delegatecall h =
      two-Stays 4 5 2 3 _ (omega (arith, h)) (omega (arith, h)) (omega (arith, h))
        (omega (arith, h))
  memory_size-Stays OpCode.create2 h = range_at-Stays 1 2 (omega (arith, h)) (omega (arith, h))
  memory_size-Stays OpCode.staticcall h =
      two-Stays 4 5 2 3 _ (omega (arith, h)) (omega (arith, h)) (omega (arith, h))
        (omega (arith, h))
  memory_size-Stays OpCode.revert h = range_at-Stays 0 1 (omega (arith, h)) (omega (arith, h))
  memory_size-Stays OpCode.selfdestruct h = tt
