-- ===== src/Dpos/Accounts/Changed.antt =====
-- Stakes and totals at the steps that change one of them.
use taraxa_evm.Prelude.{
  ℕ, ◌+◌, ◌≡◌, Bool, ◌&&◌, ◌==◌, Option, none, some, List, arith, inl, inr, Bool-cases, ==→eq, not,
}
use taraxa_evm.Dpos.State.{
  Config, State, Validator, ValidatorRewards, Delegation, DposError, Call, Dpos, M, ◌>>=◌, ◌>>◌,
  pure, fail, gets, some_or, some_or_panic, is_on_magnolia_hardfork,
}
use taraxa_evm.Dpos.Validators.{modify_validator, delete_validator}
use taraxa_evm.Dpos.Delegations.{
  get_delegation, modify_delegation, create_delegation, remove_delegation, delegation_exists,
  save_delegation, set_validators,
}
use taraxa_evm.Dpos.Collections.{create_in, remove_in}
use taraxa_evm.Dpos.Stake.Common.{add_stake, reduce_delegation, save_all}
use taraxa_evm.Dpos.Stake.{delete_or_save}
use taraxa_evm.Dpos.Errors.Steps.{getters}
use taraxa_evm.Dpos.Meets.{
  Meets, Ensures, keeps_rules, Meets-step, Meets-then, Meets-seq, Meets-Keeps, Meets-modify,
  Keeps-Reads,
}
use taraxa_evm.Dpos.Accounts.{stake_of, Shows, total-encode, with_stake, with_total}
use taraxa_evm.Dpos.Accounts.Kept.{Keeps-state_put, Keeps-claim, Keeps-modify_rewards}

module _ (S : ℕ → ℕ → ℕ) (T : ℕ → ℕ) where
  modify_delegation-stake :
      (d v : ℕ) (o : Delegation)
      → Meets (Shows S T) (modify_delegation d v o) (λ u s. Shows (with_stake S d v o.stake) T s)
  unfolding modify_delegation delegation_exists
  modify_delegation-stake d v o = Meets-step _ _ (Keeps-Reads _ (search getters)) (λ known.
      Meets-then _ _ (Keeps-Reads _ (search getters))
        (Meets-modify _ (λ s p. (λ x y. ground (arith, p.0 x y), p.1))))

  -- The entry of a delegation, and then the delegator's list.
  entry_then_list :
      (d v : ℕ) (o : Option Delegation) (f : List ℕ → Option (List ℕ))
      → Meets
          (Shows S T)
          (save_delegation d v o
            >> (gets (λ s. s.delegator_validators d) >>= λ list.
                some_or_panic (f list) >>= λ list'. set_validators d list'))
          (λ u s. Shows (with_stake S d v (stake_of o)) T s)
  entry_then_list d v o f =
      Meets-seq _ _ (Meets-modify _ (λ s p. (λ x y. ground (arith, p.0 x y), p.1)))
        (Meets-Keeps _ (search (keeps_rules, getters) depth 20))

  create_delegation-stake :
      (d v b n : ℕ)
      → Meets (Shows S T) (create_delegation d v b n) (λ u s. Shows (with_stake S d v n) T s)
  unfolding create_delegation
  create_delegation-stake d v b n =
      entry_then_list d v (some (record { stake = n; last_updated = b })) (create_in v)

  remove_delegation-stake :
      (d v : ℕ) → Meets (Shows S T) (remove_delegation d v) (λ u s. Shows (with_stake S d v 0) T s)
  unfolding remove_delegation
  remove_delegation-stake d v = entry_then_list d v none (remove_in v)

  modify_validator-total :
      (e : Bool) (v : ℕ) (val : Validator)
      → Meets
          (Shows S T)
          (modify_validator e v val)
          (λ u s. Shows S (with_total T v val.total_stake) s)
  unfolding modify_validator
  modify_validator-total e v val = Meets-step _ _ (Keeps-Reads _ (search getters)) (λ known.
      Meets-then _ _ (Keeps-Reads _ (search getters))
        (Meets-modify _ (λ s p. (p.0, λ y. ground (arith, p.1 y, total-encode e val)))))

  pub add_stake-stake :
      (cfg : Config) (ctx : Call) (v n : ℕ) (state : State) (o : Option Delegation)
      → stake_of o ≡ S ctx.caller v
      → Meets
          (Shows S T)
          (add_stake cfg ctx v n state o)
          (λ u s. Shows (with_stake S ctx.caller v (S ctx.caller v + n)) T s)
  unfolding add_stake
  add_stake-stake cfg ctx v n state none e =
      let z : S ctx.caller v + n ≡ n = omega arith in
      rw z (create_delegation-stake ctx.caller v ctx.block n)
  add_stake-stake cfg ctx v n state (some d) e =
      Meets-then _ _ (Keeps-claim S T cfg ctx v state d) (
        rw (← e) (
          modify_delegation-stake ctx.caller v
            (record { stake = d.stake + n; last_updated = ctx.block })))

  pub save_all-total :
      (cfg : Config) (ctx : Call) (v : ℕ) (state : State) (val : Validator) (r : ValidatorRewards)
      → Meets
          (Shows S T)
          (save_all cfg ctx v state val r)
          (λ u s. Shows S (with_total T v val.total_stake) s)
  unfolding save_all
  save_all-total cfg ctx v state val r =
      Meets-then _ _ (Keeps-state_put S T v ctx.block (some state)) (
        Meets-seq _ _ (modify_validator-total _ v val)
          (Meets-Keeps _ (Keeps-modify_rewards S (with_total T v val.total_stake) v r)))

  found_delegation :
      (o : Option Delegation) (d v : ℕ) (s : Dpos) (e : DposError) {B : Type 0}
      {Q : B → Dpos → Type 0} (k : Delegation → M B)
      → stake_of o ≡ S d v
      → Shows S T s
      → ((x : Delegation) → x.stake ≡ S d v → Meets (Shows S T) (k x) Q)
      → Ensures Q ((some_or o e >>= k) s)
  unfolding some_or pure fail ◌>>=◌
  found_delegation none d v s e k t p h = tt
  found_delegation (some x) d v s e k t p h = (h x t).at s p

  pub get_delegation-some :
      (d v : ℕ) (e : DposError) {B : Type 0} {Q : B → Dpos → Type 0} (k : Delegation → M B)
      → ((x : Delegation) → x.stake ≡ S d v → Meets (Shows S T) (k x) Q)
      → Meets (Shows S T) (get_delegation d v >>= λ o. some_or o e >>= k) Q
  unfolding get_delegation gets ◌>>=◌
  get_delegation-some d v e k h = record {
    at = λ s p. found_delegation (s.delegation d v) d v s e k (p.0 d v) p h;
  }

  pub reduce-stake :
      (ctx : Call) (v n : ℕ) (state : State)
      → Meets
          (Shows S T)
          (reduce_delegation ctx v n state)
          (λ r s. Shows (with_stake S ctx.caller v n) T s)
  unfolding reduce_delegation pure
  reduce-stake ctx v n state = elim (Bool-cases (n == 0)) [
    | inl z ↦ rw z (
        Meets-seq _ _ (rw (==→eq n 0 z) (remove_delegation-stake ctx.caller v))
          (record { at = λ s p. p }))
    | inr z ↦ rw z (
        Meets-seq _ _
          (modify_delegation-stake ctx.caller v (record { stake = n; last_updated = ctx.block }))
          (record { at = λ s p. p }))
  ]

  delete_validator-total :
      (v : ℕ) → Meets (Shows S T) (delete_validator v) (λ u s. Shows S (with_total T v 0) s)
  unfolding delete_validator
  delete_validator-total v =
      Meets-seq _ _ (Meets-modify _ (λ s p. (p.0, λ y. ground (arith, p.1 y))))
        (Meets-Keeps _ (search (keeps_rules, getters) depth 20))

  pub delete_or_save-total :
      (cfg : Config) (ctx : Call) (v : ℕ) (state : State) (val : Validator) (r : ValidatorRewards)
      → Meets
          (Shows S T)
          (delete_or_save cfg ctx v state val r)
          (λ u s. Shows S (with_total T v val.total_stake) s)
  unfolding delete_or_save
  delete_or_save-total cfg ctx v state val r =
      let gone =
        not (is_on_magnolia_hardfork cfg ctx.block)
        && (val.total_stake == 0)
        && (r.commission_rewards_pool == 0) in
      elim (Bool-cases gone) [
        | inl t ↦
            let z : val.total_stake ≡ 0 = ground arith in
            rw t (
              Meets-seq _ _ (rw z (delete_validator-total v)) (
                Meets-Keeps _
                  (Keeps-state_put S (with_total T v val.total_stake) v ctx.block none)))
        | inr t ↦ rw t (save_all-total cfg ctx v state val r)
      ]
