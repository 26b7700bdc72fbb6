-- ===== src/Dpos/Stuck.antt =====
-- `redelegate` and a later `delegate` of dpos_contract.go, at a validator with pending
-- undelegations that the whole stake leaves.
mod Others
use taraxa_evm.Prelude.{ℕ, ◌-◌, ◌≡◌, ◌≢◌, refl, ap, subst, true, Option, none, some, arith, leb}
use mathlib.Core.Option
use taraxa_evm.Dpos.State.{
  Config, State, stored, Validator, ValidatorRewards, Delegation, Call, Dpos, done, ◌>>=◌, ◌>>◌,
  pure, panic, modify, assert, gets, some_or, some_or_panic, is_on_magnolia_hardfork,
  is_on_ficus_hardfork,
}
use taraxa_evm.Dpos.Validators.{
  get_validator, decode_validator, get_validator_rewards, modify_validator, validator_exists,
  encode_validator,
}
use taraxa_evm.Dpos.Delegations.{get_delegation}
use taraxa_evm.Dpos.Rewards.{
  state_get, state_get_and_decrement, current_state, claim_delegation, Current,
}
use taraxa_evm.Dpos.Stake.Common.{reduce_delegation}
use taraxa_evm.Dpos.Stake.{recount, delegate}
use taraxa_evm.Dpos.Redelegate.{leave_validator, redelegate_from, redelegate}
use taraxa_evm.Dpos.Errors.Steps.{getters}
use taraxa_evm.Dpos.Meets.{
  Meets, Meets-bind, Meets-known, Meets-step, Meets-then, Meets-seq, Meets-Keeps, Meets-pure_fact,
  Meets-pre, Ensures, Keeps-Reads,
}
use taraxa_evm.Dpos.Stuck.Others.{
  Left, Keeps-redelegate_to, Keeps-decrement, Keeps-add_log, Keeps-claim, Keeps-recount,
  Keeps-reduce,
}

module _ (cfg : Config) (ctx : Call) (v c : ℕ) (val : Validator) (d : Delegation)
    (r : ValidatorRewards) (magnolia : is_on_magnolia_hardfork cfg ctx.block ≡ true)
    (ficus : is_on_ficus_hardfork cfg ctx.block ≡ true) (pending : val.undelegations_count ≢ 0)
    (no_commission : r.commission_rewards_pool ≡ 0) (whole : d.stake ≡ val.total_stake) where
  -- The validator as it is saved.
  abbrev left : Validator
  left = record val { total_stake = val.total_stake - val.total_stake; last_updated = ctx.block }

  abbrev Before : Dpos → Type 0
  Before s =
      Left v ctx.block c (stored val) s
      × (s.delegation ctx.caller v ≡ some d)
      × (s.validator_rewards v ≡ some r)

  -- The new state of this block.
  current-Left :
      Meets (Left v ctx.block c (stored val)) (current_state cfg ctx.block v none val r) (λ k s.
        ((k.validator ≡ record val { last_updated = ctx.block })
          × (k.rewards ≡ record r { rewards_pool = 0 }))
        × Left v ctx.block c (stored val) s)
  unfolding current_state pure
  current-Left =
      Meets-step _ _ (Keeps-decrement v ctx.block c (stored val) v val.last_updated)
        (λ old. record { at = λ s p. ((refl, refl), p) })

  leave-left :
      (state : State)
      → Meets
          (Left v ctx.block c (stored val))
          (leave_validator cfg ctx v state left (record r { rewards_pool = 0 }))
          (λ u s. Left v ctx.block c (stored left) s)
  unfolding leave_validator modify_validator validator_exists assert modify gets ◌>>=◌ ◌>>◌ pure
      panic encode_validator
  leave-left state = record { at = λ s p. ground arith }

  -- The part of the redelegation after the new state of this block.
  after_current :
      (k : Current) (p amount : ℕ)
      → (k.validator ≡ record val { last_updated = ctx.block })
        × (k.rewards ≡ record r { rewards_pool = 0 })
      → amount ≡ val.total_stake
      → Meets
          (Left v ctx.block c (stored val))
          (claim_delegation cfg ctx v k.state d
            >> (assert (leb amount val.total_stake)
                >> (reduce_delegation ctx v (d.stake - amount) k.state >>= λ state.
                    leave_validator cfg ctx v state
                      (record k.validator { total_stake = val.total_stake - amount })
                      k.rewards
                    >> recount cfg ctx p (val.total_stake - amount))))
          (λ u s. Left v ctx.block c (stored left) s)
  after_current k p amount e all =
      rw (e.0, e.1, all)
        (Meets-then _ _ (Keeps-claim v ctx.block c (stored val) cfg ctx v k.state d) (
          Meets-then _ _ (Keeps-Reads _ (search getters)) (
            Meets-step _ _ (Keeps-reduce v ctx.block c (stored val) ctx v _ k.state) (λ state.
              Meets-seq _ _ (leave-left state)
                (Meets-Keeps _ (Keeps-recount v ctx.block c (stored left) cfg ctx p _))))))

  redelegate_from-left :
      (p amount : ℕ)
      → amount ≡ val.total_stake
      → Meets Before
          (redelegate_from cfg ctx v amount val r p)
          (λ u s. Left v ctx.block c (stored left) s)
  unfolding redelegate_from get_delegation gets some_or state_get pure
  redelegate_from-left p amount all =
      Meets-known _ _ (some d) (λ s h. rw h.1 refl)
        (Meets-known _ _ d (λ s h. refl)
          (Meets-then _ _ (Keeps-Reads _ (search getters)) (
            Meets-known _ _ none (λ s h. rw h.0.0 refl)
              (Meets-bind _ _ (Meets-pre _ (λ s h. h.0) current-Left)
                (λ k. Meets-pure_fact _ (λ e. after_current k p amount e all))))))

  get_validator-known :
      (st : Validator) (s : Dpos)
      → s.validator v ≡ some (stored st)
      → get_validator v s ≡ done (some st) s
  unfolding get_validator gets decode_validator
  get_validator-known st s h = ap (λ o. done (Option.map decode_validator o) s) h

  get_rewards-known :
      (s : Dpos) → s.validator_rewards v ≡ some r → get_validator_rewards v s ≡ done r s
  unfolding get_validator_rewards gets ◌>>=◌ some_or_panic pure
  get_rewards-known s h = ground arith

  redelegate-left :
      (to amount : ℕ)
      → to ≢ v
      → amount ≡ val.total_stake
      → Meets Before (redelegate cfg ctx v to amount) (λ u s. Left v ctx.block c (stored left) s)
  unfolding redelegate some_or pure
  redelegate-left to amount other all = Meets-then _ _ (Keeps-Reads _ (search getters)) (
      Meets-then _ _ (Keeps-Reads _ (search getters)) (
        Meets-known _ _ (some val) (λ s h. get_validator-known val s h.0.2)
          (Meets-known _ _ val (λ s h. refl)
            (Meets-known _ _ r (λ s h. get_rewards-known s h.2)
              (Meets-step _ _ (Keeps-Reads _ (search getters)) (λ found.
                Meets-step _ _ (Keeps-Reads _ (search getters)) (λ val_to.
                  Meets-step _ _ (Keeps-Reads _ (search getters)) (λ rewards_to.
                    Meets-then _ _ (Keeps-Reads _ (search getters)) (
                      Meets-step _ _ (Keeps-Reads _ (search getters)) (λ p.
                        Meets-step _ _ (Keeps-Reads _ (search getters)) (λ q.
                          Meets-seq _ _ (redelegate_from-left p amount all) (
                            Meets-then _ _
                              (Keeps-redelegate_to v ctx.block c (stored left) to other cfg ctx
                                amount val_to rewards_to q)
                              (Meets-Keeps _
                                (Keeps-add_log v ctx.block c (stored left) _))))))))))))))

  decrement-never :
      Meets (Left v ctx.block c (stored left)) (state_get_and_decrement v ctx.block) (λ k s. ⊥)
  unfolding state_get_and_decrement state_get gets ◌>>=◌ some_or_panic panic
  decrement-never = record { at = λ s p. ground arith }

  current-never :
      (rewards : ValidatorRewards)
      → Meets
          (Left v ctx.block c (stored left))
          (current_state cfg c v none left rewards)
          (λ k s. ⊥)
  unfolding current_state
  current-never rewards = Meets-bind _ _ decrement-never (λ k. record { at = λ s p. absurd p })

  delegate-never :
      (later : Call)
      → later.block ≡ c
      → Meets (Left v ctx.block c (stored left)) (delegate cfg later v) (λ u s. ⊥)
  unfolding delegate some_or state_get gets pure
  delegate-never later at =
      Meets-known _ _ (some left) (λ s h. get_validator-known left s h.2)
        (Meets-known _ _ left (λ s h. refl)
          (Meets-step _ _ (Keeps-Reads _ (search getters)) (λ rewards.
            Meets-then _ _ (Keeps-Reads _ (search getters)) (
              Meets-step _ _ (Keeps-Reads _ (search getters)) (λ found.
                Meets-then _ _ (Keeps-Reads _ (search getters)) (
                  Meets-known _ _ none (λ s h. rw (at, h.1) refl)
                    (rw at (
                      Meets-bind _ _ (current-never rewards)
                        (λ k. record { at = λ s p. absurd p })))))))))

-- Take a call of redelegate after the magnolia and ficus hardforks that moves the whole stake of a
-- validator, which its caller alone has delegated, to another validator, where the validator has
-- pending undelegations and no commission rewards, and no state of it is saved at the block of the
-- call or at a later call's. If the redelegation returns without error and the later call delegates
-- to the validator, then that call does not return without error either.
pub redelegate-delegate-never :
    (cfg : Config) (ctx later : Call) (v to amount : ℕ) (val : Validator) (d : Delegation)
    (r : ValidatorRewards) (s s' : Dpos)
    → is_on_magnolia_hardfork cfg ctx.block ≡ true
    → is_on_ficus_hardfork cfg ctx.block ≡ true
    → s.validator v ≡ some (stored val)
    → s.delegation ctx.caller v ≡ some d
    → s.validator_rewards v ≡ some r
    → s.state v ctx.block ≡ none
    → s.state v later.block ≡ none
    → val.undelegations_count ≢ 0
    → r.commission_rewards_pool ≡ 0
    → d.stake ≡ val.total_stake
    → amount ≡ val.total_stake
    → to ≢ v
    → (redelegate cfg ctx v to amount >> delegate cfg later v) s ≢ done tt s'
redelegate-delegate-never cfg ctx later v to amount val d r s s' m f hv hd hr hb hc pend zero_left
      whole all other e =
    let never =
      Meets-seq _ _
        (redelegate-left cfg ctx v later.block val d r m f pend zero_left whole to amount other all)
        (delegate-never cfg ctx v later.block val d r m f pend zero_left whole later refl) in
    subst (Ensures (λ u t. ⊥)) e (never.at s ((hb, hc, hv), hd, hr))
