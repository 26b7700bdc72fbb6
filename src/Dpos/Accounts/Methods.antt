-- ===== src/Dpos/Accounts/Methods.antt =====
-- The stakes and totals after the methods of dpos_contract.go that move stakes.
use taraxa_evm.Prelude.{ℕ, ◌+◌, ◌-◌, ◌≤◌, ◌≡◌, refl, ◌∙◌, ap, Bool, true, false, arith}
use taraxa_evm.Dpos.State.{Config, State, Validator, ValidatorRewards, Call, M, pure, ◌>>=◌, ◌>>◌}
use taraxa_evm.Dpos.Stake.{
  delegate, delegate_update_values, undelegate, reduced, recount, delete_or_save,
  create_undelegation, require_no_undelegation,
}
use taraxa_evm.Dpos.Votes.{sub_amount_delegated}
use taraxa_evm.Dpos.Errors.{Reads}
use taraxa_evm.Dpos.Stake.Common.{save_all, reduce_delegation, leaves_enough}
use taraxa_evm.Dpos.Errors.Steps.{getters}
use taraxa_evm.Dpos.Meets.{
  Meets, Keeps, Meets-bind, Meets-step, Meets-then, Meets-seq, Meets-Keeps, Meets-pure_fact,
  Keeps-Reads, Meets-require, Meets-assert, Meets-fact,
}
use taraxa_evm.Dpos.Accounts.{Shows, with_stake, with_total}
use taraxa_evm.Dpos.Accounts.Kept.{
  get_validator-total, get_delegation-stake, current-total, Keeps-add_amount, Keeps-recount,
  Keeps-add_log, Keeps-claim, Keeps-sub_amount, Keeps-create_undelegation,
}
use taraxa_evm.Dpos.Accounts.Changed.{
  add_stake-stake, save_all-total, get_delegation-some, reduce-stake, delete_or_save-total,
}

module _ (cfg : Config) (ctx : Call) (S : ℕ → ℕ → ℕ) (T : ℕ → ℕ) where
  update_values-total :
      (val : Validator) (p : ℕ)
      → Meets
          (Shows S T)
          (delegate_update_values cfg ctx val p)
          (λ val' s. (val'.total_stake ≡ val.total_stake + ctx.value) × Shows S T s)
  unfolding delegate_update_values pure
  update_values-total val p =
      Meets-then _ _ (Keeps-add_amount S T ctx.value)
        (Meets-then _ _ (Keeps-recount S T cfg ctx p _) (record { at = λ s h. (refl, h) }))

  -- The validator is saved with a total, and a log is added.
  save_and_log :
      (v n : ℕ) (state : State) (val : Validator) (r : ValidatorRewards) (log : M (Unit {0}))
      → val.total_stake ≡ n
      → Keeps (Shows S (with_total T v n)) log
      → Meets
          (Shows S T)
          (save_all cfg ctx v state val r >> log)
          (λ u s. Shows S (with_total T v n) s)
  save_and_log v n state val r log e k =
      Meets-seq _ _ (rw (← e) (save_all-total S T cfg ctx v state val r)) (Meets-Keeps _ k)

module _ (cfg : Config) (ctx : Call) (S : ℕ → ℕ → ℕ) (T : ℕ → ℕ) (v : ℕ) where
  pub delegate-Meets : Meets (Shows S T) (delegate cfg ctx v) (λ u s.
      Shows
        (with_stake S ctx.caller v (S ctx.caller v + ctx.value))
        (with_total T v (T v + ctx.value))
        s)
  unfolding delegate
  delegate-Meets =
      let S' = with_stake S ctx.caller v (S ctx.caller v + ctx.value) in
      get_validator-total S T v _ _ (λ val e. Meets-step _ _ (Keeps-Reads _ (search getters)) (λ r.
        Meets-then _ _ (Keeps-Reads _ (search getters)) (
          get_delegation-stake S T ctx.caller v _ (λ o eo.
            Meets-then _ _ (Keeps-Reads _ (search getters)) (
              Meets-step _ _ (Keeps-Reads _ (search getters)) (λ known.
                Meets-bind _ _ (current-total S T cfg ctx.block v known val r) (λ k.
                  Meets-pure_fact _ (λ ek. Meets-step _ _ (Keeps-Reads _ (search getters)) (λ p.
                    Meets-seq _ _ (add_stake-stake S T cfg ctx v ctx.value k.state o eo) (
                      Meets-bind _ _ (update_values-total cfg ctx S' T k.validator p) (λ val'.
                        Meets-pure_fact _ (λ ev.
                          save_and_log cfg ctx S' T v (T v + ctx.value) _ val' k.rewards _
                            (ev ∙ ap (λ n. n + ctx.value) (ek ∙ e))
                            (Keeps-add_log S' (with_total T v (T v + ctx.value)) _)))))))))))))

  reduced-total :
      (val : Validator) (amount : ℕ)
      → Meets (Shows S T) (reduced cfg val amount) (λ val' s.
        ((amount ≤ val.total_stake) × (val'.total_stake ≡ val.total_stake - amount)) × Shows S T s)
  unfolding reduced pure
  reduced-total val amount =
      Meets-assert _ _ (λ h. record { at = λ s p. ((ground arith, refl), p) })

  -- The steps after the rewards are claimed, from the values that were read.
  abbrev rest_of_undelegate :
      (amount : ℕ) → (v2 : Bool) → (stake : ℕ) → State → Validator → ValidatorRewards → ℕ → M ℕ
  rest_of_undelegate amount v2 stake state val r p = reduced cfg val amount >>= λ val'.
      reduce_delegation ctx v (stake - amount) state >>= λ state'.
      sub_amount_delegated amount
      >> (recount cfg ctx p val'.total_stake
          >> (delete_or_save cfg ctx v state' val' r >> create_undelegation cfg ctx v amount v2))

  rest-Meets :
      (amount : ℕ) (v2 : Bool) (stake : ℕ) (state : State) (val : Validator) (r : ValidatorRewards)
      (p : ℕ)
      → stake ≡ S ctx.caller v
      → val.total_stake ≡ T v
      → amount ≤ stake
      → Meets (Shows S T) (rest_of_undelegate amount v2 stake state val r p) (λ id s.
        ((amount ≤ S ctx.caller v) × (amount ≤ T v))
        × Shows
            (with_stake S ctx.caller v (S ctx.caller v - amount))
            (with_total T v (T v - amount))
            s)
  rest-Meets amount v2 stake state val r p es et fits =
      let S' = with_stake S ctx.caller v (S ctx.caller v - amount) in
      let T' = with_total T v (T v - amount) in
      Meets-bind _ _ (reduced-total val amount) (λ val'. Meets-pure_fact _ (λ facts.
        let left : val'.total_stake ≡ T v - amount = facts.1 ∙ ap (λ n. n - amount) et in
        let both : (amount ≤ S ctx.caller v) × (amount ≤ T v) =
          (rw (← es) fits, rw (← et) (facts.0)) in
        Meets-bind _ _ (rw (← es) (reduce-stake S T ctx v (stake - amount) state)) (λ state'.
          Meets-then _ _ (Keeps-sub_amount S' T amount) (
            Meets-then _ _ (Keeps-recount S' T cfg ctx p _) (
              Meets-seq _ _ (rw (← left) (delete_or_save-total S' T cfg ctx v state' val' r))
                (Meets-fact _ both (Keeps-create_undelegation S' T' cfg ctx v amount v2)))))))

  no_undelegation-Reads : (b : Bool) → Reads (require_no_undelegation cfg ctx v b)
  no_undelegation-Reads true = search getters
  no_undelegation-Reads false = search getters depth 20

  -- What is left of the delegation and of the validator's total; both were at least the amount.
  pub undelegate-Meets :
      (amount : ℕ) (v2 : Bool)
      → Meets (Shows S T) (undelegate cfg ctx v amount v2) (λ id s.
        ((amount ≤ S ctx.caller v) × (amount ≤ T v))
        × Shows
            (with_stake S ctx.caller v (S ctx.caller v - amount))
            (with_total T v (T v - amount))
            s)
  unfolding undelegate leaves_enough
  undelegate-Meets amount v2 = Meets-then _ _ (Keeps-Reads _ (no_undelegation-Reads v2)) (
      get_validator-total S T v _ _ (λ val e. Meets-step _ _ (Keeps-Reads _ (search getters)) (λ r.
        get_delegation-some S T ctx.caller v _ _ (λ d ed. Meets-require _ _ _ (λ fits.
          Meets-step _ _ (Keeps-Reads _ (search getters)) (λ p.
            Meets-step _ _ (Keeps-Reads _ (search getters)) (λ known.
              Meets-bind _ _ (current-total S T cfg ctx.block v known val r) (λ k.
                Meets-pure_fact _ (λ ek. Meets-then _ _ (Keeps-claim S T cfg ctx v k.state d) (
                  rest-Meets amount v2 d.stake k.state k.validator k.rewards p ed (ek ∙ e)
                    (ground arith)))))))))))
