-- ===== src/Dpos/Accounts/Sums.antt =====
-- The stakes that are delegated to a validator and its total stake, over `delegate` and `undelegate`
-- of dpos_contract.go.
use taraxa_evm.Prelude.{
  ℕ, suc, ◌+◌, ◌-◌, ◌≤◌, ◌≡◌, ◌≢◌, refl, subst, Bool, ◌&&◌, ◌==◌, if◌then◌else◌, List, [], ◌∷◌,
  arith,
}
use taraxa_evm.Dpos.State.{Config, Call, Dpos, done}
use taraxa_evm.Dpos.Stake.{delegate, undelegate}
use taraxa_evm.Dpos.Meets.{Ensures}
use taraxa_evm.Dpos.Accounts.{Shows, stake_of, total_of, with_stake, with_total}
use taraxa_evm.Dpos.Accounts.Methods.{delegate-Meets, undelegate-Meets}

abbrev pub stakes : Dpos → ℕ → ℕ → ℕ
stakes s d v = stake_of (s.delegation d v)

abbrev pub totals : Dpos → ℕ → ℕ
totals s v = total_of (s.validator v)

unfoldable pub sum_stakes : (ℕ → ℕ → ℕ) → (v : ℕ) → List ℕ → ℕ
sum_stakes S v [] = 0
sum_stakes S v (d ∷ ds) = S d v + sum_stakes S v ds

-- How often an account is in a list.
abbrev pub occurrences : ℕ → List ℕ → ℕ
occurrences d [] = 0
occurrences d (x ∷ xs) = if d == x then suc (occurrences d xs) else occurrences d xs

-- The total of each validator is the sum of its stakes over the accounts.
abbrev pub Balanced : List ℕ → Dpos → Type 0
Balanced accounts s = (v : ℕ) → totals s v ≡ sum_stakes (stakes s) v accounts

sum_stakes_ext :
    (S S' : ℕ → ℕ → ℕ) (v : ℕ) (ds : List ℕ)
    → ((d w : ℕ) → S d w ≡ S' d w)
    → sum_stakes S v ds ≡ sum_stakes S' v ds
unfolding sum_stakes
sum_stakes_ext S S' v [] h = refl
sum_stakes_ext S S' v (d ∷ ds) h = omega (arith, h d v, sum_stakes_ext S S' v ds h)

sum-with_stake_other :
    (S : ℕ → ℕ → ℕ) (c v n w : ℕ) (ds : List ℕ)
    → v ≢ w
    → sum_stakes (with_stake S c v n) w ds ≡ sum_stakes S w ds
unfolding sum_stakes
sum-with_stake_other S c v n w [] h = refl
sum-with_stake_other S c v n w (d ∷ ds) h = ground (arith, sum-with_stake_other S c v n w ds h)

sum-with_stake_absent :
    (S : ℕ → ℕ → ℕ) (c v n : ℕ) (ds : List ℕ)
    → occurrences c ds ≡ 0
    → sum_stakes (with_stake S c v n) v ds ≡ sum_stakes S v ds
unfolding sum_stakes
sum-with_stake_absent S c v n [] h = refl
sum-with_stake_absent S c v n (d ∷ ds) h = ground (arith, sum-with_stake_absent S c v n ds)

sum-with_stake :
    (S : ℕ → ℕ → ℕ) (c v n : ℕ) (ds : List ℕ)
    → occurrences c ds ≡ 1
    → sum_stakes (with_stake S c v n) v ds + S c v ≡ sum_stakes S v ds + n
unfolding sum_stakes
sum-with_stake S c v n [] h = absurd (omega arith)
sum-with_stake S c v n (d ∷ ds) h =
    ground (arith, sum-with_stake S c v n ds, sum-with_stake_absent S c v n ds)

Balanced-after :
    (S : ℕ → ℕ → ℕ) (T : ℕ → ℕ) (c v n m : ℕ) (accounts : List ℕ) (s' : Dpos)
    → occurrences c accounts ≡ 1
    → ((w : ℕ) → T w ≡ sum_stakes S w accounts)
    → T v + n ≡ m + S c v
    → Shows (with_stake S c v n) (with_total T v m) s'
    → Balanced accounts s'
Balanced-after S T c v n m accounts s' once b e h w =
    let same = sum_stakes_ext (stakes s') (with_stake S c v n) w accounts h.0 in
    let at_w = h.1 w in
    ground (
      arith,
      same,
      at_w,
      b w,
      b v,
      sum-with_stake S c v n accounts once,
      sum-with_stake_other S c v n w accounts,
    )

-- A delegation that returns without error adds the value of the call to the stake of the caller's
-- delegation and to the total stake of the validator, and leaves all other stakes and totals.
pub delegate-accounts :
    (cfg : Config) (ctx : Call) (v : ℕ) (s s' : Dpos)
    → delegate cfg ctx v s ≡ done tt s'
    → ((d w : ℕ)
        → stakes s' d w ≡ (
            if (ctx.caller == d) && (v == w)
            then stakes s ctx.caller v + ctx.value
            else stakes s d w))
      × ((w : ℕ) → totals s' w ≡ (if v == w then totals s v + ctx.value else totals s w))
delegate-accounts cfg ctx v s s' r =
    subst
      (Ensures (λ u t.
        Shows (with_stake (stakes s) ctx.caller v (stakes s ctx.caller v + ctx.value))
          (with_total (totals s) v (totals s v + ctx.value)) t))
      r ((delegate-Meets cfg ctx (stakes s) (totals s) v).at s (λ d w. refl, λ w. refl))

-- An undelegation that returns without error takes the amount, which is not more than either, from
-- the stake of the caller's delegation and from the total stake of the validator, and leaves all
-- other stakes and totals.
pub undelegate-accounts :
    (cfg : Config) (ctx : Call) (v amount : ℕ) (v2 : Bool) (s s' : Dpos) (id : ℕ)
    → undelegate cfg ctx v amount v2 s ≡ done id s'
    → ((amount ≤ stakes s ctx.caller v) × (amount ≤ totals s v))
      × (((d w : ℕ)
            → stakes s' d w ≡ (
                if (ctx.caller == d) && (v == w)
                then stakes s ctx.caller v - amount
                else stakes s d w))
          × ((w : ℕ) → totals s' w ≡ (if v == w then totals s v - amount else totals s w)))
undelegate-accounts cfg ctx v amount v2 s s' id r =
    subst
      (Ensures (λ u t.
        ((amount ≤ stakes s ctx.caller v) × (amount ≤ totals s v))
        × Shows (with_stake (stakes s) ctx.caller v (stakes s ctx.caller v - amount))
            (with_total (totals s) v (totals s v - amount)) t))
      r ((undelegate-Meets cfg ctx (stakes s) (totals s) v amount v2).at s (λ d w. refl, λ w. refl))

-- Where the total stake of every validator is the sum of the stakes over a list of accounts that
-- holds the caller once, it is so after a delegation that returns without error.
pub delegate-Balanced :
    (cfg : Config) (ctx : Call) (v : ℕ) (accounts : List ℕ) (s s' : Dpos)
    → occurrences ctx.caller accounts ≡ 1
    → Balanced accounts s
    → delegate cfg ctx v s ≡ done tt s'
    → Balanced accounts s'
delegate-Balanced cfg ctx v accounts s s' once b r =
    Balanced-after (stakes s) (totals s) ctx.caller v _ _ accounts s' once b (omega arith)
      (delegate-accounts cfg ctx v s s' r)

-- The same after an undelegation that returns without error.
pub undelegate-Balanced :
    (cfg : Config) (ctx : Call) (v amount : ℕ) (v2 : Bool) (accounts : List ℕ) (s s' : Dpos)
    (id : ℕ)
    → occurrences ctx.caller accounts ≡ 1
    → Balanced accounts s
    → undelegate cfg ctx v amount v2 s ≡ done id s'
    → Balanced accounts s'
undelegate-Balanced cfg ctx v amount v2 accounts s s' id once b r =
    let (fits, shown) = undelegate-accounts cfg ctx v amount v2 s s' id r in
    Balanced-after (stakes s) (totals s) ctx.caller v _ _ accounts s' once b (omega (arith, fits))
      shown
