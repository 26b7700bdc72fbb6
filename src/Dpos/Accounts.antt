-- ===== src/Dpos/Accounts.antt =====
-- The stakes of the delegations and the total stakes of the validators (delegations.go and
-- validators.go).
pub mod Kept
pub mod Changed
pub mod Methods
pub mod Sums
use taraxa_evm.Prelude.{
  ℕ, ◌-◌, ◌≡◌, refl, Bool, true, false, ◌&&◌, ◌==◌, if◌then◌else◌, Option, none, some,
}
use taraxa_evm.Dpos.State.{Stored, stored, stored_v1, Validator, Delegation, Dpos}
use taraxa_evm.Dpos.Validators.{decode_validator, encode_validator}

abbrev pub stake_of : Option Delegation → ℕ
stake_of none = 0
stake_of (some d) = d.stake

abbrev pub total_of : Option Stored → ℕ
total_of none = 0
total_of (some (stored val)) = val.total_stake
total_of (some (stored_v1 val)) = val.total_stake

-- The stakes are `S`, of a delegator and a validator, and the totals of the validators are `T`.
abbrev pub Shows : (S : ℕ → ℕ → ℕ) → (T : ℕ → ℕ) → Dpos → Type 0
Shows S T s =
    ((d v : ℕ) → stake_of (s.delegation d v) ≡ S d v) × ((v : ℕ) → total_of (s.validator v) ≡ T v)

pub total-decode : (st : Stored) → (decode_validator st).total_stake ≡ total_of (some st)
unfolding decode_validator
total-decode (stored val) = refl
total-decode (stored_v1 val) = refl

pub total-encode :
    (e : Bool) (val : Validator) → total_of (some (encode_validator e val)) ≡ val.total_stake
unfolding encode_validator
total-encode true val = refl
total-encode false val = refl

-- One stake, or one total, set to a value.
abbrev pub with_stake : (ℕ → ℕ → ℕ) → (d v n : ℕ) → ℕ → ℕ → ℕ
with_stake S d v n x y = if (d == x) && (v == y) then n else S x y

abbrev pub with_total : (ℕ → ℕ) → (v n : ℕ) → ℕ → ℕ
with_total T v n y = if v == y then n else T y
