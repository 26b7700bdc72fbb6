-- ===== src/Dpos/Undelegations.antt =====
-- `Undelegations` of undelegations.go over the contract's state. An undelegation with a number is of
-- the second version.
use taraxa_evm.Prelude.{ℕ, ◌+◌, ◌%◌, Bool, ◌&&◌, ◌==◌, if◌then◌else◌, Option, none, some, List}
use mathlib.Core.Option
use taraxa_evm.Dpos.Collections.{exists_in, create_in, remove_in}
use taraxa_evm.Dpos.State.{
  UndelegationV1, UndelegationV2, M, pure, gets, modify, some_or_panic, update, update2, ◌>>=◌,
  ◌>>◌,
}
use taraxa_evm.Dpos.Votes.{u64_mod}
use mathlib.Core.List.{[], ◌∷◌}

unfoldable pub undelegation_exists :
    (delegator validator : ℕ) → (undelegation_id : Option ℕ) → M Bool
undelegation_exists d v none = gets (λ s. exists_in v (s.undelegations_v1_validators d))
undelegation_exists d v (some id) = gets (λ s. exists_in id (s.undelegations_v2_ids d v))

abbrev pub base_object : UndelegationV2 → UndelegationV1
base_object u = record { amount = u.amount; block = u.block }

unfoldable pub get_undelegation_base_object :
    (delegator validator : ℕ) → (undelegation_id : Option ℕ) → M (Option UndelegationV1)
get_undelegation_base_object d v none = gets (λ s. s.undelegation_v1 d v)
get_undelegation_base_object d v (some id) =
    gets (λ s. Option.map base_object (s.undelegation_v2 d v id))

abbrev pub set_v1_validators : (delegator : ℕ) → List ℕ → M (Unit {0})
set_v1_validators d xs =
    modify
      (λ s. record s { undelegations_v1_validators = update s.undelegations_v1_validators d xs })

abbrev pub set_v2_validators : (delegator : ℕ) → List ℕ → M (Unit {0})
set_v2_validators d xs =
    modify
      (λ s. record s { undelegations_v2_validators = update s.undelegations_v2_validators d xs })

abbrev pub set_v2_ids : (delegator validator : ℕ) → List ℕ → M (Unit {0})
set_v2_ids d v xs =
    modify (λ s. record s { undelegations_v2_ids = update2 s.undelegations_v2_ids d v xs })

abbrev pub save_v1 : (delegator validator : ℕ) → Option UndelegationV1 → M (Unit {0})
save_v1 d v o = modify (λ s. record s { undelegation_v1 = update2 s.undelegation_v1 d v o })

abbrev pub save_v2 : (delegator validator id : ℕ) → Option UndelegationV2 → M (Unit {0})
save_v2 d v id o = modify (λ s. record s {
  undelegation_v2 =
      λ i j k. if (d == i) && (v == j) && (id == k) then o else s.undelegation_v2 i j k;
})

unfoldable pub create_undelegation_v1 : (delegator validator block amount : ℕ) → M (Unit {0})
create_undelegation_v1 d v block amount = do
  save_v1 d v (some (record { amount = amount; block = block }))
  list ← gets (λ s. s.undelegations_v1_validators d)
  list' ← some_or_panic (create_in v list)
  set_v1_validators d list'

unfoldable pub gen_unique_id : (delegator : ℕ) → M ℕ
gen_unique_id d = do
  last ← gets (λ s. s.last_unique_id d)
  let id = (last + 1) % u64_mod
  modify (λ s. record s { last_unique_id = update s.last_unique_id d id })
  pure id

-- The first number of a validator adds the validator to the delegator's.
abbrev pub add_v2_validator : (delegator validator : ℕ) → List ℕ → M (Unit {0})
add_v2_validator d v (id ∷ []) = do
  list ← gets (λ s. s.undelegations_v2_validators d)
  list' ← some_or_panic (create_in v list)
  set_v2_validators d list'
add_v2_validator d v [] = pure tt
add_v2_validator d v (id ∷ j ∷ ids) = pure tt

unfoldable pub create_undelegation_v2 : (delegator validator block amount : ℕ) → M ℕ
create_undelegation_v2 d v block amount = do
  id ← gen_unique_id d
  save_v2 d v id (some (record { amount = amount; block = block; id = id }))
  ids ← gets (λ s. s.undelegations_v2_ids d v)
  ids' ← some_or_panic (create_in id ids)
  set_v2_ids d v ids'
  add_v2_validator d v ids'
  pure id

-- The last number of a validator takes the validator from the delegator's.
abbrev pub drop_v2_validator : (delegator validator : ℕ) → List ℕ → M (Unit {0})
drop_v2_validator d v [] = do
  list ← gets (λ s. s.undelegations_v2_validators d)
  list' ← some_or_panic (remove_in v list)
  set_v2_validators d list'
drop_v2_validator d v (id ∷ ids) = pure tt

unfoldable pub remove_undelegation :
    (delegator validator : ℕ) → (undelegation_id : Option ℕ) → M (Unit {0})
remove_undelegation d v none = do
  save_v1 d v none
  list ← gets (λ s. s.undelegations_v1_validators d)
  list' ← some_or_panic (remove_in v list)
  set_v1_validators d list'
remove_undelegation d v (some id) = do
  save_v2 d v id none
  ids ← gets (λ s. s.undelegations_v2_ids d v)
  ids' ← some_or_panic (remove_in id ids)
  set_v2_ids d v ids'
  drop_v2_validator d v ids'
