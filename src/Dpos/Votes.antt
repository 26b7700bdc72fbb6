-- ===== src/Dpos/Votes.antt =====
-- Votes of a stake and the count of eligible votes (the helpers at the end of dpos_contract.go).
use taraxa_evm.Prelude.{
  ℕ, ◌+◌, ◌-◌, ◌/◌, ◌%◌, ◌^◌, Bool, not, ◌&&◌, ◌||◌, ltb, leb, ◌==◌, if◌then◌else◌,
}
use taraxa_evm.Dpos.State.{
  Config, M, pure, panic, gets, modify, assert, ◌>>=◌, ◌>>◌, is_on_aspen_hardfork_part_one,
}

abbrev pub u64_mod : ℕ
u64_mod = 2 ^ 64

abbrev pub u256_mod : ℕ
u256_mod = 2 ^ 256

unfoldable pub add64p : ℕ → ℕ → M ℕ
add64p a b = let c = (a + b) % u64_mod in if ltb c a || ltb c b then panic else pure c

unfoldable pub get_delta : ℕ → ℕ → ℕ
get_delta x y = if ltb x y then y - x else x - y

unfoldable pub max : ℕ → ℕ → ℕ
max x y = if ltb x y then y else x

abbrev pub reaches_maximum : Config → (stake block : ℕ) → Bool
reaches_maximum cfg stake block =
    is_on_aspen_hardfork_part_one cfg block && leb cfg.validator_maximum_stake stake

-- The value of `tmp` at the end of `voteCount`.
unfoldable pub votes : Config → (stake block : ℕ) → ℕ
votes cfg stake block =
    if leb cfg.eligibility_balance_threshold stake
    then stake / cfg.vote_eligibility_balance_step
    else if reaches_maximum cfg stake block
    then cfg.validator_maximum_stake / cfg.vote_eligibility_balance_step
    else 0

-- A division by zero and a value of more than 64 bits panic.
unfoldable pub vote_count : Config → (stake block : ℕ) → M ℕ
vote_count cfg stake block = do
  assert (
      not (
        cfg.vote_eligibility_balance_step == 0
        && (leb cfg.eligibility_balance_threshold stake || reaches_maximum cfg stake block)))
  assert (ltb (votes cfg stake block) u64_mod)
  pure (votes cfg stake block)

abbrev pub set_eligible_vote_count : ℕ → M (Unit {0})
set_eligible_vote_count n = modify (λ s. record s { eligible_vote_count = n })

-- if prev_vote_count != new_vote_count { eligible -= prev; eligible = add64p(eligible, new) }
unfoldable pub update_vote_count : (prev_vote_count new_vote_count : ℕ) → M (Unit {0})
update_vote_count prev new = if prev == new then pure tt else do
  count ← gets (λ s. s.eligible_vote_count)
  count' ← add64p ((count + u64_mod - prev) % u64_mod) new
  set_eligible_vote_count count'

-- self.amount_delegated.Add, on 256 bits
unfoldable pub add_amount_delegated : ℕ → M (Unit {0})
add_amount_delegated v =
    modify (λ s. record s { amount_delegated = (s.amount_delegated + v % u256_mod) % u256_mod })

unfoldable pub sub_amount_delegated : ℕ → M (Unit {0})
sub_amount_delegated v =
    modify (λ s. record s {
      amount_delegated = (s.amount_delegated + u256_mod - v % u256_mod) % u256_mod;
    })
