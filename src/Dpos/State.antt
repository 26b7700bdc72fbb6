-- ===== src/Dpos/State.antt =====
-- The state of the contract (`Contract` of dpos_contract.go with the objects of validators.go,
-- delegations.go and undelegations.go) and the outcome of its methods.
--
-- Each kind of storage key is a map from the addresses, blocks and numbers that the key is hashed
-- from, to the object that the bytes encode; `none` is an absent entry. The lists of addresses and
-- numbers are those that the iterable maps of the storage stand for. Addresses and blocks are
-- numbers. A `big.Int` amount is never negative in storage, since its encoding would panic.
use taraxa_evm.Prelude.{
  ℕ, ◌+◌, ◌-◌, Bool, leb, ltb, ◌==◌, ◌&&◌, if◌then◌else◌, Option, none, some, List, [], ◌∷◌, ◌++◌,
  Bytes,
}

pub data DposError : Type 0 where
  non_existent_validator non_existent_delegation existent_delegation existent_undelegation :
      DposError
  non_existent_undelegation locked_undelegation existent_validator same_validator : DposError
  invalid_redelegation broken_state validators_max_stake_exceeded insufficient_delegation :
      DposError
  wrong_proof recovery_failed wrong_owner_acc wrong_vrf_key forbidden_commission_change
        commission_overflow :
      DposError
  max_endpoint_length_exceeded max_description_length_exceeded : DposError
  call_is_not_toplevel method_not_supported non_payable_method : DposError

-- The rewards per one stake, and the number of references to it.
pub record State : Type 0 where
  pub rewards_per_1_stake : ℕ
  pub count : ℕ

pub record ValidatorV1 : Type 0 where
  pub total_stake : ℕ
  pub commission : ℕ
  pub last_commission_change : ℕ
  pub last_updated : ℕ

-- `Validator` embeds `ValidatorV1`; its fields are written out.
pub record Validator : Type 0 where
  pub total_stake : ℕ
  pub commission : ℕ
  pub last_commission_change : ℕ
  pub last_updated : ℕ
  pub undelegations_count : ℕ

-- The bytes at a validator's key decode as one of the two.
pub data Stored : Type 0 where
  stored_v1 : ValidatorV1 → Stored
  stored : Validator → Stored

pub record ValidatorInfo : Type 0 where
  pub description : Bytes
  pub endpoint : Bytes

pub record ValidatorRewards : Type 0 where
  pub rewards_pool : ℕ
  pub commission_rewards_pool : ℕ

pub record Delegation : Type 0 where
  pub stake : ℕ
  pub last_updated : ℕ

pub record UndelegationV1 : Type 0 where
  pub amount : ℕ
  pub block : ℕ

pub record UndelegationV2 : Type 0 where
  pub amount : ℕ
  pub block : ℕ
  pub id : ℕ

pub data Log : Type 0 where
  delegated undelegated_v1 undelegate_canceled_v1 undelegate_confirmed_v1 rewards_claimed :
      (delegator validator amount : ℕ) → Log
  undelegated_v2 undelegate_canceled_v2 undelegate_confirmed_v2 :
      (delegator validator id amount : ℕ) → Log
  redelegated : (delegator validator_from validator_to amount : ℕ) → Log
  commission_rewards_claimed : (owner validator amount : ℕ) → Log
  validator_registered validator_info_set : (validator : ℕ) → Log
  commission_set : (validator commission : ℕ) → Log

-- The parts of `ChainConfig` that the contract reads.
pub record Config : Type 0 where
  pub eligibility_balance_threshold : ℕ
  pub vote_eligibility_balance_step : ℕ
  pub validator_maximum_stake : ℕ
  pub minimum_deposit : ℕ
  pub max_block_author_reward : ℕ
  pub dag_proposers_reward : ℕ
  pub commission_change_delta : ℕ
  pub commission_change_frequency : ℕ
  pub delegation_locking_period : ℕ
  pub blocks_per_year : ℕ
  pub yield_percentage : ℕ
  pub fix_redelegate_block_num : ℕ
  pub phalaenopsis_hf_block_num : ℕ
  pub magnolia_hf_block_num : ℕ
  pub aspen_hf_block_num_part_one : ℕ
  pub aspen_hf_block_num_part_two : ℕ
  pub ficus_hf_block_num : ℕ
  pub cornus_hf_block_num : ℕ
  pub cornus_delegation_locking_period : ℕ
  pub max_supply : ℕ
  pub generated_rewards : ℕ
  pub genesis_balances_sum : ℕ

abbrev pub is_on_phalaenopsis_hardfork : Config → ℕ → Bool
is_on_phalaenopsis_hardfork cfg block = leb cfg.phalaenopsis_hf_block_num block

abbrev pub is_on_magnolia_hardfork : Config → ℕ → Bool
is_on_magnolia_hardfork cfg block = leb cfg.magnolia_hf_block_num block

abbrev pub is_on_aspen_hardfork_part_one : Config → ℕ → Bool
is_on_aspen_hardfork_part_one cfg block = leb cfg.aspen_hf_block_num_part_one block

abbrev pub is_on_aspen_hardfork_part_two : Config → ℕ → Bool
is_on_aspen_hardfork_part_two cfg block = leb cfg.aspen_hf_block_num_part_two block

abbrev pub is_on_ficus_hardfork : Config → ℕ → Bool
is_on_ficus_hardfork cfg block = leb cfg.ficus_hf_block_num block

abbrev pub is_on_cornus_hardfork : Config → ℕ → Bool
is_on_cornus_hardfork cfg block = leb cfg.cornus_hf_block_num block

pub record Dpos : Type 0 where
  pub validator : ℕ → Option Stored
  pub validator_info : ℕ → Option ValidatorInfo
  pub validator_rewards : ℕ → Option ValidatorRewards
  pub validator_owner : ℕ → Option ℕ
  pub vrf_key : ℕ → Option Bytes
  pub validators_list : List ℕ
  -- of a delegator and a validator
  pub delegation : ℕ → ℕ → Option Delegation
  pub delegator_validators : ℕ → List ℕ
  pub undelegation_v1 : ℕ → ℕ → Option UndelegationV1
  pub undelegations_v1_validators : ℕ → List ℕ
  pub undelegation_v2 : ℕ → ℕ → ℕ → Option UndelegationV2
  pub undelegations_v2_validators : ℕ → List ℕ
  pub undelegations_v2_ids : ℕ → ℕ → List ℕ
  pub last_unique_id : ℕ → ℕ
  -- of a validator and a block
  pub state : ℕ → ℕ → Option State
  pub eligible_vote_count : ℕ
  pub amount_delegated : ℕ
  pub balance : ℕ → ℕ
  pub logs : List Log

-- The call: the sender, the value it sends, and the block.
pub record Call : Type 0 where
  pub caller : ℕ
  pub value : ℕ
  pub block : ℕ
  pub contract : ℕ

-- A method returns a value, returns an error, or panics.
pub data Outcome (A : Type 0) : Type 0 where
  done : A → Dpos → Outcome A
  failed : DposError → Dpos → Outcome A
  panicked : Outcome A

abbrev pub M : Type 0 → Type 0
M A = Dpos → Outcome A

infixl 5 ◌>>=◌ ◌>>◌
unfoldable pub ◌>>=◌ : {A B : Type 0} → M A → (A → M B) → M B
◌>>=◌ m f s = elim (m s) [ done a s' ↦ f a s' | failed e s' ↦ failed e s' | panicked ↦ panicked ]

unfoldable pub ◌>>◌ : {B : Type 0} → M (Unit {0}) → M B → M B
unfolding ◌>>=◌
m >> k = m >>= λ _. k

unfoldable pub pure : {A : Type 0} → A → M A
pure a s = done a s

unfoldable pub fail : {A : Type 0} → DposError → M A
fail e s = failed e s

unfoldable pub panic : {A : Type 0} → M A
panic s = panicked

unfoldable pub gets : {A : Type 0} → (Dpos → A) → M A
gets f s = done (f s) s

unfoldable pub modify : (Dpos → Dpos) → M (Unit {0})
modify f s = done tt (f s)

-- `if !ok { return err }`
unfoldable pub require : Bool → DposError → M (Unit {0})
unfolding pure fail
require ok e = if ok then pure tt else fail e

-- a nil object where the code returns an error
unfoldable pub some_or : {A : Type 0} → Option A → DposError → M A
unfolding pure fail
some_or none e = fail e
some_or (some a) e = pure a

-- a nil object where the code dereferences it or panics
unfoldable pub some_or_panic : {A : Type 0} → Option A → M A
unfolding pure panic
some_or_panic none = panic
some_or_panic (some a) = pure a

unfoldable pub assert : Bool → M (Unit {0})
unfolding pure panic
assert ok = if ok then pure tt else panic

abbrev pub update : {A : Type 0} → (ℕ → A) → ℕ → A → ℕ → A
update f k v j = if k == j then v else f j

abbrev pub update2 : {A : Type 0} → (ℕ → ℕ → A) → ℕ → ℕ → A → ℕ → ℕ → A
update2 f k l v i j = if (k == i) && (l == j) then v else f i j

unfoldable pub add_log : Log → M (Unit {0})
unfolding modify
add_log l = modify (λ s. record s { logs = s.logs ++ (l ∷ []) })

-- `transferContractBalance`: a balance that is too small panics.
unfoldable pub transfer_contract_balance : Call → ℕ → M (Unit {0})
transfer_contract_balance ctx amount s =
    if ltb (s.balance ctx.contract) amount
    then panicked
    else let taken = update s.balance ctx.contract (s.balance ctx.contract - amount) in
      done tt (record s { balance = update taken ctx.caller (taken ctx.caller + amount) })
