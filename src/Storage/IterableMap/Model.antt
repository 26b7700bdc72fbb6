-- ===== src/Storage/IterableMap/Model.antt =====
-- What a map stands for: a list of items, where a removal puts the last item in the place of the
-- removed one.
use taraxa_evm.Prelude.{
  ℕ, zero, suc, ◌-◌, ◌<◌, ◌≡◌, refl, none, some, List, [], ◌∷◌, ◌++◌, length, get_elem?, set, take,
  arith, ltb, ◌==◌, if◌then◌else◌, length-take, length-set, ◌&&◌,
}

module _ {ℓ} {A : Type ℓ} where
  pub get_elem?-append_one :
      (l : List A) (x : A) (i : ℕ)
      → get_elem? (l ++ (x ∷ [])) i ≡ (if i == length l then some x else get_elem? l i)
  get_elem?-append_one [] x zero = refl
  get_elem?-append_one [] x (suc i) = ground arith
  get_elem?-append_one (y ∷ l) x zero = ground arith
  get_elem?-append_one (y ∷ l) x (suc i) = ground (arith, get_elem?-append_one l x i)

  pub get_elem?-take :
      (n : ℕ) (l : List A) (i : ℕ)
      → get_elem? (take n l) i ≡ (if ltb i n then get_elem? l i else none)
  get_elem?-take zero l i = ground arith
  get_elem?-take (suc n) [] i = ground arith
  get_elem?-take (suc n) (x ∷ l) zero = ground arith
  get_elem?-take (suc n) (x ∷ l) (suc i) = ground (arith, get_elem?-take n l i)

  pub get_elem?-set :
      (l : List A) (j : ℕ) (v : A) (i : ℕ)
      → get_elem? (set l j v) i ≡ (if (i == j) && ltb i (length l) then some v else get_elem? l i)
  get_elem?-set [] j v i = ground arith
  get_elem?-set (x ∷ l) zero v zero = ground arith
  get_elem?-set (x ∷ l) zero v (suc i) = ground arith
  get_elem?-set (x ∷ l) (suc j) v zero = ground arith
  get_elem?-set (x ∷ l) (suc j) v (suc i) = ground (arith, get_elem?-set l j v i)

  pub lt_of_get_elem? : (l : List A) (i : ℕ) (x : A) → get_elem? l i ≡ some x → i < length l
  lt_of_get_elem? [] i x e = cc
  lt_of_get_elem? (y ∷ l) zero x e = omega arith
  lt_of_get_elem? (y ∷ l) (suc i) x e = omega (arith, lt_of_get_elem? l i x e)

  -- The list without its item at `i`, whose place the last item takes.
  unfoldable pub swap_remove : List A → ℕ → A → List A
  swap_remove l i last = take (length l - 1) (set l i last)

  pub get_elem?-swap_remove :
      (l : List A) (i : ℕ) (last : A) (j : ℕ)
      → i < length l
      → get_elem? (swap_remove l i last) j
        ≡ (if ltb j (length l - 1) then (if j == i then some last else get_elem? l j) else none)
  unfolding swap_remove
  get_elem?-swap_remove l i last j h =
      ground (arith, get_elem?-take (length l - 1) (set l i last) j, get_elem?-set l i last j)

  pub length-swap_remove :
      (l : List A) (i : ℕ) (last : A) → length (swap_remove l i last) ≡ length l - 1
  unfolding swap_remove
  length-swap_remove l i last =
      let e = length-set l i last in length-take (length l - 1) (set l i last) (omega (arith, e))
