-- ===== src/Dpos/Errors.antt =====
-- Rules for what a method has written when it returns an error, one for each way to build a method.
-- The contract's storage is not reverted with the call (`SetStateRawIrreversibly` of
-- state_evm/account.go).
pub mod Steps
pub mod Methods
use taraxa_evm.Prelude.{◌≡◌, refl, subst, Bool, true, false, if◌then◌else◌, Option, none, some}
use taraxa_evm.Dpos.State.{
  DposError, Dpos, Outcome, M, done, failed, panicked, ◌>>=◌, ◌>>◌, pure, fail, panic, gets, modify,
  require, some_or, some_or_panic, assert,
}

-- The state that an outcome carries, if it is an error.
abbrev pub AtError : {A : Type 0} → (Dpos → Type 0) → Outcome A → Type 0
AtError P (done a s) = Unit {0}
AtError P (failed e s) = P s
AtError P panicked = Unit {0}

abbrev pub AtDone : {A : Type 0} → (Dpos → Type 0) → Outcome A → Type 0
AtDone P (done a s) = P s
AtDone P (failed e s) = Unit {0}
AtDone P panicked = Unit {0}

-- `m` never returns an error.
pub record Never {A : Type 0} (m : M A) : Type 0 where
  pub at : (s : Dpos) → AtError (λ t. ⊥) (m s)

-- `m` leaves the state as it is when it returns an error.
pub record Clean {A : Type 0} (m : M A) : Type 0 where
  pub at : (s : Dpos) → AtError (λ t. t ≡ s) (m s)

-- `m` leaves the state as it is when it returns.
pub record Reads {A : Type 0} (m : M A) : Type 0 where
  pub at : (s : Dpos) → AtDone (λ t. t ≡ s) (m s)

module _ {A : Type 0} where
  pub Never-pure : (a : A) → Never (pure a)
  unfolding pure
  Never-pure a = record { at = λ s. tt }

  pub Never-gets : (f : Dpos → A) → Never (gets f)
  unfolding gets
  Never-gets f = record { at = λ s. tt }

  pub Never-panic : Never (panic {A = A})
  unfolding panic
  Never-panic = record { at = λ s. tt }

  pub Never-some_or_panic : (o : Option A) → Never (some_or_panic o)
  unfolding some_or_panic
  Never-some_or_panic none = Never-panic
  Never-some_or_panic (some a) = Never-pure a

  pub Never-if : (b : Bool) (m n : M A) → Never m → Never n → Never (if b then m else n)
  Never-if true m n h k = h
  Never-if false m n h k = k

  pub Reads-pure : (a : A) → Reads (pure a)
  unfolding pure
  Reads-pure a = record { at = λ s. refl }

  pub Reads-panic : Reads (panic {A = A})
  unfolding panic
  Reads-panic = record { at = λ s. tt }

  pub Reads-gets : (f : Dpos → A) → Reads (gets f)
  unfolding gets
  Reads-gets f = record { at = λ s. refl }

  pub Reads-some_or : (o : Option A) (e : DposError) → Reads (some_or o e)
  unfolding some_or
  Reads-some_or none e = record { at = λ s. tt }
  Reads-some_or (some a) e = Reads-pure a

  pub Reads-some_or_panic : (o : Option A) → Reads (some_or_panic o)
  unfolding some_or_panic
  Reads-some_or_panic none = record { at = λ s. tt }
  Reads-some_or_panic (some a) = Reads-pure a

  pub Clean-some_or : (o : Option A) (e : DposError) → Clean (some_or o e)
  unfolding some_or fail pure
  Clean-some_or none e = record { at = λ s. refl }
  Clean-some_or (some a) e = record { at = λ s. tt }

  never_clean : (o : Outcome A) (s : Dpos) → AtError (λ t. ⊥) o → AtError (λ t. t ≡ s) o
  never_clean (done a t) s h = tt
  never_clean (failed e t) s h = absurd h
  never_clean panicked s h = tt

  pub Clean-Never : (m : M A) → Never m → Clean m
  Clean-Never m h = record { at = λ s. never_clean (m s) s (h.at s) }

  pub Clean-if : (b : Bool) (m n : M A) → Clean m → Clean n → Clean (if b then m else n)
  Clean-if true m n h k = h
  Clean-if false m n h k = k

pub Never-modify : (f : Dpos → Dpos) → Never (modify f)
unfolding modify
Never-modify f = record { at = λ s. tt }

pub Never-assert : (b : Bool) → Never (assert b)
unfolding assert
Never-assert true = Never-pure tt
Never-assert false = Never-panic

pub Reads-require : (b : Bool) (e : DposError) → Reads (require b e)
unfolding require
Reads-require true e = Reads-pure tt
Reads-require false e = record { at = λ s. tt }

pub Reads-assert : (b : Bool) → Reads (assert b)
unfolding assert
Reads-assert true = Reads-pure tt
Reads-assert false = record { at = λ s. tt }

pub Clean-require : (b : Bool) (e : DposError) → Clean (require b e)
unfolding require fail pure
Clean-require true e = record { at = λ s. tt }
Clean-require false e = record { at = λ s. refl }

module _ {A B : Type 0} where
  Never-bind' :
      (o : Outcome A) (f : A → M B)
      → AtError (λ t. ⊥) o
      → ((a : A) → Never (f a))
      → AtError
          (λ t. ⊥)
          (elim o [ done a s' ↦ f a s' | failed e s' ↦ failed e s' | panicked ↦ panicked ])
  Never-bind' (done a t) f h k = (k a).at t
  Never-bind' (failed e t) f h k = h
  Never-bind' panicked f h k = tt

  pub Never-bind : (m : M A) (f : A → M B) → Never m → ((a : A) → Never (f a)) → Never (m >>= f)
  unfolding ◌>>=◌
  Never-bind m f h k = record { at = λ s. Never-bind' (m s) f (h.at s) k }

  Reads-bind' :
      (o : Outcome A) (f : A → M B) (s : Dpos)
      → AtDone (λ t. t ≡ s) o
      → ((a : A) → Reads (f a))
      → AtDone
          (λ t. t ≡ s)
          (elim o [ done a s' ↦ f a s' | failed e s' ↦ failed e s' | panicked ↦ panicked ])
  Reads-bind' (done a t) f s h k = subst (λ r. AtDone (λ u. u ≡ r) (f a t)) h ((k a).at t)
  Reads-bind' (failed e t) f s h k = tt
  Reads-bind' panicked f s h k = tt

  pub Reads-bind : (m : M A) (f : A → M B) → Reads m → ((a : A) → Reads (f a)) → Reads (m >>= f)
  unfolding ◌>>=◌
  Reads-bind m f h k = record { at = λ s. Reads-bind' (m s) f s (h.at s) k }

  Clean-reads :
      (o : Outcome A) (f : A → M B) (s : Dpos)
      → AtDone (λ t. t ≡ s) o
      → AtError (λ t. t ≡ s) o
      → ((a : A) → Clean (f a))
      → AtError
          (λ t. t ≡ s)
          (elim o [ done a s' ↦ f a s' | failed e s' ↦ failed e s' | panicked ↦ panicked ])
  Clean-reads (done a t) f s h g k = subst (λ r. AtError (λ u. u ≡ r) (f a t)) h ((k a).at t)
  Clean-reads (failed e t) f s h g k = g
  Clean-reads panicked f s h g k = tt

  -- A step that only reads, and then the rest.
  pub Clean-bind-Reads :
      (m : M A) (f : A → M B) → Reads m → Clean m → ((a : A) → Clean (f a)) → Clean (m >>= f)
  unfolding ◌>>=◌
  Clean-bind-Reads m f r h k = record { at = λ s. Clean-reads (m s) f s (r.at s) (h.at s) k }

  clean-Never :
      (o : Outcome A) (f : A → M B) (s : Dpos)
      → AtError (λ t. t ≡ s) o
      → ((a : A) → Never (f a))
      → AtError
          (λ t. t ≡ s)
          (elim o [ done a s' ↦ f a s' | failed e s' ↦ failed e s' | panicked ↦ panicked ])
  clean-Never (done a t) f s g k = never_clean (f a t) s ((k a).at t)
  clean-Never (failed e t) f s g k = g
  clean-Never panicked f s g k = tt

  -- A step that may return an error, and then no more errors.
  pub Clean-bind-Never :
      (m : M A) (f : A → M B) → Clean m → ((a : A) → Never (f a)) → Clean (m >>= f)
  unfolding ◌>>=◌
  Clean-bind-Never m f h k = record { at = λ s. clean-Never (m s) f s (h.at s) k }

module _ {B : Type 0} where
  pub Never-then : (m : M (Unit {0})) (n : M B) → Never m → Never n → Never (m >> n)
  unfolding ◌>>◌
  Never-then m n h k = Never-bind m (λ _. n) h (λ _. k)

  pub Reads-then : (m : M (Unit {0})) (n : M B) → Reads m → Reads n → Reads (m >> n)
  unfolding ◌>>◌
  Reads-then m n h k = Reads-bind m (λ _. n) h (λ _. k)

  pub Clean-then-Reads : (m : M (Unit {0})) (n : M B) → Reads m → Clean m → Clean n → Clean (m >> n)
  unfolding ◌>>◌
  Clean-then-Reads m n r h k = Clean-bind-Reads m (λ _. n) r h (λ _. k)

  pub Clean-then-Never : (m : M (Unit {0})) (n : M B) → Clean m → Never n → Clean (m >> n)
  unfolding ◌>>◌
  Clean-then-Never m n h k = Clean-bind-Never m (λ _. n) h (λ _. k)

pub ruleset never_rules = (
  Never-pure, Never-panic, Never-gets, Never-modify, Never-assert, Never-some_or_panic, Never-if,
  Never-then, Never-bind,
)

pub ruleset reads_rules = (
  Reads-pure, Reads-panic, Reads-gets, Reads-some_or, Reads-some_or_panic, Reads-require,
  Reads-assert, Reads-then, Reads-bind,
)
