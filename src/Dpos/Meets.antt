-- ===== src/Dpos/Meets.antt =====
-- What holds after a method that returns: a postcondition on its value and the state, with a rule for
-- each way to build a method.
use taraxa_evm.Prelude.{◌≡◌, refl, sym, subst, Bool, true, false, if◌then◌else◌}
use taraxa_evm.Dpos.State.{
  Dpos, Outcome, M, done, failed, panicked, ◌>>=◌, ◌>>◌, pure, panic, modify, DposError, fail,
  require, assert,
}
use taraxa_evm.Dpos.Errors.{Reads, AtDone}

abbrev pub Ensures : {A : Type 0} → (A → Dpos → Type 0) → Outcome A → Type 0
Ensures Q (done a s) = Q a s
Ensures Q (failed e s) = Unit {0}
Ensures Q panicked = Unit {0}

pub record Meets {A : Type 0} (P : Dpos → Type 0) (m : M A) (Q : A → Dpos → Type 0) : Type 0 where
  pub at : (s : Dpos) → P s → Ensures Q (m s)

-- `m` keeps `P` where it returns.
pub record Keeps {A : Type 0} (P : Dpos → Type 0) (m : M A) : Type 0 where
  pub at : (s : Dpos) → P s → AtDone P (m s)

reads_keeps :
    {A : Type 0} (P : Dpos → Type 0) (o : Outcome A) (s : Dpos)
    → P s
    → AtDone (λ t. t ≡ s) o
    → AtDone P o
reads_keeps P (done a t) s p h = subst P (sym h) p
reads_keeps P (failed e t) s p h = tt
reads_keeps P panicked s p h = tt

keeps_ensures :
    {A : Type 0} (P : Dpos → Type 0) (o : Outcome A) → AtDone P o → Ensures (λ a s. P s) o
keeps_ensures P (done a t) h = h
keeps_ensures P (failed e t) h = tt
keeps_ensures P panicked h = tt

meets_bind :
    {A B : Type 0} {R : A → Dpos → Type 0} {Q : B → Dpos → Type 0} (o : Outcome A) (f : A → M B)
    → Ensures R o
    → ((a : A) → Meets (R a) (f a) Q)
    → Ensures Q (elim o [ done a s' ↦ f a s' | failed e s' ↦ failed e s' | panicked ↦ panicked ])
meets_bind (done a t) f h k = (k a).at t h
meets_bind (failed e t) f h k = tt
meets_bind panicked f h k = tt

module _ {A : Type 0} {P : Dpos → Type 0} where
  pub Keeps-Reads : (m : M A) → Reads m → Keeps P m
  Keeps-Reads m h = record { at = λ s p. reads_keeps P (m s) s p (h.at s) }

  pub Keeps-if : (b : Bool) (m n : M A) → Keeps P m → Keeps P n → Keeps P (if b then m else n)
  Keeps-if true m n h k = h
  Keeps-if false m n h k = k

  pub Meets-Keeps : (m : M A) → Keeps P m → Meets P m (λ a s. P s)
  Meets-Keeps m h = record { at = λ s p. keeps_ensures P (m s) (h.at s p) }

  pub Meets-pre :
      {P' : Dpos → Type 0} {Q : A → Dpos → Type 0} (m : M A)
      → ((s : Dpos) → P s → P' s)
      → Meets P' m Q
      → Meets P m Q
  Meets-pre m weaken h = record { at = λ s p. h.at s (weaken s p) }

  -- The facts on a value that a postcondition carries.
  pub Meets-pure_fact :
      {E : Type 0} {Q : A → Dpos → Type 0} (m : M A) → (E → Meets P m Q) → Meets (λ s. E × P s) m Q
  Meets-pure_fact m h = record { at = λ s p. (h p.0).at s p.1 }

with_fact :
    {A : Type 0} {E : Type 0} (R : Dpos → Type 0) (o : Outcome A)
    → E
    → AtDone R o
    → Ensures (λ a s. E × R s) o
with_fact R (done a t) e h = (e, h)
with_fact R (failed x t) e h = tt
with_fact R panicked e h = tt

-- A step that keeps the precondition, with a fact that holds already.
pub Meets-fact :
    {A : Type 0} {P : Dpos → Type 0} {E : Type 0} (m : M A)
    → E
    → Keeps P m
    → Meets P m (λ a s. E × P s)
Meets-fact {P} m e h = record { at = λ s p. with_fact P (m s) e (h.at s p) }

pub Keeps-modify :
    {P : Dpos → Type 0} (f : Dpos → Dpos) → ((s : Dpos) → P s → P (f s)) → Keeps P (modify f)
unfolding modify
Keeps-modify f h = record { at = h }

pub Meets-modify :
    {P Q : Dpos → Type 0} (f : Dpos → Dpos)
    → ((s : Dpos) → P s → Q (f s))
    → Meets P (modify f) (λ u s. Q s)
unfolding modify
Meets-modify f h = record { at = h }

module _ {A B : Type 0} {P : Dpos → Type 0} where
  keeps_bind :
      (o : Outcome A) (f : A → M B)
      → AtDone P o
      → ((a : A) → Keeps P (f a))
      → AtDone P (elim o [ done a s' ↦ f a s' | failed e s' ↦ failed e s' | panicked ↦ panicked ])
  keeps_bind (done a t) f h k = (k a).at t h
  keeps_bind (failed e t) f h k = tt
  keeps_bind panicked f h k = tt

  pub Keeps-bind :
      (m : M A) (f : A → M B) → Keeps P m → ((a : A) → Keeps P (f a)) → Keeps P (m >>= f)
  unfolding ◌>>=◌
  Keeps-bind m f h k = record { at = λ s p. keeps_bind (m s) f (h.at s p) k }

  pub Meets-bind :
      {R : A → Dpos → Type 0} {Q : B → Dpos → Type 0} (m : M A) (f : A → M B)
      → Meets P m R
      → ((a : A) → Meets (R a) (f a) Q)
      → Meets P (m >>= f) Q
  unfolding ◌>>=◌
  Meets-bind m f h k = record { at = λ s p. meets_bind (m s) f (h.at s p) k }

  -- A step whose value the precondition tells.
  pub Meets-known :
      {Q : B → Dpos → Type 0} (m : M A) (f : A → M B) (a : A)
      → ((s : Dpos) → P s → m s ≡ done a s)
      → Meets P (f a) Q
      → Meets P (m >>= f) Q
  unfolding ◌>>=◌
  Meets-known {Q} m f a h k = record {
    at = λ s p.
        subst
          (λ o.
            Ensures Q
              (elim o [ done a s' ↦ f a s' | failed e s' ↦ failed e s' | panicked ↦ panicked ]))
          (sym (h s p)) (k.at s p);
  }

  -- A step that keeps the precondition, whatever its value.
  pub Meets-step :
      {Q : B → Dpos → Type 0} (m : M A) (f : A → M B)
      → Keeps P m
      → ((a : A) → Meets P (f a) Q)
      → Meets P (m >>= f) Q
  Meets-step m f h k = Meets-bind m f (Meets-Keeps m h) k

module _ {B : Type 0} {P : Dpos → Type 0} where
  pub Keeps-then : (m : M (Unit {0})) (n : M B) → Keeps P m → Keeps P n → Keeps P (m >> n)
  unfolding ◌>>◌
  Keeps-then m n h k = Keeps-bind m (λ _. n) h (λ _. k)

  pub Meets-then :
      {Q : B → Dpos → Type 0} (m : M (Unit {0})) (n : M B)
      → Keeps P m
      → Meets P n Q
      → Meets P (m >> n) Q
  unfolding ◌>>◌
  Meets-then m n h k = Meets-step m (λ _. n) h (λ _. k)

  pub Meets-seq :
      {R : Dpos → Type 0} {Q : B → Dpos → Type 0} (m : M (Unit {0})) (n : M B)
      → Meets P m (λ u s. R s)
      → Meets R n Q
      → Meets P (m >> n) Q
  unfolding ◌>>◌
  Meets-seq m n h k = Meets-bind m (λ _. n) h (λ _. k)

pub ruleset keeps_rules = (Keeps-Reads, Keeps-modify, Keeps-if, Keeps-then, Keeps-bind)

-- A check that passes tells its test.
pub Meets-require :
    {B : Type 0} {P : Dpos → Type 0} {Q : B → Dpos → Type 0} (b : Bool) (e : DposError) (n : M B)
    → (b ≡ true → Meets P n Q)
    → Meets P (require b e >> n) Q
unfolding require ◌>>◌ ◌>>=◌ fail pure
Meets-require true e n h = record { at = λ s p. (h refl).at s p }
Meets-require false e n h = record { at = λ s p. tt }

pub Meets-assert :
    {B : Type 0} {P : Dpos → Type 0} {Q : B → Dpos → Type 0} (b : Bool) (n : M B)
    → (b ≡ true → Meets P n Q)
    → Meets P (assert b >> n) Q
unfolding assert ◌>>◌ ◌>>=◌ panic pure
Meets-assert true n h = record { at = λ s p. (h refl).at s p }
Meets-assert false n h = record { at = λ s p. tt }
