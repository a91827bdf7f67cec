-- ===== src/World/Ensures.antt =====
-- What holds of the value and of the calls made where an action returns, by one rule for each way to
-- build an action.
use gardener_extension_priva.Base.{
  ◌≡◌, refl, Bool, true, false, List, Option, none, some, if◌then◌else◌,
}
use gardener_extension_priva.Fault.{Error, Result, ok, err, Outcome, returned, failed, panicked}
use gardener_extension_priva.World.Calls.{Call}
use gardener_extension_priva.World.Emits.{Grown, Emits}
use gardener_extension_priva.World.Monad.{
  M, pure, fail, panic, or_fail, non_nil, on_error, attempt, handle, ◌>>=◌,
}

-- The postcondition at an outcome: nothing is said of an error or a panic.
abbrev pub Post : {A : Type 0} → (A → List Call → Type 0) → Outcome A × List Call → Type 0
Post Q (returned a, h) = Q a h
Post Q (failed e, h) = Unit
Post Q (panicked, h) = Unit

pub record Ensures {A : Type 0} (Q : A → List Call → Type 0) (m : M A) : Type 0 where
  pub at : (h : List Call) → Post Q (m h)

on_error-Post :
    {A : Type 0} (R : A → List Call → Type 0) (wrap : Error → Error) (o : Outcome A) (h : List Call)
    → Post R (o, h)
    → Post R (on_error wrap (λ g. (o, g)) h)
unfolding on_error
on_error-Post R wrap (returned a) h q = q
on_error-Post R wrap (failed e) h q = tt
on_error-Post R wrap panicked h q = tt

module _ {A : Type 0} {Q : A → List Call → Type 0} where
  pub Ensures-elim :
      {m : M A} → Ensures Q m → {h h' : List Call} {a : A} → m h ≡ (returned a, h') → Q a h'
  Ensures-elim {m} em {h} e = rw e at (em.at h)

  pub Ensures-pure : (a : A) → ((h : List Call) → Q a h) → Ensures Q (pure a)
  unfolding pure
  Ensures-pure a q = record { at = q }

  pub Ensures-fail : (e : Error) → Ensures Q (fail e)
  unfolding fail
  Ensures-fail e = record { at = λ h. tt }

  pub Ensures-panic : Ensures Q panic
  unfolding panic
  Ensures-panic = record { at = λ h. tt }

  pub Ensures-or_fail :
      (wrap : Error → Error) (r : Result A)
      → ((a : A) (h : List Call) → r ≡ ok a → Q a h)
      → Ensures Q (or_fail wrap r)
  unfolding or_fail
  Ensures-or_fail wrap (ok a) q = record { at = λ h. q a h refl }
  Ensures-or_fail wrap (err e) q = record { at = λ h. tt }

  pub Ensures-non_nil :
      (o : Option A) → ((a : A) (h : List Call) → o ≡ some a → Q a h) → Ensures Q (non_nil o)
  unfolding non_nil
  Ensures-non_nil none q = record { at = λ h. tt }
  Ensures-non_nil (some a) q = record { at = λ h. q a h refl }

  Post-map :
      (R : A → List Call → Type 0) (r : Outcome A × List Call)
      → ((a : A) (h : List Call) → Q a h → R a h)
      → Post Q r
      → Post R r
  Post-map R (returned a, h) f q = f a h q
  Post-map R (failed e, h) f q = tt
  Post-map R (panicked, h) f q = tt

  pub Ensures-weaken :
      (R : A → List Call → Type 0) (m : M A)
      → ((a : A) (h : List Call) → Q a h → R a h)
      → Ensures Q m
      → Ensures R m
  Ensures-weaken R m f em = record { at = λ h. Post-map R (m h) f (em.at h) }

  pub Ensures-on_error :
      (wrap : Error → Error) (m : M A) → Ensures Q m → Ensures Q (on_error wrap m)
  unfolding on_error
  Ensures-on_error wrap m em = record {
    at = λ h. let (o, h') = m h in on_error-Post Q wrap o h' (em.at h);
  }

  pub Ensures-if :
      (b : Bool) (m n : M A)
      → (b ≡ true → Ensures Q m)
      → (b ≡ false → Ensures Q n)
      → Ensures Q (if b then m else n)
  Ensures-if true m n em en = em refl
  Ensures-if false m n em en = en refl

module _ {A B : Type 0} {Q : B → List Call → Type 0} where
  -- the rest of a block, whatever the first part returns
  pub Ensures-bind : (m : M A) (f : A → M B) → ((a : A) → Ensures Q (f a)) → Ensures Q (m >>= f)
  unfolding ◌>>=◌
  Ensures-bind m f ef = record { at = λ h. let (o, h') = m h in go o h' }
    where
      go : (o : Outcome A) (h : List Call) → Post Q (((λ g. (o, g)) >>= f) h)
      go (returned a) h = (ef a).at h
      go (failed e) h = tt
      go panicked h = tt

  -- the rest may use what the first part ensures
  pub Ensures-then :
      (R : A → List Call → Type 0) (m : M A) (f : A → M B)
      → Ensures R m
      → ((a : A) (h : List Call) → R a h → Post Q (f a h))
      → Ensures Q (m >>= f)
  unfolding ◌>>=◌
  Ensures-then R m f em ef = record { at = λ h. let (o, h') = m h in go o h' (em.at h) }
    where
      go : (o : Outcome A) (h : List Call) → Post R (o, h) → Post Q (((λ g. (o, g)) >>= f) h)
      go (returned a) h r = ef a h r
      go (failed e) h r = tt
      go panicked h r = tt

  pub Ensures-handle :
      (r : Result A) (f : A → M B) (g : Error → M B)
      → ((a : A) → r ≡ ok a → Ensures Q (f a))
      → ((e : Error) → r ≡ err e → Ensures Q (g e))
      → Ensures Q (handle r f g)
  Ensures-handle (ok a) f g ef eg = ef a refl
  Ensures-handle (err e) f g ef eg = eg e refl

-- What a part of a block did, from some history on.
abbrev pub Attempted : {A : Type 0} → M A → Result A → List Call → Type 0
Attempted m (ok a) h' = (h : List Call) × (m h ≡ (returned a, h'))
Attempted m (err e) h' = (h : List Call) × (m h ≡ (failed e, h'))

pub Ensures-attempt : {A : Type 0} (m : M A) → Ensures (Attempted m) (attempt m)
unfolding attempt
Ensures-attempt {A} m = record { at = λ h. go h (m h) refl }
  where
    go :
        (h : List Call) (r : Outcome A × List Call)
        → m h ≡ r
        → Post (Attempted m) (attempt (λ _. r) h)
    go h (returned a, h') e = (h, e)
    go h (failed x, h') e = (h, e)
    go h (panicked, h') e = tt

-- What an action returned, it returned from some history on.
abbrev pub Returned : {A : Type 0} → M A → A → List Call → Type 0
Returned m a h' = (h : List Call) × (m h ≡ (returned a, h'))

pub Ensures-Returned : {A : Type 0} (m : M A) → Ensures (Returned m) m
Ensures-Returned {A} m = record { at = λ h. go h (m h) refl }
  where
    go : (h : List Call) (r : Outcome A × List Call) → m h ≡ r → Post (Returned m) r
    go h (returned a, h') e = (h, e)
    go h (failed x, h') e = tt
    go h (panicked, h') e = tt

-- The postcondition may use how the history grew.
pub Post-Grown :
    {A : Type 0} {P : Call → Type 0} {Q : A → List Call → Type 0} (R : A → List Call → Type 0)
    (m : M A)
    → Emits P m
    → (h : List Call) → Post Q (m h)
    → ((a : A) (h' : List Call) → Q a h' → Grown P h h' → R a h')
    → Post R (m h)
Post-Grown {A} {P} {Q} R m em h q f = go (m h) q (em.at h)
  where
    go : (r : Outcome A × List Call) → Post Q r → Grown P h r.1 → Post R r
    go (returned a, h') q g = f a h' q g
    go (failed x, h') q g = tt
    go (panicked, h') q g = tt

pub ruleset ensures_rules =
    (Ensures-pure, Ensures-fail, Ensures-panic, Ensures-or_fail, Ensures-if, Ensures-bind)
