-- ===== src/World/Breaks.antt =====
-- What holds where an action panics, by one rule for each way to build an action.
use gardener_extension_priva.Base.{
  ◌≡◌, refl, Bool, true, false, Option, none, some, List, [], if◌then◌else◌,
}
use gardener_extension_priva.Fault.{Error, Result, ok, err, Outcome, returned, failed, panicked}
use gardener_extension_priva.World.Calls.{Call, Env}
use gardener_extension_priva.World.Ensures.{Post, Ensures}
use gardener_extension_priva.World.Monad.{
  M, pure, fail, ask, or_fail, non_nil, on_error, attempt, handle, ◌>>=◌,
}

abbrev pub OnPanic : {A : Type 0} → (List Call → Type 0) → Outcome A × List Call → Type 0
OnPanic P (returned a, h) = Unit
OnPanic P (failed e, h) = Unit
OnPanic P (panicked, h) = P h

-- Where `m` panics, `P` holds of the calls made.
pub record Breaks {A : Type 0} (P : List Call → Type 0) (m : M A) : Type 0 where
  pub at : (h : List Call) → OnPanic P (m h)

module _ {P : List Call → Type 0} {A : Type 0} where
  pub Breaks-elim : {m : M A} → Breaks P m → {h h' : List Call} → m h ≡ (panicked, h') → P h'
  Breaks-elim {m} b {h} e = rw e at (b.at h)

  pub Breaks-pure : (a : A) → Breaks P (pure a)
  unfolding pure
  Breaks-pure a = record { at = λ h. tt }

  pub Breaks-fail : (e : Error) → Breaks P (fail {A = A} e)
  unfolding fail
  Breaks-fail e = record { at = λ h. tt }

  pub Breaks-or_fail : (wrap : Error → Error) (r : Result A) → Breaks P (or_fail wrap r)
  unfolding or_fail
  Breaks-or_fail wrap (ok a) = record { at = λ h. tt }
  Breaks-or_fail wrap (err e) = record { at = λ h. tt }

  pub Breaks-on_error : (wrap : Error → Error) (m : M A) → Breaks P m → Breaks P (on_error wrap m)
  unfolding on_error
  Breaks-on_error wrap m b = record { at = λ h. go (m h) (b.at h) }
    where
      go : (r : Outcome A × List Call) → OnPanic P r → OnPanic P (on_error wrap (λ h. r) [])
      go (returned a, h) p = tt
      go (failed e, h) p = tt
      go (panicked, h) p = p

  pub Breaks-attempt : (m : M A) → Breaks P m → Breaks P (attempt m)
  unfolding attempt
  Breaks-attempt m b = record { at = λ h. go (m h) (b.at h) }
    where
      go : (r : Outcome A × List Call) → OnPanic P r → OnPanic P (attempt (λ h. r) [])
      go (returned a, h) p = tt
      go (failed e, h) p = tt
      go (panicked, h) p = p

  pub Breaks-if : (b : Bool) (m n : M A) → Breaks P m → Breaks P n → Breaks P (if b then m else n)
  Breaks-if true m n p q = p
  Breaks-if false m n p q = q

pub Breaks-ask : {P : List Call → Type 0} (env : Env) (c : Call) → Breaks P (ask env c)
unfolding ask
Breaks-ask env c = record { at = λ h. tt }

module _ {P : List Call → Type 0} {A B : Type 0} where
  pub Breaks-bind :
      (m : M A) (f : A → M B) → Breaks P m → ((a : A) → Breaks P (f a)) → Breaks P (m >>= f)
  unfolding ◌>>=◌
  Breaks-bind m f b k = record { at = λ h. go (m h) (b.at h) }
    where
      go : (r : Outcome A × List Call) → OnPanic P r → OnPanic P (((λ h. r) >>= f) [])
      go (returned a, h) p = (k a).at h
      go (failed e, h) p = tt
      go (panicked, h) p = p

  -- the rest may use what the first part ensures of its value
  pub Breaks-then :
      (R : A → Type 0) (m : M A) (f : A → M B)
      → Ensures (λ a _. R a) m
      → Breaks P m
      → ((a : A) → R a → Breaks P (f a))
      → Breaks P (m >>= f)
  unfolding ◌>>=◌
  Breaks-then R m f en b k = record { at = λ h. go (m h) (en.at h) (b.at h) }
    where
      go :
          (r : Outcome A × List Call)
          → Post (λ a _. R a) r
          → OnPanic P r
          → OnPanic P (((λ h. r) >>= f) [])
      go (returned a, h) q p = (k a q).at h
      go (failed e, h) q p = tt
      go (panicked, h) q p = p

  -- a read through a pointer: only a nil one panics
  pub Breaks-non_nil :
      (o : Option A) (f : A → M B)
      → (o ≡ none → (h : List Call) → P h)
      → ((a : A) → Breaks P (f a))
      → Breaks P (non_nil o >>= f)
  unfolding non_nil ◌>>=◌
  Breaks-non_nil none f p k = record { at = p refl }
  Breaks-non_nil (some a) f p k = record { at = λ h. (k a).at h }

  pub Breaks-bind_or_fail :
      (wrap : Error → Error) (r : Result A) (f : A → M B)
      → ((a : A) → r ≡ ok a → Breaks P (f a))
      → Breaks P (or_fail wrap r >>= f)
  unfolding or_fail ◌>>=◌
  Breaks-bind_or_fail wrap (ok a) f k = record { at = λ h. (k a refl).at h }
  Breaks-bind_or_fail wrap (err e) f k = record { at = λ h. tt }

  pub Breaks-handle :
      (r : Result A) (f : A → M B) (g : Error → M B)
      → ((a : A) → Breaks P (f a))
      → ((e : Error) → Breaks P (g e))
      → Breaks P (handle r f g)
  Breaks-handle (ok a) f g bf bg = bf a
  Breaks-handle (err e) f g bf bg = bg e

pub ruleset breaks_rules = (
  Breaks-pure, Breaks-fail, Breaks-or_fail, Breaks-on_error, Breaks-attempt, Breaks-if, Breaks-ask,
  Breaks-bind, Breaks-handle,
)
