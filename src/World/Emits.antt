-- ===== src/World/Emits.antt =====
-- Which calls an action makes, by one rule for each way to build an action.
use mathlib.Core.List.{append_assoc}
use gardener_extension_priva.Base.{
  ◌≡◌, refl, sym, ◌∙◌, ap, Bool, true, false, List, [], ◌∷◌, ◌++◌, Option, none, some,
  if◌then◌else◌, All, All-append,
}
use gardener_extension_priva.Fault.{Error, Result, ok, err, Outcome, returned, failed, panicked}
use gardener_extension_priva.World.Calls.{Call, Env}
use gardener_extension_priva.World.Monad.{
  M, pure, fail, panic, ask, or_fail, non_nil, on_error, attempt, handle, ◌>>=◌,
}

-- The second history is the first with newer calls, all of which satisfy `P`.
abbrev pub Grown : (Call → Type 0) → List Call → List Call → Type 0
Grown P h h' = (new : List Call) × (h' ≡ new ++ h) × All P new

pub Grown-refl : (P : Call → Type 0) (h : List Call) → Grown P h h
Grown-refl P h = ([], refl, tt)

pub Grown-trans :
    (P : Call → Type 0) {h h' h'' : List Call} → Grown P h h' → Grown P h' h'' → Grown P h h''
Grown-trans P {h} (new, e, p) (newer, e', p') = (
  newer ++ new,
  e' ∙ ap (λ t. newer ++ t) e ∙ sym (append_assoc newer new h),
  All-append P newer new p' p,
)

-- Whatever the outcome, every call that `m` makes satisfies `P`.
pub record Emits {A : Type 0} (P : Call → Type 0) (m : M A) : Type 0 where
  pub at : (h : List Call) → Grown P h (m h).1

module _ {P : Call → Type 0} {A : Type 0} where
  pub Emits-pure : (a : A) → Emits P (pure a)
  unfolding pure
  Emits-pure a = record { at = Grown-refl P }

  pub Emits-fail : (e : Error) → Emits P (fail {A = A} e)
  unfolding fail
  Emits-fail e = record { at = Grown-refl P }

  pub Emits-panic : Emits P (panic {A = A})
  unfolding panic
  Emits-panic = record { at = Grown-refl P }

  pub Emits-or_fail : (wrap : Error → Error) (r : Result A) → Emits P (or_fail wrap r)
  unfolding or_fail
  Emits-or_fail wrap (ok a) = record { at = Grown-refl P }
  Emits-or_fail wrap (err e) = record { at = Grown-refl P }

  pub Emits-non_nil : (o : Option A) → Emits P (non_nil o)
  unfolding non_nil
  Emits-non_nil none = record { at = Grown-refl P }
  Emits-non_nil (some a) = record { at = Grown-refl P }

  pub Emits-on_error : (wrap : Error → Error) (m : M A) → Emits P m → Emits P (on_error wrap m)
  unfolding on_error
  Emits-on_error wrap m em = record { at = λ h. em.at h }

  pub Emits-attempt : (m : M A) → Emits P m → Emits P (attempt m)
  unfolding attempt
  Emits-attempt m em = record { at = λ h. em.at h }

  pub Emits-if : (b : Bool) (m n : M A) → Emits P m → Emits P n → Emits P (if b then m else n)
  Emits-if true m n em en = em
  Emits-if false m n em en = en

pub Emits-if_of :
    {P : Call → Type 0} {A : Type 0} (b : Bool) (m n : M A)
    → (b ≡ true → Emits P m)
    → (b ≡ false → Emits P n)
    → Emits P (if b then m else n)
Emits-if_of true m n em en = em refl
Emits-if_of false m n em en = en refl

pub Emits-ask : {P : Call → Type 0} (env : Env) (c : Call) → P c → Emits P (ask env c)
unfolding ask
Emits-ask env c p = record { at = λ h. (c ∷ [], refl, (p, tt)) }

module _ {P : Call → Type 0} {A B : Type 0} where
  pub Emits-bind :
      (m : M A) (f : A → M B) → Emits P m → ((a : A) → Emits P (f a)) → Emits P (m >>= f)
  unfolding ◌>>=◌
  Emits-bind m f em ef = record { at = λ h. let (o, h') = m h in go o h h' (em.at h) }
    where
      go :
          (o : Outcome A) (h h' : List Call) → Grown P h h' → Grown P h (((λ g. (o, g)) >>= f) h').1
      go (returned a) h h' g = Grown-trans P g ((ef a).at h')
      go (failed e) h h' g = g
      go panicked h h' g = g

  -- the rest of the block may use what was read
  pub Emits-bind_or_fail :
      (wrap : Error → Error) (r : Result A) (f : A → M B)
      → ((a : A) → r ≡ ok a → Emits P (f a))
      → Emits P (or_fail wrap r >>= f)
  unfolding ◌>>=◌ or_fail
  Emits-bind_or_fail wrap (ok a) f ef = record { at = λ h. (ef a refl).at h }
  Emits-bind_or_fail wrap (err e) f ef = record { at = Grown-refl P }

  pub Emits-bind_non_nil :
      (o : Option A) (f : A → M B)
      → ((a : A) → o ≡ some a → Emits P (f a))
      → Emits P (non_nil o >>= f)
  unfolding ◌>>=◌ non_nil
  Emits-bind_non_nil (some a) f ef = record { at = λ h. (ef a refl).at h }
  Emits-bind_non_nil none f ef = record { at = Grown-refl P }

  pub Emits-handle :
      (r : Result A) (f : A → M B) (g : Error → M B)
      → ((a : A) → Emits P (f a))
      → ((e : Error) → Emits P (g e))
      → Emits P (handle r f g)
  Emits-handle (ok a) f g ef eg = ef a
  Emits-handle (err e) f g ef eg = eg e

pub ruleset emits_rules = (
  Emits-pure, Emits-fail, Emits-panic, Emits-or_fail, Emits-non_nil, Emits-on_error, Emits-attempt,
  Emits-if, Emits-ask, Emits-bind, Emits-handle,
)
