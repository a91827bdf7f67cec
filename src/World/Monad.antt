-- ===== src/World/Monad.antt =====
-- Functions that call out and may fail or panic: from the calls made so far to an outcome and all
-- calls made.
use gardener_extension_priva.Base.{List, ◌∷◌, Option, none, some, ◌≡◌, ◌⊎◌, inl, inr, refl}
use gardener_extension_priva.Fault.{Error, Result, ok, err, Outcome, returned, failed, panicked}
use gardener_extension_priva.World.Calls.{Call, Response, Env}

abbrev pub M : Type 0 → Type 0
M A = List Call → Outcome A × List Call

module _ {A : Type 0} where
  unfoldable pub pure : A → M A
  pure a h = (returned a, h)

  -- return …, err
  unfoldable pub fail : Error → M A
  fail e h = (failed e, h)

  -- an access through a nil pointer, past the end of a slice, or a failed type assertion
  unfoldable pub panic : M A
  panic h = (panicked, h)

  -- if err != nil { return …, wrap(err) }
  unfoldable pub or_fail : (Error → Error) → Result A → M A
  or_fail wrap (ok a) h = (returned a, h)
  or_fail wrap (err e) h = (failed (wrap e), h)

  -- the target of a pointer that is read through
  unfoldable pub non_nil : Option A → M A
  non_nil none h = (panicked, h)
  non_nil (some a) h = (returned a, h)

  abbrev map_error : (Error → Error) → Outcome A → Outcome A
  map_error wrap (returned a) = returned a
  map_error wrap (failed e) = failed (wrap e)
  map_error wrap panicked = panicked

  -- a, err := m(); if err != nil { return …, wrap(err) }
  unfoldable pub on_error : (Error → Error) → M A → M A
  on_error wrap m h = let (o, h') = m h in (map_error wrap o, h')

  abbrev caught : Outcome A → Outcome (Result A)
  caught (returned a) = returned (ok a)
  caught (failed e) = returned (err e)
  caught panicked = panicked

  -- a, err := m(), where the code goes on from the error
  unfoldable pub attempt : M A → M (Result A)
  attempt m h = let (o, h') = m h in (caught o, h')

-- if err != nil { … } else { … }
abbrev pub handle : {A B : Type 0} → Result A → (A → M B) → (Error → M B) → M B
handle (ok a) f g = f a
handle (err e) f g = g e

-- The call itself; the environment sees the calls made before it.
unfoldable pub ask : Env → (c : Call) → M (Response c)
ask env c h = (returned (env c h), c ∷ h)

module _ {A B : Type 0} where
  abbrev resume : Outcome A → (A → M B) → M B
  resume (returned a) f h = f a h
  resume (failed e) f h = (failed e, h)
  resume panicked f h = (panicked, h)

  infixl 10 ◌>>=◌ ◌>>◌
  unfoldable pub ◌>>=◌ : M A → (A → M B) → M B
  ◌>>=◌ m f h = let (o, h') = m h in resume o f h'

  abbrev pub ◌>>◌ : M A → M B → M B
  m >> n = m >>= λ _. n

pub Outcome-cases :
    {A : Type 0} (o : Outcome A)
    → ((a : A) × (o ≡ returned a)) ⊎ ((e : Error) × (o ≡ failed e)) ⊎ (o ≡ panicked)
Outcome-cases (returned a) = inl (a, refl)
Outcome-cases (failed e) = inr (inl (e, refl))
Outcome-cases panicked = inr (inr refl)
