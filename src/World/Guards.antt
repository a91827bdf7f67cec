-- ===== src/World/Guards.antt =====
-- Calls that are made only after what justifies them: an invariant of histories, kept by actions, by
-- one rule for each way to build an action.
use gardener_extension_priva.Base.{
  ◌≡◌, refl, Bool, true, false, Option, none, some, List, [], ◌∷◌, ◌++◌, All, if◌then◌else◌,
}
use gardener_extension_priva.Fault.{Error, Result, ok, err, Outcome, returned, failed, panicked}
use gardener_extension_priva.World.Calls.{Call}
use gardener_extension_priva.World.Emits.{Emits}
use gardener_extension_priva.World.Ensures.{Post, Ensures}
use gardener_extension_priva.World.Monad.{M, pure, fail, non_nil, attempt, ◌>>=◌}
use gardener_extension_priva.World.Reads.{IsRead}

-- Every call of the history was justified by the calls before it.
abbrev pub Sound : (Call → List Call → Type 0) → List Call → Type 0
Sound J [] = Unit
Sound J (c ∷ h) = J c h × Sound J h

-- From a sound history in which `K` holds, `m` makes a sound history, and `Q` of what it returns.
pub record Guards {A : Type 0} (J : Call → List Call → Type 0) (K : List Call → Type 0)
    (Q : A → List Call → Type 0) (m : M A) : Type 0 where
  pub at : (h : List Call) → Sound J h → K h → Sound J (m h).1 × Post Q (m h)

abbrev pub Anyhow : List Call → Type 0
Anyhow h = Unit

abbrev pub Anything : {A : Type 0} → A → List Call → Type 0
Anything a h = Unit

pub Ensures-Anything : {A : Type 0} (m : M A) → Ensures Anything m
Ensures-Anything {A} m = record { at = λ h. go (m h) }
  where
    go : (r : Outcome A × List Call) → Post Anything r
    go (returned a, h) = tt
    go (failed e, h) = tt
    go (panicked, h) = tt

-- `Q` of the value of a part that may fail
abbrev pub OnOk : {A : Type 0} → (A → List Call → Type 0) → Result A → List Call → Type 0
OnOk Q (ok a) h = Q a h
OnOk Q (err e) h = Unit

pub Ensures-attempt_ok :
    {A : Type 0} {Q : A → List Call → Type 0} (m : M A) → Ensures Q m → Ensures (OnOk Q) (attempt m)
unfolding attempt
Ensures-attempt_ok {A} {Q} m em = record { at = λ h. go (m h) (em.at h) }
  where
    go : (r : Outcome A × List Call) → Post Q r → Post (OnOk Q) (attempt (λ h. r) [])
    go (returned a, h) q = q
    go (failed e, h) q = tt
    go (panicked, h) q = tt

Sound-grown :
    (J : Call → List Call → Type 0) (P : Call → Type 0) (h new : List Call)
    → ((c : Call) (newer : List Call) → P c → J c (newer ++ h))
    → All P new
    → Sound J h
    → Sound J (new ++ h)
Sound-grown J P h [] f p s = s
Sound-grown J P h (c ∷ new) f p s = (f c new p.0, Sound-grown J P h new f p.1 s)

module _ {A : Type 0} {J : Call → List Call → Type 0} {K : List Call → Type 0}
    {Q : A → List Call → Type 0} where
  -- an action whose calls are all justified by what holds before it
  pub Guards-Emits :
      (P : Call → Type 0) (m : M A)
      → ((c : Call) (newer h : List Call) → K h → P c → J c (newer ++ h))
      → Emits P m
      → Ensures Q m
      → Guards J K Q m
  Guards-Emits P m f em en = record {
    at = λ h s k.
        let (new, e, p) = em.at h in
        (rw e (Sound-grown J P h new (λ c newer q. f c newer h k q) p s), en.at h);
  }

  pub Guards-pure : (a : A) → ((h : List Call) → K h → Q a h) → Guards J K Q (pure a)
  unfolding pure
  Guards-pure a f = record { at = λ h s k. (s, f h k) }

  pub Guards-fail : (e : Error) → Guards J K Q (fail e)
  unfolding fail
  Guards-fail e = record { at = λ h s k. (s, tt) }

  pub Guards-non_nil :
      (o : Option A)
      → ((a : A) (h : List Call) → o ≡ some a → K h → Q a h)
      → Guards J K Q (non_nil o)
  unfolding non_nil
  Guards-non_nil none f = record { at = λ h s k. (s, tt) }
  Guards-non_nil (some a) f = record { at = λ h s k. (s, f a h refl k) }

  pub Guards-if :
      (b : Bool) (m n : M A) → Guards J K Q m → Guards J K Q n → Guards J K Q (if b then m else n)
  Guards-if true m n g g' = g
  Guards-if false m n g g' = g'

  pub Guards-weaken :
      {K' : List Call → Type 0} (m : M A)
      → ((h : List Call) → K h → K' h)
      → Guards J K' Q m
      → Guards J K Q m
  Guards-weaken m f g = record { at = λ h s k. g.at h s (f h k) }

module _ {A B : Type 0} {J : Call → List Call → Type 0} {K : List Call → Type 0}
    {R : B → List Call → Type 0} where
  pub Guards-bind :
      (Q : A → List Call → Type 0) (m : M A) (f : A → M B)
      → Guards J K Q m
      → ((a : A) → Guards J (Q a) R (f a))
      → Guards J K R (m >>= f)
  unfolding ◌>>=◌
  Guards-bind Q m f g k = record { at = λ h s p. let (s', q) = g.at h s p in go (m h) s' q }
    where
      go :
          (r : Outcome A × List Call)
          → Sound J r.1
          → Post Q r
          → let t = ((λ h. r) >>= f) [] in Sound J t.1 × Post R t
      go (returned a, h) s q = (k a).at h s q
      go (failed e, h) s q = (s, tt)
      go (panicked, h) s q = (s, tt)

-- a first part of a block that only reads, where reads need no justification
pub Guards-after :
    {A B : Type 0} {J : Call → List Call → Type 0} {R : B → List Call → Type 0} (m : M A)
    (f : A → M B)
    → ((c : Call) (h : List Call) → IsRead c → J c h)
    → Emits IsRead m
    → ((a : A) → Guards J Anyhow R (f a))
    → Guards J Anyhow R (m >>= f)
Guards-after m f reads em g =
    Guards-bind (λ a. Anyhow) m f
      (Guards-Emits IsRead m (λ c newer h k r. reads c (newer ++ h) r) em (Ensures-Anything m)) g
