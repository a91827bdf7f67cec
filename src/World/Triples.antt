-- ===== src/World/Triples.antt =====
-- What holds before an action, and what then holds where it returns: one rule for each way to build an
-- action, and what holds lastingly is carried along.
use gardener_extension_priva.Base.{
  ◌≡◌, refl, ap, Bool, true, false, Option, none, some, List, [], ◌∷◌, ◌++◌, if◌then◌else◌,
}
use gardener_extension_priva.Fault.{Error, Result, ok, err, Outcome, returned, failed, panicked}
use gardener_extension_priva.World.Calls.{Call}
use gardener_extension_priva.World.Emits.{Emits}
use gardener_extension_priva.World.Ensures.{Post, Ensures, Post-Grown}
use gardener_extension_priva.World.Guards.{OnOk}
use gardener_extension_priva.World.Monad.{
  M, pure, fail, or_fail, non_nil, on_error, attempt, handle, ◌>>=◌,
}

abbrev pub AnyCall : Call → Type 0
AnyCall c = Unit

-- The later history has only more calls.
abbrev pub Since : List Call → List Call → Type 0
Since start h = (new : List Call) × (h ≡ new ++ start)

-- What goes on to hold, whatever is called.
abbrev pub Lasting : (List Call → Type 0) → Type 0
Lasting K = (c : Call) (h : List Call) → K h → K (c ∷ h)

pub Lasting-append : (K : List Call → Type 0) (new h : List Call) → Lasting K → K h → K (new ++ h)
Lasting-append K [] h l k = k
Lasting-append K (c ∷ new) h l k = l c (new ++ h) (Lasting-append K new h l k)

pub Lasting-Since :
    (K : List Call → Type 0) (h h' : List Call) → Lasting K → Since h h' → K h → K h'
Lasting-Since K h h' l (new, e) k = rw e (Lasting-append K new h l k)

pub Since-Lasting : (start : List Call) → Lasting (Since start)
Since-Lasting start c h (new, e) = (c ∷ new, ap (λ t. c ∷ t) e)

pub Since-Emits : {A : Type 0} {m : M A} → Emits AnyCall m → (h : List Call) → Since h (m h).1
Since-Emits em h = let (new, e, p) = em.at h in (new, e)

pub record Triple {A : Type 0} (K : List Call → Type 0) (Q : A → List Call → Type 0) (m : M A)
    : Type 0 where
  pub at : (h : List Call) → K h → Post Q (m h)

module _ {A : Type 0} {K : List Call → Type 0} where
  -- an action that keeps what holds, and ensures more
  pub Triple-learn :
      {Q : A → List Call → Type 0} (m : M A)
      → Lasting K
      → Emits AnyCall m
      → Ensures Q m
      → Triple K (λ a h. K h × Q a h) m
  Triple-learn m l em en = record {
    at = λ h k.
        Post-Grown _ m em h (en.at h)
          (λ a h' q (new, e, _). (Lasting-Since K h h' l (new, e) k, q));
  }

  pub Triple-keep : (m : M A) → Lasting K → Emits AnyCall m → Triple K (λ _. K) m
  Triple-keep m l em = record { at = λ h k. go (m h) (Since-Emits em h) k }
    where
      go : {h : List Call} (r : Outcome A × List Call) → Since h r.1 → K h → Post (λ _. K) r
      go {h} (returned a, h') s k = Lasting-Since K h h' l s k
      go (failed e, h') s k = tt
      go (panicked, h') s k = tt

  pub Triple-weaken :
      {Q R : A → List Call → Type 0} (m : M A)
      → ((a : A) (h : List Call) → Q a h → R a h)
      → Triple K Q m
      → Triple K R m
  Triple-weaken {Q} {R} m f t = record { at = λ h k. go (m h) (t.at h k) }
    where
      go : (r : Outcome A × List Call) → Post Q r → Post R r
      go (returned a, h) q = f a h q
      go (failed e, h) q = tt
      go (panicked, h) q = tt

  pub Triple-pre :
      {K' : List Call → Type 0} {Q : A → List Call → Type 0} (m : M A)
      → ((h : List Call) → K h → K' h)
      → Triple K' Q m
      → Triple K Q m
  Triple-pre m f t = record { at = λ h k. t.at h (f h k) }

  pub Triple-pure :
      {Q : A → List Call → Type 0} (a : A) → ((h : List Call) → K h → Q a h) → Triple K Q (pure a)
  unfolding pure
  Triple-pure a f = record { at = f }

  pub Triple-fail : {Q : A → List Call → Type 0} (e : Error) → Triple K Q (fail e)
  unfolding fail
  Triple-fail e = record { at = λ h k. tt }

  pub Triple-if :
      {Q : A → List Call → Type 0} (b : Bool) (m n : M A)
      → (b ≡ true → Triple K Q m)
      → (b ≡ false → Triple K Q n)
      → Triple K Q (if b then m else n)
  Triple-if true m n f g = f refl
  Triple-if false m n f g = g refl

  pub Triple-non_nil : (o : Option A) → Triple K (λ a h. K h × (o ≡ some a)) (non_nil o)
  unfolding non_nil
  Triple-non_nil none = record { at = λ h k. tt }
  Triple-non_nil (some a) = record { at = λ h k. (k, refl) }

  pub Triple-or_fail :
      (wrap : Error → Error) (r : Result A) → Triple K (λ a h. K h × (r ≡ ok a)) (or_fail wrap r)
  unfolding or_fail
  Triple-or_fail wrap (ok a) = record { at = λ h k. (k, refl) }
  Triple-or_fail wrap (err e) = record { at = λ h k. tt }

  pub Triple-on_error :
      {Q : A → List Call → Type 0} (wrap : Error → Error) (m : M A)
      → Triple K Q m
      → Triple K Q (on_error wrap m)
  unfolding on_error
  Triple-on_error {Q} wrap m t = record { at = λ h k. go (m h) (t.at h k) }
    where
      go : (r : Outcome A × List Call) → Post Q r → Post Q (on_error wrap (λ h. r) [])
      go (returned a, h) q = q
      go (failed e, h) q = tt
      go (panicked, h) q = tt

  -- where the code goes on from an error, what held lastingly still holds
  pub Triple-attempt :
      {Q : A → List Call → Type 0} (m : M A)
      → Lasting K
      → Emits AnyCall m
      → Triple K Q m
      → Triple K (λ r h. K h × OnOk Q r h) (attempt m)
  unfolding attempt
  Triple-attempt {Q} m l em t = record { at = λ h k. go (m h) (Since-Emits em h) k (t.at h k) }
    where
      go :
          {h : List Call} (r : Outcome A × List Call)
          → Since h r.1
          → K h
          → Post Q r
          → Post (λ s g. K g × OnOk Q s g) (attempt (λ g. r) [])
      go {h} (returned a, h') s k q = (Lasting-Since K h h' l s k, q)
      go {h} (failed e, h') s k q = (Lasting-Since K h h' l s k, tt)
      go (panicked, h') s k q = tt

  -- what holds lastingly is carried along
  pub Triple-carry :
      (G : List Call → Type 0) {Q : A → List Call → Type 0} (m : M A)
      → Lasting G
      → Emits AnyCall m
      → Triple K Q m
      → Triple (λ h. G h × K h) (λ a h. G h × Q a h) m
  Triple-carry G {Q} m l em t = record { at = λ h k. go (m h) (Since-Emits em h) k.0 (t.at h k.1) }
    where
      go :
          {h : List Call} (r : Outcome A × List Call)
          → Since h r.1
          → G h
          → Post Q r
          → Post (λ a g. G g × Q a g) r
      go {h} (returned a, h') s k q = (Lasting-Since G h h' l s k, q)
      go (failed e, h') s k q = tt
      go (panicked, h') s k q = tt

module _ {A B : Type 0} {K : List Call → Type 0} {R : B → List Call → Type 0} where
  pub Triple-bind :
      (Q : A → List Call → Type 0) (m : M A) (f : A → M B)
      → Triple K Q m
      → ((a : A) → Triple (Q a) R (f a))
      → Triple K R (m >>= f)
  unfolding ◌>>=◌
  Triple-bind Q m f t k = record { at = λ h p. go (m h) (t.at h p) }
    where
      go : (r : Outcome A × List Call) → Post Q r → Post R (((λ h. r) >>= f) [])
      go (returned a, h) q = (k a).at h q
      go (failed e, h) q = tt
      go (panicked, h) q = tt

  pub Triple-handle :
      (r : Result A) (f : A → M B) (g : Error → M B)
      → ((a : A) → r ≡ ok a → Triple K R (f a))
      → ((e : Error) → r ≡ err e → Triple K R (g e))
      → Triple K R (handle r f g)
  Triple-handle (ok a) f g tf tg = tf a refl
  Triple-handle (err e) f g tf tg = tg e refl

  -- a first part that only has to keep what holds
  pub Triple-after :
      (m : M A) (f : A → M B)
      → Lasting K
      → Emits AnyCall m
      → ((a : A) → Triple K R (f a))
      → Triple K R (m >>= f)
  Triple-after m f l em k = Triple-bind (λ _. K) m f (Triple-keep m l em) k

pub Triple-elim :
    {A : Type 0} {K : List Call → Type 0} {Q : A → List Call → Type 0} {m : M A}
    → Triple K Q m
    → {h h' : List Call} {a : A} → K h
    → m h ≡ (returned a, h')
    → Q a h'
Triple-elim {m} t {h} k e = rw e at (t.at h k)
