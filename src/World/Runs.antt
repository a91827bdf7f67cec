-- ===== src/World/Runs.antt =====
-- What an action ends in and which writes it makes, from every history with given writes, by one rule
-- for each way to build an action: for environments whose answers after these writes are known.
use mathlib.Core.List.{append_assoc}
use gardener_extension_priva.Base.{
  ◌≡◌, refl, sym, ap, ◌∙◌, Bool, true, false, Option, some, List, [], ◌∷◌, ◌++◌, keep,
  if◌then◌else◌,
}
use gardener_extension_priva.Fault.{Error, Result, ok, err, Outcome, returned, failed}
use gardener_extension_priva.World.Calls.{Call, Response, Env, is_write, writes}
use gardener_extension_priva.World.Monad.{
  M, pure, fail, ask, or_fail, non_nil, on_error, attempt, ◌>>=◌,
}

-- From every history with these writes, `m` ends in the outcome, and makes the new writes, newest first.
pub record Runs {A : Type 0} (w : List Call) (m : M A) (o : Outcome A) (ws : List Call)
    : Type 0 where
  pub at :
      (h : List Call) → writes h ≡ w → (h' : List Call) × (m h ≡ (o, h')) × (writes h' ≡ ws ++ w)

pub Runs-elim :
    {A : Type 0} {w : List Call} {m : M A} {o : Outcome A} {ws : List Call} (h : List Call)
    → writes h ≡ w
    → Runs w m o ws
    → ((m h).0 ≡ o) × (writes (m h).1 ≡ ws ++ w)
Runs-elim {m} {o} h before r =
    let (h', e, q) = r.at h before in (ap (λ p. p.0) e, ap (λ p. writes p.1) e ∙ q)

-- The writes of two parts, one after the other.
pub Runs-elim_append :
    {A : Type 0} {w : List Call} {m : M A} {o : Outcome A} (ws ws' : List Call) (h : List Call)
    → writes h ≡ w
    → Runs w m o (ws' ++ ws)
    → ((m h).0 ≡ o) × (writes (m h).1 ≡ ws' ++ (ws ++ w))
Runs-elim_append {w} ws ws' h before r =
    let (e, p) = Runs-elim h before r in (e, p ∙ append_assoc ws' ws w)

module _ {A : Type 0} {w : List Call} where
  pub Runs-pure : (a : A) → Runs w (pure a) (returned a) []
  unfolding pure
  Runs-pure a = record { at = λ h p. (h, refl, p) }

  pub Runs-fail : (e : Error) → Runs w (fail {A = A} e) (failed e) []
  unfolding fail
  Runs-fail e = record { at = λ h p. (h, refl, p) }

  pub Runs-or_fail :
      (wrap : Error → Error) (r : Result A) (a : A)
      → r ≡ ok a
      → Runs w (or_fail wrap r) (returned a) []
  unfolding or_fail
  Runs-or_fail wrap r a e = record { at = λ h p. (h, rw e refl, p) }

  pub Runs-non_nil : (o : Option A) (a : A) → o ≡ some a → Runs w (non_nil o) (returned a) []
  unfolding non_nil
  Runs-non_nil o a e = record { at = λ h p. (h, rw e refl, p) }

  pub Runs-on_error :
      (wrap : Error → Error) (m : M A) (a : A) (ws : List Call)
      → Runs w m (returned a) ws
      → Runs w (on_error wrap m) (returned a) ws
  unfolding on_error
  Runs-on_error wrap m a ws r = record {
    at = λ h p. let (h', e, q) = r.at h p in (h', rw e refl, q);
  }

  pub Runs-attempt :
      (m : M A) (a : A) (ws : List Call)
      → Runs w m (returned a) ws
      → Runs w (attempt m) (returned (ok a)) ws
  unfolding attempt
  Runs-attempt m a ws r = record { at = λ h p. let (h', e, q) = r.at h p in (h', rw e refl, q) }

  pub Runs-attempt_failed :
      (m : M A) (e : Error) (ws : List Call)
      → Runs w m (failed e) ws
      → Runs w (attempt m) (returned (err e)) ws
  unfolding attempt
  Runs-attempt_failed m x ws r = record {
    at = λ h p. let (h', e, q) = r.at h p in (h', rw e refl, q);
  }

  pub Runs-if_true :
      (b : Bool) (m n : M A) (o : Outcome A) (ws : List Call)
      → b ≡ true
      → Runs w m o ws
      → Runs w (if b then m else n) o ws
  Runs-if_true true m n o ws e r = r
  Runs-if_true false m n o ws e r = absurd (cc e)

  pub Runs-if_false :
      (b : Bool) (m n : M A) (o : Outcome A) (ws : List Call)
      → b ≡ false
      → Runs w n o ws
      → Runs w (if b then m else n) o ws
  Runs-if_false false m n o ws e r = r
  Runs-if_false true m n o ws e r = absurd (cc e)

-- What a call answers after these writes, whatever else was read.
abbrev pub Answers : Env → List Call → (c : Call) → Response c → Type 0
Answers env w c r = (h : List Call) → writes h ≡ w → env c h ≡ r

pub Runs-read :
    {w : List Call} (env : Env) (c : Call) (r : Response c)
    → is_write c ≡ false
    → Answers env w c r
    → Runs w (ask env c) (returned r) []
unfolding ask
Runs-read env c r p e = record {
  at = λ h q. (c ∷ h, ap (λ a. (returned a, c ∷ h)) (e h q), rw (p, keep) q);
}

pub Runs-write :
    {w : List Call} (env : Env) (c : Call) (r : Response c)
    → is_write c ≡ true
    → Answers env w c r
    → Runs w (ask env c) (returned r) (c ∷ [])
unfolding ask
Runs-write env c r p e = record {
  at = λ h q. (c ∷ h, ap (λ a. (returned a, c ∷ h)) (e h q), rw (p, keep) (ap (λ t. c ∷ t) q));
}

module _ {A B : Type 0} {w : List Call} where
  pub Runs-bind :
      (m : M A) (f : A → M B) (a : A) (o : Outcome B) (ws ws' : List Call)
      → Runs w m (returned a) ws
      → Runs (ws ++ w) (f a) o ws'
      → Runs w (m >>= f) o (ws' ++ ws)
  unfolding ◌>>=◌
  Runs-bind m f a o ws ws' r s = record {
    at = λ h p.
        let (h', e, q) = r.at h p in
        let (h'', e', q') = s.at h' q in (h'', rw e e', q' ∙ sym (append_assoc ws' ws w));
  }

  -- a first part that only reads
  pub Runs-after :
      (m : M A) (f : A → M B) (a : A) (o : Outcome B) (ws : List Call)
      → Runs w m (returned a) []
      → Runs w (f a) o ws
      → Runs w (m >>= f) o ws
  unfolding ◌>>=◌
  Runs-after m f a o ws r s = record {
    at = λ h p. let (h', e, q) = r.at h p in let (h'', e', q') = s.at h' q in (h'', rw e e', q');
  }

  pub Runs-stop :
      (m : M A) (f : A → M B) (e : Error) (ws : List Call)
      → Runs w m (failed e) ws
      → Runs w (m >>= f) (failed e) ws
  unfolding ◌>>=◌
  Runs-stop m f x ws r = record { at = λ h p. let (h', e, q) = r.at h p in (h', rw e refl, q) }
