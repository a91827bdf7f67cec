-- ===== src/World/Costs.antt =====
-- How many calls an action makes at most, and what holds of the value that it returns, by one rule
-- for each way to build an action.
use gardener_extension_priva.Base.{
  ℕ, ◌+◌, ◌≤◌, ◌≡◌, refl, ap, ◌∙◌, Bool, true, false, Option, none, some, List, length,
  if◌then◌else◌, arith,
}
use gardener_extension_priva.Fault.{Error, Result, ok, err, Outcome, returned, failed, panicked}
use gardener_extension_priva.OpenStack.{
  ServiceClient, Listener, ListenerListOpts, FloatingIp, FloatingIpListOpts, Subnet, SubnetListOpts,
}
use gardener_extension_priva.World.Calls.{Call, Pages, Response, Env}
use gardener_extension_priva.World.Monad.{
  M, pure, fail, panic, ask, or_fail, non_nil, on_error, attempt, handle, ◌>>=◌,
}

-- `Q` of the value, where there is one.
abbrev pub Value : {A : Type 0} → (A → Type 0) → Outcome A → Type 0
Value Q (returned a) = Q a
Value Q (failed e) = Unit
Value Q panicked = Unit

pub record Costs {A : Type 0} (n : ℕ) (Q : A → Type 0) (m : M A) : Type 0 where
  pub at : (h : List Call) → (length (m h).1 ≤ n + length h) × Value Q (m h).0

-- The number of calls alone.
abbrev pub Calls : {A : Type 0} → ℕ → M A → Type 0
Calls n m = Costs n (λ a. Unit {0}) m

module _ {A : Type 0} {Q : A → Type 0} where
  pub Costs-pure : (a : A) → Q a → Costs 0 Q (pure a)
  unfolding pure
  Costs-pure a q = record { at = λ h. (omega arith, q) }

  pub Costs-fail : (e : Error) → Costs 0 Q (fail e)
  unfolding fail
  Costs-fail e = record { at = λ h. (omega arith, tt) }

  pub Costs-panic : Costs 0 Q panic
  unfolding panic
  Costs-panic = record { at = λ h. (omega arith, tt) }

  pub Costs-or_fail :
      (wrap : Error → Error) (r : Result A)
      → ((a : A) → r ≡ ok a → Q a)
      → Costs 0 Q (or_fail wrap r)
  unfolding or_fail
  Costs-or_fail wrap (ok a) q = record { at = λ h. (omega arith, q a refl) }
  Costs-or_fail wrap (err e) q = record { at = λ h. (omega arith, tt) }

  pub Costs-non_nil : (o : Option A) → ((a : A) → o ≡ some a → Q a) → Costs 0 Q (non_nil o)
  unfolding non_nil
  Costs-non_nil none q = record { at = λ h. (omega arith, tt) }
  Costs-non_nil (some a) q = record { at = λ h. (omega arith, q a refl) }

  -- fewer calls than allowed, and more known of the value than asked for
  pub Costs-weaken :
      {n : ℕ} (n' : ℕ) {R : A → Type 0} {m : M A}
      → n ≤ n'
      → ((a : A) → R a → Q a)
      → Costs n R m
      → Costs n' Q m
  Costs-weaken n' {R} {m} le f c = record {
    at = λ h. let (l, r) = c.at h in (omega arith, go (m h).0 r);
  }
    where
      go : (o : Outcome A) → Value R o → Value Q o
      go (returned a) r = f a r
      go (failed e) r = tt
      go panicked r = tt

  pub Costs-on_error :
      {n : ℕ} (wrap : Error → Error) (m : M A) → Costs n Q m → Costs n Q (on_error wrap m)
  unfolding on_error
  Costs-on_error wrap m c = record { at = λ h. let (l, r) = c.at h in (l, go (m h).0 (m h).1 r) }
    where
      go : (o : Outcome A) (h : List Call) → Value Q o → Value Q (on_error wrap (λ g. (o, g)) h).0
      go (returned a) h r = r
      go (failed e) h r = tt
      go panicked h r = tt

  pub Costs-if :
      {n : ℕ} (b : Bool) (m m' : M A) → Costs n Q m → Costs n Q m' → Costs n Q (if b then m else m')
  Costs-if true m m' c c' = c
  Costs-if false m m' c c' = c'

pub Costs-attempt : {A : Type 0} {n : ℕ} (m : M A) → Calls n m → Calls n (attempt m)
unfolding attempt
Costs-attempt {A} m c = record { at = λ h. let (l, r) = c.at h in (l, go (m h).0 (m h).1) }
  where
    go : (o : Outcome A) (h : List Call) → Value (λ a. Unit {0}) (attempt (λ g. (o, g)) h).0
    go (returned a) h = tt
    go (failed e) h = tt
    go panicked h = tt

pub Costs-ask :
    (env : Env) (c : Call) {Q : Response c → Type 0}
    → ((h : List Call) → Q (env c h))
    → Costs 1 Q (ask env c)
unfolding ask
Costs-ask env c q = record { at = λ h. (omega arith, q h) }

module _ {A B : Type 0} {Q : A → Type 0} {R : B → Type 0} where
  pub Costs-bind :
      (n n' : ℕ) (m : M A) (f : A → M B)
      → Costs n Q m
      → ((a : A) → Q a → Costs n' R (f a))
      → Costs (n + n') R (m >>= f)
  unfolding ◌>>=◌
  Costs-bind n n' m f c d = record { at = λ h. let (l, q) = c.at h in go (m h).0 h (m h).1 l q }
    where
      go :
          (o : Outcome A) (h h' : List Call)
          → length h' ≤ n + length h
          → Value Q o
          → let r = ((λ g. (o, g)) >>= f) h' in (length r.1 ≤ n + n' + length h) × Value R r.0
      go (returned a) h h' l q = let (l', r) = (d a q).at h' in (omega arith, r)
      go (failed e) h h' l q = (omega arith, tt)
      go panicked h h' l q = (omega arith, tt)

pub Costs-handle :
    {A B : Type 0} {Q : B → Type 0} {n : ℕ} (r : Result A) (f : A → M B) (g : Error → M B)
    → ((a : A) → Costs n Q (f a))
    → ((e : Error) → Costs n Q (g e))
    → Costs n Q (handle r f g)
Costs-handle (ok a) f g c d = c a
Costs-handle (err e) f g c d = d e

pub Value-any : {A : Type 0} (o : Outcome A) → Value (λ a. Unit {0}) o
Value-any (returned a) = tt
Value-any (failed e) = tt
Value-any panicked = tt

-- The rules where only the number of calls matters.
module _ {A : Type 0} where
  pub Calls-pure : (a : A) → Calls 0 (pure a)
  Calls-pure a = Costs-pure a tt

  pub Calls-or_fail : (wrap : Error → Error) (r : Result A) → Calls 0 (or_fail wrap r)
  Calls-or_fail wrap r = Costs-or_fail wrap r λ a e. tt

  pub Calls-non_nil : (o : Option A) → Calls 0 (non_nil o)
  Calls-non_nil o = Costs-non_nil o λ a e. tt

  pub Calls-weaken : {n : ℕ} (n' : ℕ) {m : M A} → n ≤ n' → Calls n m → Calls n' m
  Calls-weaken n' le c = Costs-weaken n' le (λ a r. tt) c

pub Calls-ask : (env : Env) (c : Call) → Calls 1 (ask env c)
Calls-ask env c = Costs-ask env c λ h. tt

module _ {A B : Type 0} {R : B → Type 0} where
  pub Calls-bind :
      (n n' : ℕ) (m : M A) (f : A → M B)
      → Calls n m
      → ((a : A) → Costs n' R (f a))
      → Costs (n + n') R (m >>= f)
  Calls-bind n n' m f c d = Costs-bind n n' m f c λ a u. d a

-- The rules for blocks of one call at most, which `search` applies.
module _ {A : Type 0} where
  pub Calls-fail : (e : Error) → Calls 0 (fail {A = A} e)
  Calls-fail e = Costs-fail e

  pub Calls-panic : Calls 0 (panic {A = A})
  Calls-panic = Costs-panic

module _ {A B : Type 0} where
  pub Calls-bind_none :
      (m : M A) (f : A → M B) → Calls 0 m → ((a : A) → Calls 0 (f a)) → Calls 0 (m >>= f)
  Calls-bind_none m f c d = Calls-bind 0 0 m f c d

  pub Calls-bind_first :
      (m : M A) (f : A → M B) → Calls 1 m → ((a : A) → Calls 0 (f a)) → Calls 1 (m >>= f)
  Calls-bind_first m f c d = Calls-bind 1 0 m f c d

  pub Calls-bind_later :
      (m : M A) (f : A → M B) → Calls 0 m → ((a : A) → Calls 1 (f a)) → Calls 1 (m >>= f)
  Calls-bind_later m f c d = Calls-bind 0 1 m f c d

pub ruleset one_call_rules = (
  Calls-pure, Calls-fail, Calls-panic, Calls-or_fail, Calls-non_nil, Costs-on_error, Costs-attempt,
  Costs-if, Calls-ask, Calls-bind_none, Calls-bind_first, Calls-bind_later,
)

-- No listing that loops go through has more than `k` entries.
pub record Short (env : Env) (k : ℕ) : Type 0 where
  pub listeners :
      (client : ServiceClient) (opts : ListenerListOpts) (h : List Call) (ls : List Listener)
      → env (Call.list_listeners client opts) h ≡ ok (ok ls)
      → length ls ≤ k
  pub floating_ips :
      (client : ServiceClient) (opts : FloatingIpListOpts) (h : List Call) (ls : List FloatingIp)
      → env (Call.list_floating_ips client opts) h ≡ ok (ok ls)
      → length ls ≤ k
  pub subnets :
      (client : ServiceClient) (opts : SubnetListOpts) (h : List Call) (ls : List Subnet)
      → env (Call.list_subnets client opts) h ≡ ok (ok ls)
      → length ls ≤ k

-- What the two errors of a listing leave of it.
abbrev pub Listed : {A : Type 0} → ℕ → Pages A → Type 0
Listed {A} k r = (ls : List A) → r ≡ ok (ok ls) → length ls ≤ k

pub Costs-extracted :
    {A : Type 0} (k : ℕ) (wrap wrap' : Error → Error) (r : Pages A)
    → Listed k r
    → Costs 0 (λ ls. length ls ≤ k) (or_fail wrap r >>= λ pages. or_fail wrap' pages)
Costs-extracted {A} k wrap wrap' r q =
    Costs-bind {Q = λ pages. (ls : List A) → pages ≡ ok ls → length ls ≤ k} 0 0 _ _
      (Costs-or_fail wrap r λ pages e ls e'. q ls (e ∙ ap ok e'))
      λ pages q'. Costs-or_fail wrap' pages λ ls e. q' ls e

-- the rest of a block that goes through a listing
pub Costs-pages :
    {A B : Type 0} {R : B → Type 0} (k n : ℕ) (wrap wrap' : Error → Error) (r : Pages A)
    (f : List A → M B)
    → Listed k r
    → ((ls : List A) → length ls ≤ k → Costs n R (f ls))
    → Costs (0 + (0 + n)) R (or_fail wrap r >>= λ pages. or_fail wrap' pages >>= f)
Costs-pages {A} k n wrap wrap' r f q c =
    Costs-bind {Q = λ pages. (ls : List A) → pages ≡ ok ls → length ls ≤ k} 0 (0 + n) _ _
      (Costs-or_fail wrap r λ pages e ls e'. q ls (e ∙ ap ok e'))
      λ pages q'.
        Costs-bind {Q = λ ls. length ls ≤ k} 0 n _ _ (Costs-or_fail wrap' pages λ ls e. q' ls e) c
