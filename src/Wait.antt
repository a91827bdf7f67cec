-- ===== src/Wait.antt =====
-- k8s.io/apimachinery's `wait`, which the code polls with: `ExponentialBackoff` and `Interrupted`
-- are parameters, and their documented behaviour is `WaitLaws`.
use gardener_extension_priva.Base.{ℕ, suc, ◌≡◌, Bool, true, false, Option, none, some}
use gardener_extension_priva.Fault.{Error}

-- wait.Backoff: nanoseconds, the factor in tenths, and the number of polls
pub record Backoff : Type 0 where
  pub duration : ℕ
  pub factor : ℕ
  pub steps : ℕ

-- A condition reports whether it is done and an error, and may change the state that it closes over.
abbrev pub Condition : Type 0 → Type 0
Condition S = S → (Bool × Option Error) × S

pub record Wait : Type 1 where
  pub exponential_backoff : (S : Type 0) → Backoff → Condition S → S → Option Error × S
  pub interrupted : Error → Bool

-- What follows one poll: an error or a report that it is done ends the wait.
abbrev pub after_poll :
    {S : Type 0} → (S → Option Error × S) → (Bool × Option Error) × S → Option Error × S
after_poll continue ((done, some e), s) = (some e, s)
after_poll continue ((true, none), s) = (none, s)
after_poll continue ((false, none), s) = continue s

-- The documented behaviour: the condition is polled until it is done or fails, at most `steps`
-- times, and then the wait ends in an error that `Interrupted` recognises. `next` is the backoff
-- after one pause.
pub record WaitLaws (w : Wait) : Type 1 where
  pub next : Backoff → Backoff
  pub steps-next : (b : Backoff) (n : ℕ) → b.steps ≡ suc n → (next b).steps ≡ n
  pub timeout : Error
  pub interrupted-timeout : w.interrupted timeout ≡ true
  pub exhausted :
      (S : Type 0) (b : Backoff) (c : Condition S) (s : S)
      → b.steps ≡ 0
      → w.exponential_backoff S b c s ≡ (some timeout, s)
  pub poll :
      (S : Type 0) (b : Backoff) (c : Condition S) (s : S) (n : ℕ)
      → b.steps ≡ suc n
      → w.exponential_backoff S b c s ≡ after_poll (w.exponential_backoff S (next b) c) (c s)
