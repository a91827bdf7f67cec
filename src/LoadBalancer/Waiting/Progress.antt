-- ===== src/LoadBalancer/Waiting/Progress.antt =====
-- When the waits end: at the first read that shows the state waited for, if it is within the number
-- of polls, and otherwise in a timeout.
use gardener_extension_priva.Base.{
  ℕ, zero, suc, ◌<◌, String, ◌≡◌, ◌≢◌, refl, ap, ◌∙◌, Bool, true, false, Option, none, some, List,
  ◌∷◌, arith, ==_of_ne, ==_of_eq,
}
use gardener_extension_priva.Constants.{
  provisioning_active_status, provisioning_error_status, steps, wait_loadbalancer_delete_steps,
}
use gardener_extension_priva.Fault.{Error, Result, ok, err, returned, failed, is_not_found}
use gardener_extension_priva.OpenStack.{ServiceClient, LoadBalancer}
use gardener_extension_priva.World.{Call, Env, pure, fail}
use gardener_extension_priva.Wait.{Backoff, Condition, Wait, WaitLaws, after_poll}
use gardener_extension_priva.LoadBalancer.Waiting.{
  Polled, loaded, active_verdict, deleted_verdict, active_backoff, deleted_backoff, active_timeout,
  deleted_timeout, on_interrupt, get_call, wait_active_and_get_load_balancer,
  wait_loadbalancer_deleted,
}

-- The history after `n` more of the same call.
abbrev pub repeated : Call → ℕ → List Call → List Call
repeated c zero h = h
repeated c (suc n) h = repeated c n (c ∷ h)

module _ (env : Env) (client : ServiceClient) (id : String) (wait : Wait) (laws : WaitLaws wait)
    (verdict : Result LoadBalancer → Bool × Option Error)
    (pointer : Option LoadBalancer → Result LoadBalancer → Option LoadBalancer) where
  abbrev get : Call
  get = get_call env client id

  abbrev cond : Condition Polled
  cond (lb, h) = (verdict (env get h), (pointer lb (env get h), get ∷ h))

  abbrev Waits : List Call → ℕ → Type 0
  Waits h i = verdict (env get (repeated get i h)) ≡ (false, none)

  poll_waiting :
      (b : Backoff) (lb : Option LoadBalancer) (h : List Call) (n : ℕ)
      → b.steps ≡ suc n
      → verdict (env get h) ≡ (false, none)
      → wait.exponential_backoff Polled b cond (lb, h)
        ≡ wait.exponential_backoff Polled (laws.next b) cond (pointer lb (env get h), get ∷ h)
  poll_waiting b lb h n e v =
      laws.poll Polled b cond (lb, h) n e
      ∙ ap
          (λ w.
            after_poll (wait.exponential_backoff Polled (laws.next b) cond)
              (w, (pointer lb (env get h), get ∷ h)))
          v

  poll_done :
      (b : Backoff) (lb : Option LoadBalancer) (h : List Call) (n : ℕ)
      → b.steps ≡ suc n
      → verdict (env get h) ≡ (true, none)
      → wait.exponential_backoff Polled b cond (lb, h) ≡ (none, (pointer lb (env get h), get ∷ h))
  poll_done b lb h n e v =
      laws.poll Polled b cond (lb, h) n e
      ∙ ap
          (λ w.
            after_poll (wait.exponential_backoff Polled (laws.next b) cond)
              (w, (pointer lb (env get h), get ∷ h)))
          v

  -- done at read `k`, with polls to spare
  backoff_done :
      (k n : ℕ) (b : Backoff) (lb : Option LoadBalancer) (h : List Call)
      → b.steps ≡ n
      → k < n
      → ((i : ℕ) → i < k → Waits h i)
      → verdict (env get (repeated get k h)) ≡ (true, none)
      → (before : Option LoadBalancer) × (wait.exponential_backoff Polled b cond (lb, h)
          ≡ (none, (pointer before (env get (repeated get k h)), repeated get (suc k) h)))
  backoff_done k zero b lb h e lt w v = absurd (omega arith)
  backoff_done zero (suc n) b lb h e lt w v = (lb, poll_done b lb h n e v)
  backoff_done (suc k) (suc n) b lb h e lt w v =
      let (before, p) =
        backoff_done k n (laws.next b) (pointer lb (env get h)) (get ∷ h) (laws.steps-next b n e)
          (omega arith) (λ i q. w (suc i) (omega arith)) v in
      (before, poll_waiting b lb h n e (w zero (omega arith)) ∙ p)

  -- out of polls
  backoff_exhausted :
      (n : ℕ) (b : Backoff) (lb : Option LoadBalancer) (h : List Call)
      → b.steps ≡ n
      → ((i : ℕ) → i < n → Waits h i)
      → (last : Option LoadBalancer) × (wait.exponential_backoff Polled b cond (lb, h)
          ≡ (some laws.timeout, (last, repeated get n h)))
  backoff_exhausted zero b lb h e w = (lb, laws.exhausted Polled b cond (lb, h) e)
  backoff_exhausted (suc n) b lb h e w =
      let (last, p) =
        backoff_exhausted n (laws.next b) (pointer lb (env get h)) (get ∷ h) (laws.steps-next b n e)
          (λ i q. w (suc i) (omega arith)) in
      (last, poll_waiting b lb h n e (w zero (omega arith)) ∙ p)

-- A read that shows neither ACTIVE nor ERROR.
abbrev pub IsPending : Result LoadBalancer → Type 0
IsPending r =
    (l : LoadBalancer) × (r ≡ ok l)
    × (l.provisioning_status ≢ provisioning_active_status)
    × (l.provisioning_status ≢ provisioning_error_status)

-- A read that finds the load balancer.
abbrev pub IsFound : Result LoadBalancer → Type 0
IsFound r = (l : LoadBalancer) × (r ≡ ok l)

active_verdict_pending :
    (id : String) (r : Result LoadBalancer) → IsPending r → active_verdict id r ≡ (false, none)
active_verdict_pending id r (l, e, p, q) = rw (e, active_verdict, ==_of_ne p, ==_of_ne q) refl

active_verdict_active :
    (id : String) (r : Result LoadBalancer) (l : LoadBalancer)
    → r ≡ ok l
    → l.provisioning_status ≡ provisioning_active_status
    → active_verdict id r ≡ (true, none)
active_verdict_active id r l e p = rw (e, active_verdict, ==_of_eq p) refl

deleted_verdict_found : (r : Result LoadBalancer) → IsFound r → deleted_verdict r ≡ (false, none)
deleted_verdict_found r (l, e) = rw e refl

deleted_verdict_gone :
    (r : Result LoadBalancer) (e : Error)
    → r ≡ err e
    → is_not_found e ≡ true
    → deleted_verdict r ≡ (true, none)
deleted_verdict_gone r e p q = rw (p, deleted_verdict, q) refl

module _ (env : Env) (client : ServiceClient) (id : String) (wait : Wait) (laws : WaitLaws wait)
    (h : List Call) where
  -- If the first `k` reads find the load balancer neither ACTIVE nor in ERROR, `k` below 25, and the
  -- next read finds it ACTIVE, then under the laws of `wait` the wait returns that load balancer,
  -- with no error and after exactly these reads.
  pub wait_active_reached :
      (k : ℕ) (lb : LoadBalancer)
      → k < steps
      → ((i : ℕ)
          → i < k
          → IsPending (env (get_call env client id) (repeated (get_call env client id) i h)))
      → env (get_call env client id) (repeated (get_call env client id) k h) ≡ ok lb
      → lb.provisioning_status ≡ provisioning_active_status
      → wait_active_and_get_load_balancer env wait client id h
        ≡ (returned (some lb, none), repeated (get_call env client id) (suc k) h)
  unfolding wait_active_and_get_load_balancer
  wait_active_reached k lb lt pending e active =
      let (before, p) =
        backoff_done env client id wait laws (active_verdict id) (λ _ r. loaded r) k 25
          active_backoff none h refl lt (λ i q. active_verdict_pending id _ (pending i q))
          (active_verdict_active id _ lb e active) in
      rw (p, on_interrupt, e) refl

  -- If 25 reads find the load balancer neither ACTIVE nor in ERROR, then under the laws of `wait` the
  -- wait ends after these reads in the timeout error of the code.
  pub wait_active_timeout :
      ((i : ℕ)
        → i < steps
        → IsPending (env (get_call env client id) (repeated (get_call env client id) i h)))
      → (last : Option LoadBalancer) × (wait_active_and_get_load_balancer env wait client id h
          ≡ (returned (last, some (active_timeout id)), repeated (get_call env client id) steps h))
  unfolding wait_active_and_get_load_balancer
  wait_active_timeout pending =
      let (last, p) =
        backoff_exhausted env client id wait laws (active_verdict id) (λ _ r. loaded r) 25
          active_backoff none h refl (λ i q. active_verdict_pending id _ (pending i q)) in
      (last, rw (p, on_interrupt, laws.interrupted-timeout) refl)

  -- If the first `k` reads still find the load balancer, `k` below 12, and the next read answers that
  -- there is none, then under the laws of `wait` the wait for its deletion returns after exactly
  -- these reads.
  pub wait_deleted_reached :
      (k : ℕ) (e : Error)
      → k < wait_loadbalancer_delete_steps
      → ((i : ℕ)
          → i < k
          → IsFound (env (get_call env client id) (repeated (get_call env client id) i h)))
      → env (get_call env client id) (repeated (get_call env client id) k h) ≡ err e
      → is_not_found e ≡ true
      → wait_loadbalancer_deleted env wait client id h
        ≡ (returned tt, repeated (get_call env client id) (suc k) h)
  unfolding wait_loadbalancer_deleted pure
  wait_deleted_reached k e lt found p gone =
      let (before, q) =
        backoff_done env client id wait laws deleted_verdict (λ lb _. lb) k 12 deleted_backoff none
          h refl lt (λ i r. deleted_verdict_found _ (found i r))
          (deleted_verdict_gone _ e p gone) in
      rw (q, on_interrupt) refl

  -- If 12 reads still find the load balancer, then under the laws of `wait` the wait for its deletion
  -- fails after these reads with the timeout error of the code.
  pub wait_deleted_timeout :
      ((i : ℕ)
        → i < wait_loadbalancer_delete_steps
        → IsFound (env (get_call env client id) (repeated (get_call env client id) i h)))
      → wait_loadbalancer_deleted env wait client id h ≡ (
        failed deleted_timeout,
        repeated (get_call env client id) wait_loadbalancer_delete_steps h,
      )
  unfolding wait_loadbalancer_deleted fail
  wait_deleted_timeout found =
      let (last, p) =
        backoff_exhausted env client id wait laws deleted_verdict (λ lb _. lb) 12 deleted_backoff
          none h refl (λ i q. deleted_verdict_found _ (found i q)) in
      rw (p, on_interrupt, laws.interrupted-timeout) refl
