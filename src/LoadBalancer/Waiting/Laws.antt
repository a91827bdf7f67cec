-- ===== src/LoadBalancer/Waiting/Laws.antt =====
-- The waits: they end within their number of polls, and they succeed only in the state waited for.
use gardener_extension_priva.Base.{
  ℕ, zero, suc, ◌≤◌, String, ◌≡◌, ◌≢◌, refl, ap, ◌∙◌, Bool, true, Option, none, some, List, [], ◌∷◌,
  ◌++◌, length, All, Bool-cases, inl, inr, arith, ◌==◌, eq_iff,
}
use gardener_extension_priva.Constants.{
  provisioning_active_status, provisioning_error_status, steps, wait_loadbalancer_delete_steps,
}
use gardener_extension_priva.Fault.{Error, Result, ok, err, returned, panicked, is_not_found}
use gardener_extension_priva.OpenStack.{ServiceClient, LoadBalancer}
use gardener_extension_priva.World.{Call, Env, pure, fail}
use gardener_extension_priva.Wait.{Backoff, Condition, Wait, WaitLaws, after_poll}
use gardener_extension_priva.LoadBalancer.Waiting.{
  Polled, loaded, active_verdict, deleted_verdict, active_backoff, deleted_backoff, poll_active,
  poll_deleted, on_interrupt, wait_active_and_get_load_balancer, wait_loadbalancer_deleted,
  error_or_done,
}

-- The history grew by at most `n` calls, all of them `c`.
abbrev pub Repeats : Call → ℕ → List Call → List Call → Type 0
Repeats c n h h' =
    (calls : List Call) × (h' ≡ calls ++ h) × (length calls ≤ n) × All (λ d. d ≡ c) calls

Repeats-zero : (c : Call) (h : List Call) → Repeats c zero h h
Repeats-zero c h = ([], refl, omega arith, tt)

Repeats-one : (c : Call) (n : ℕ) (h : List Call) → Repeats c (suc n) h (c ∷ h)
Repeats-one c n h = (c ∷ [], refl, omega arith, (refl, tt))

pub snoc : (c : Call) (calls h : List Call) → calls ++ (c ∷ h) ≡ (calls ++ c ∷ []) ++ h
snoc c [] h = refl
snoc c (d ∷ calls) h = ap (λ t. d ∷ t) (snoc c calls h)

All-snoc :
    (c : Call) (calls : List Call) → All (λ d. d ≡ c) calls → All (λ d. d ≡ c) (calls ++ c ∷ [])
All-snoc c [] p = (refl, tt)
All-snoc c (d ∷ calls) p = (p.0, All-snoc c calls p.1)

length-snoc : (c : Call) (calls : List Call) → length (calls ++ c ∷ []) ≡ suc (length calls)
length-snoc c [] = refl
length-snoc c (d ∷ calls) = ap suc (length-snoc c calls)

Repeats-more :
    (c : Call) (n : ℕ) (h h' : List Call) → Repeats c n (c ∷ h) h' → Repeats c (suc n) h h'
Repeats-more c n h h' (calls, e, le, p) =
    (calls ++ c ∷ [], e ∙ snoc c calls h, omega (arith, length-snoc c calls), All-snoc c calls p)

-- What a wait is to give from a history: a bounded number of reads, and `Q` of what was read last
-- where there is no error.
abbrev pub Waited :
    Call
    → (Option LoadBalancer → List Call → Type 0)
    → ℕ
    → List Call
    → Option Error × Polled
    → Type 0
Waited c Q n h (e, (lb, h')) = Repeats c n h h' × (e ≡ none → Q lb h')

module _ (c : Call) (Q : Option LoadBalancer → List Call → Type 0) (wait : Wait)
    (laws : WaitLaws wait) (cond : Condition Polled)
    (polls : (n : ℕ) (k : Polled → Option Error × Polled) (lb : Option LoadBalancer) (h : List Call)
      → ((lb' : Option LoadBalancer) → Waited c Q n (c ∷ h) (k (lb', c ∷ h)))
      → Waited c Q (suc n) h (after_poll k (cond (lb, h)))) where
  pub backoff-Waited :
      (n : ℕ) (b : Backoff) (lb : Option LoadBalancer) (h : List Call)
      → b.steps ≡ n
      → Waited c Q n h (wait.exponential_backoff Polled b cond (lb, h))
  backoff-Waited zero b lb h e =
      rw (laws.exhausted Polled b cond (lb, h) e) (Repeats-zero c h, λ q. cc)
  backoff-Waited (suc n) b lb h e =
      rw (laws.poll Polled b cond (lb, h) n e)
        (polls n _ lb h λ lb'. backoff-Waited n (laws.next b) lb' (c ∷ h) (laws.steps-next b n e))

Waited-more :
    (c : Call) (Q : Option LoadBalancer → List Call → Type 0) (n : ℕ) (h : List Call)
    (r : Option Error × Polled)
    → Waited c Q n (c ∷ h) r
    → Waited c Q (suc n) h r
Waited-more c Q n h (e, (lb, h')) (calls, done) = (Repeats-more c n h h' calls, done)

module _ (env : Env) (client : ServiceClient) (id : String) where
  abbrev pub get : Call
  get = Call.get_load_balancer client id

  -- The last read answered with a load balancer that is ACTIVE, and that is what was returned.
  abbrev pub ReadActive : Option LoadBalancer → List Call → Type 0
  ReadActive lb h =
      (l : LoadBalancer) × (before : List Call) × (h ≡ get ∷ before)
      × (env get before ≡ ok l)
      × (lb ≡ some l)
      × (l.provisioning_status ≡ provisioning_active_status)

  -- The last read answered that there is no such load balancer.
  abbrev pub ReadGone : Option LoadBalancer → List Call → Type 0
  ReadGone lb h =
      (e : Error) × (before : List Call) × (h ≡ get ∷ before)
      × (env get before ≡ err e)
      × (is_not_found e ≡ true)

  pub active_step :
      (n : ℕ) (answer : Result LoadBalancer) (k : Polled → Option Error × Polled) (h : List Call)
      → env get h ≡ answer
      → ((lb : Option LoadBalancer) → Waited get ReadActive n (get ∷ h) (k (lb, get ∷ h)))
      → Waited get ReadActive
          (suc n)
          h
          (after_poll k (active_verdict id answer, (loaded answer, get ∷ h)))
  active_step n (err e) k h a next = (Repeats-one get n h, λ q. cc)
  active_step n (ok lb) k h a next =
      elim (Bool-cases (lb.provisioning_status == provisioning_active_status)) [
        | inl active ↦
            rw active (Repeats-one get n h, λ q. (lb, h, refl, a, refl, (eq_iff _ _).0 active))
        | inr waiting ↦
            rw waiting (elim (Bool-cases (lb.provisioning_status == provisioning_error_status)) [
              | inl broken ↦ rw broken (Repeats-one get n h, λ q. cc)
              | inr pending ↦ rw pending (Waited-more get ReadActive n h _ (next (some lb)))
            ])
      ]

  deleted_step :
      (n : ℕ) (answer : Result LoadBalancer) (k : Polled → Option Error × Polled)
      (lb : Option LoadBalancer) (h : List Call)
      → env get h ≡ answer
      → ((lb' : Option LoadBalancer) → Waited get ReadGone n (get ∷ h) (k (lb', get ∷ h)))
      → Waited get ReadGone (suc n) h (after_poll k (deleted_verdict answer, (lb, get ∷ h)))
  deleted_step n (ok l) k lb h a next = Waited-more get ReadGone n h (k (lb, get ∷ h)) (next lb)
  deleted_step n (err e) k lb h a next = elim (Bool-cases (is_not_found e)) [
    | inl gone ↦ rw gone (Repeats-one get n h, λ q. (e, h, refl, a, gone))
    | inr failing ↦ rw failing (Repeats-one get n h, λ q. cc)
  ]

  -- an interrupted wait ends in an error too
  pub on_interrupt-none :
      (interrupted : Error → Bool) (timeout : Error) (e : Option Error)
      → on_interrupt interrupted timeout e ≡ none
      → e ≡ none
  on_interrupt-none interrupted timeout e h = ground arith

  deleted_end :
      (n : ℕ) (h : List Call) (o : Option Error) (p : Polled)
      → Repeats get n h p.1 × (o ≡ none → ReadGone p.0 p.1)
      → let r = error_or_done o p.1 in
        Repeats get n h r.1 × (r.0 ≢ panicked) × (r.0 ≡ returned tt → ReadGone none r.1)
  unfolding pure fail
  deleted_end n h none p w = (w.0, λ q. cc, λ q. w.1 refl)
  deleted_end n h (some e) p w = (w.0, λ q. cc, λ q. cc)

  module _ (wait : Wait) (laws : WaitLaws wait) (h : List Call) where
    -- Under the laws of `wait`, `WaitActiveAndGetLoadBalancer` returns, makes no call but reads of the
    -- load balancer, 25 at most, and gives no error only if the last read found it ACTIVE; that
    -- load balancer is then the result.
    pub wait_active_lem :
        (lb : Option LoadBalancer) × (e : Option Error) × (h' : List Call)
        × (wait_active_and_get_load_balancer env wait client id h ≡ (returned (lb, e), h'))
        × Repeats get steps h h'
        × (e ≡ none → ReadActive lb h')
    unfolding wait_active_and_get_load_balancer
    wait_active_lem =
        let w =
          backoff-Waited get ReadActive wait laws (poll_active env client id)
            (λ n k lb h'. active_step n (env get h') k h' refl) 25 active_backoff none h refl in
        (_, _, _, refl, w.0, λ q. w.1 (on_interrupt-none _ _ _ q))

    -- Under the laws of `wait`, `waitLoadbalancerDeleted` makes no call but reads of the load
    -- balancer, 12 at most; it does not panic, and returns only if the last read found none.
    pub wait_deleted_lem :
        let r = wait_loadbalancer_deleted env wait client id h in
        Repeats get wait_loadbalancer_delete_steps h r.1
        × (r.0 ≢ panicked)
        × (r.0 ≡ returned tt → ReadGone none r.1)
    unfolding wait_loadbalancer_deleted
    wait_deleted_lem =
        let w =
          backoff-Waited get ReadGone wait laws (poll_deleted env client id)
            (λ n k lb h'. deleted_step n (env get h') k lb h' refl) 12 deleted_backoff none h
            refl in
        let polled =
          wait.exponential_backoff Polled deleted_backoff (poll_deleted env client id) (none, h) in
        deleted_end 12 h _ polled.1 (w.0, λ q. w.1 (on_interrupt-none _ _ _ q))
