-- ===== src/LoadBalancer/Waiting/Reads.antt =====
-- `WaitActiveAndGetLoadBalancer`: what it returns, it read itself.
use gardener_extension_priva.Base.{
  ℕ, String, ◌≡◌, refl, sym, ◌∙◌, Bool-cases, inl, inr, Option, none, some, List, [], ◌∷◌, ◌++◌,
  arith, ◌==◌,
}
use gardener_extension_priva.Constants.{provisioning_active_status, provisioning_error_status}
use gardener_extension_priva.Fault.{Error, Result, ok, err, returned}
use gardener_extension_priva.OpenStack.{ServiceClient, LoadBalancer}
use gardener_extension_priva.World.{Call, Env}
use gardener_extension_priva.World.Triples.{Since}
use gardener_extension_priva.Wait.{Wait, WaitLaws, after_poll}
use gardener_extension_priva.LoadBalancer.Waiting.{
  Polled, loaded, active_verdict, active_backoff, poll_active, wait_active_and_get_load_balancer,
}
use gardener_extension_priva.LoadBalancer.Waiting.Laws.{
  Repeats, snoc, backoff-Waited, active_step, on_interrupt-none, get, ReadActive,
}

Repeats-none : (c : Call) (n : ℕ) (h : List Call) → Repeats c n h h
Repeats-none c n h = ([], refl, omega arith, tt)

module _ (env : Env) (client : ServiceClient) (id : String) where
  -- whatever its verdict, the first poll has read
  active_first :
      (n : ℕ) (answer : Result LoadBalancer) (k : Polled → Option Error × Polled) (h : List Call)
      → ((lb : Option LoadBalancer)
          → Repeats
              (get env client id)
              n
              (get env client id ∷ h)
              (k (lb, get env client id ∷ h)).1.1)
      → Repeats
          (get env client id)
          n
          (get env client id ∷ h)
          (after_poll k (active_verdict id answer, (loaded answer, get env client id ∷ h))).1.1
  active_first n (err e) k h next = Repeats-none _ n _
  active_first n (ok lb) k h next =
      elim (Bool-cases (lb.provisioning_status == provisioning_active_status)) [
        | inl active ↦ rw active (Repeats-none _ n _)
        | inr waiting ↦
            rw waiting (elim (Bool-cases (lb.provisioning_status == provisioning_error_status)) [
              | inl broken ↦ rw broken (Repeats-none _ n _)
              | inr pending ↦ rw pending (next (some lb))
            ])
      ]

  -- The newest call is a read, made after `start`, that found the load balancer ACTIVE.
  abbrev pub ReadSince : List Call → Option LoadBalancer → List Call → Type 0
  ReadSince start lb h =
      (l : LoadBalancer) × (before : List Call) × Since start before
      × (h ≡ get env client id ∷ before)
      × (env (get env client id) before ≡ ok l)
      × (lb ≡ some l)
      × (l.provisioning_status ≡ provisioning_active_status)

  newest-Since :
      (calls start before : List Call)
      → calls ++ get env client id ∷ start ≡ get env client id ∷ before
      → Since start before
  newest-Since [] start before e = ([], cc)
  newest-Since (c ∷ calls) start before e =
      let p : before ≡ calls ++ get env client id ∷ start = cc in
      (calls ++ get env client id ∷ [], p ∙ snoc (get env client id) calls start)

  ReadActive-Since :
      (n : ℕ) (start : List Call) (lb : Option LoadBalancer) (h : List Call)
      → Repeats (get env client id) n (get env client id ∷ start) h
      → ReadActive env client id lb h
      → ReadSince start lb h
  ReadActive-Since n start lb h (calls, e, _, _) (l, before, p, answer, q, active) =
      (l, before, newest-Since calls start before (sym e ∙ p), p, answer, q, active)

  module _ (wait : Wait) (laws : WaitLaws wait) (h : List Call) where
    -- the wait without an error: the load balancer was read after the history it started from
    pub wait_active_reads :
        (lb : Option LoadBalancer) × (e : Option Error) × (h' : List Call)
        × (wait_active_and_get_load_balancer env wait client id h ≡ (returned (lb, e), h'))
        × Since h h'
        × (e ≡ none → ReadSince h lb h')
    unfolding wait_active_and_get_load_balancer
    wait_active_reads =
        let polls =
          λ (n : ℕ) (k : Polled → Option Error × Polled) (lb : Option LoadBalancer)
              (h' : List Call).
            active_step env client id n (env (get env client id) h') k h' refl in
        let whole =
          backoff-Waited (get env client id) (ReadActive env client id) wait laws
            (poll_active env client id) polls 25 active_backoff none h refl in
        let first : Repeats (get env client id) 24 (get env client id ∷ h)
            (wait.exponential_backoff Polled active_backoff (poll_active env client id)
              (none, h)).1.1 =
          rw (laws.poll Polled active_backoff (poll_active env client id) (none, h) 24 refl) (
            active_first 24 (env (get env client id) h)
              (wait.exponential_backoff Polled (laws.next active_backoff)
                (poll_active env client id))
              h
              λ lb.
                (backoff-Waited (get env client id) (ReadActive env client id) wait laws
                  (poll_active env client id) polls 24 (laws.next active_backoff) lb
                  (get env client id ∷ h) (laws.steps-next active_backoff 24 refl)).0) in
        let (calls, q, _, _) = whole.0 in
        (
          _,
          _,
          _,
          refl,
          (calls, q),
          λ n. ReadActive-Since 24 h _ _ first (whole.1 (on_interrupt-none env client id _ _ _ n)),
        )
