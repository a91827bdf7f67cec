-- ===== src/LoadBalancer/Listeners/Ranges.antt =====
-- What `CheckLoadBalancer` leaves in the listeners: each has the allowed ranges.
use mathlib.Core.Option.{some-injective}
use gardener_extension_priva.Base.{
  String, ◌≡◌, refl, sym, ◌∙◌, subst, Option, some, List, [], ◌∷◌, All,
}
use gardener_extension_priva.Fault.{Result, ok, err, returned}
use gardener_extension_priva.OpenStack.{ServiceClient, LoadBalancer, Listener}
use gardener_extension_priva.World.{Call, Env, ask, or_fail, ◌>>=◌}
use gardener_extension_priva.World.Ensures.{Post}
use gardener_extension_priva.World.Triples.{
  AnyCall, Since, Lasting, Lasting-Since, Since-Lasting, Triple, Triple-bind, Triple-after,
  Triple-carry, Triple-weaken, Triple-pre, Triple-non_nil, Triple-on_error, Triple-pure,
  Triple-elim,
}
use gardener_extension_priva.Config.{PrivateNetworkConfig}
use gardener_extension_priva.Wait.{Wait, WaitLaws}
use gardener_extension_priva.LoadBalancer.Calls.{
  initial_client-Emits, load_balancer_client-Emits, get_listener-Emits, update_allowed-Emits,
}
use gardener_extension_priva.LoadBalancer.Tracing.{
  Traced, Traced-Lasting, wait-Running, active_or_fail-Triple,
}
use gardener_extension_priva.LoadBalancer.Listeners.Covering.{
  Made, listing, Held, Holds, Found, lookup, Ranged, Ranged-Lasting, lookup-Found, update-Covered,
}
use gardener_extension_priva.LoadBalancer.Listeners.{
  get_listeners, update_allowed_cidrs, check_listener, check_listeners, check_load_balancer,
}

module _ (env : Env) (client : ServiceClient) (cidrs : List String) (lb : LoadBalancer)
    (start : List Call) (wait : Wait) (laws : WaitLaws wait) where
  -- the update, behind the lookup
  update-Ranged :
      (G : List Call → Type 0) (current : LoadBalancer) (listener l : Listener)
      → Lasting G
      → Triple
          (λ h. G h × Found env client cidrs lb start current listener.name l h)
          (λ _ h.
            (G h × Since start h × Ranged env client cidrs lb start h listener)
            × Held env client cidrs lb start current h)
          (update_allowed_cidrs env client l cidrs)
  update-Ranged G current listener l lasting = record {
    at = λ h (g, (before, rest, t, s, e, found)).
        let c = lookup env client cidrs lb start listener.name current.id in
        let kept : Since (c ∷ before) h = ([], e) in
        let held : Held env client cidrs lb start current h =
          Lasting-Since (Held env client cidrs lb start current) (c ∷ before) h
            (Traced-Lasting env _ current) kept (Traced.later c t) in
        let since : Since start h =
          Lasting-Since (Since start) (c ∷ before) h (Since-Lasting start) kept
            (Since-Lasting start c before s) in
        (Triple-weaken _
            (λ _ h' ((g', s', held'), (m, v)).
              ((g', s', (current, before, l, rest, t, (s, m), found, v)), held'))
            (Triple-carry (λ h'. G h' × Since start h' × Held env client cidrs lb start current h')
              _
              (λ d h' (g', s', t').
                (lasting d h' g', Since-Lasting start d h' s', Traced.later d t'))
              (update_allowed-Emits AnyCall (λ _ _. tt) env wait laws client cidrs (λ _. tt) l)
              (Triple-carry (Since (c ∷ before)) _ (Since-Lasting (c ∷ before))
                (update_allowed-Emits AnyCall (λ _ _. tt) env wait laws client cidrs (λ _. tt) l)
                (update-Covered env client cidrs (c ∷ before) l)))).at
          h ((g, since, held), (kept, kept));
  }

  same-Held :
      (o : Option LoadBalancer) (current : LoadBalancer) (h : List Call)
      → Holds env client cidrs lb start o h
      → o ≡ some current
      → Held env client cidrs lb start current h
  same-Held o current h (b, p, t) q =
      subst (λ c. Held env client cidrs lb start c h) (some-injective b current (sym p ∙ q)) t

  check_listener-Ranged :
      (G : List Call → Type 0) (listener : Listener) (o : Option LoadBalancer)
      → Lasting G
      → Triple
          (λ h. G h × Since start h × Holds env client cidrs lb start o h)
          (λ o' h.
            (G h × Ranged env client cidrs lb start h listener)
            × Since start h
            × Holds env client cidrs lb start o' h)
          (check_listener env wait client cidrs listener o)
  unfolding check_listener
  check_listener-Ranged G listener o lasting =
      Triple-bind (λ current h. G h × Since start h × Held env client cidrs lb start current h) _ _
        (Triple-weaken _ (λ current h ((g, s, t), p). (g, s, same-Held o current h t p))
          (Triple-non_nil o))
        λ current.
          Triple-bind (λ l h. G h × Found env client cidrs lb start current listener.name l h) _ _
            (Triple-on_error _ _ (
              Triple-pre _ (λ h (g, s, t). (g, (s, t)))
                (Triple-carry G _ lasting
                  (get_listener-Emits AnyCall (λ _ _. tt) env wait laws client cidrs (λ _. tt) _ _)
                  (lookup-Found env client cidrs lb start current listener.name))))
            λ l. Triple-bind _ _ _ (update-Ranged G current listener l lasting) λ _.
              Triple-bind _ _ _
                (wait-Running env _ wait laws
                  (λ h. G h × Since start h × Ranged env client cidrs lb start h listener)
                  (λ c h (g, s, r). (
                    lasting c h g,
                    Since-Lasting start c h s,
                    Ranged-Lasting env client cidrs lb start listener c h r,
                  ))
                  client current)
                λ waited. Triple-bind _ _ _ (active_or_fail-Triple waited.0 waited.1) λ _.
                  Triple-pure waited.0 λ h (((g, s, r), running), n).
                    let (b, p, _, t) = running n in ((g, r), s, (b, p, t))

  check_listeners-Ranged :
      (listeners : List Listener) (G : List Call → Type 0) (o : Option LoadBalancer)
      → Lasting G
      → Triple
          (λ h. G h × Since start h × Holds env client cidrs lb start o h)
          (λ _ h. G h × All (Ranged env client cidrs lb start h) listeners)
          (check_listeners env wait client cidrs listeners o)
  unfolding check_listeners
  check_listeners-Ranged [] G o lasting = Triple-pure o (λ h k. (k.0, tt))
  check_listeners-Ranged (l ∷ ls) G o lasting =
      Triple-bind _ _ _ (check_listener-Ranged G l o lasting) λ o'.
        Triple-weaken _ (λ _ h ((g, r), rest). (g, (r, rest)))
          (check_listeners-Ranged ls (λ h. G h × Ranged env client cidrs lb start h l) o'
            (λ c h (g, r). (lasting c h g, Ranged-Lasting env client cidrs lb start l c h r)))

module _ (env : Env) (wait : Wait) (laws : WaitLaws wait) (lb : LoadBalancer)
    (cidrs : List String) where
  -- After `start` the listeners of the load balancer were listed, and all of them are covered since.
  abbrev pub AllRanged : List Call → List Call → Type 0
  AllRanged start h =
      (client : ServiceClient) × (before : List Call) × (listeners : List Listener) × Made start
        (listing client lb.id) before h
      × (env (listing client lb.id) before ≡ ok (ok listeners))
      × All (Ranged env client cidrs lb (listing client lb.id ∷ before) h) listeners

  -- the listing has just given the listeners
  abbrev Listed : List Call → ServiceClient → List Listener → List Call → Type 0
  Listed start client listeners h =
      (before : List Call) × Since start before
      × (h ≡ listing client lb.id ∷ before)
      × (env (listing client lb.id) before ≡ ok (ok listeners))

  answered-Listed :
      (start : List Call) (client : ServiceClient) (h : List Call)
      (answer : Result (Result (List Listener)))
      → Since start h
      → env (listing client lb.id) h ≡ answer
      → Post (Listed start client) (
          (or_fail (λ e. e) answer >>= λ all_pages. or_fail (λ e. e) all_pages)
            (listing client lb.id ∷ h))
  unfolding or_fail ◌>>=◌
  answered-Listed start client h (ok (ok ls)) s e = (h, s, refl, e)
  answered-Listed start client h (ok (err x)) s e = tt
  answered-Listed start client h (err x) s e = tt

  get_listeners-Listed :
      (start : List Call) (client : ServiceClient)
      → Triple (Since start) (Listed start client) (get_listeners env client lb.id)
  unfolding get_listeners ask ◌>>=◌
  get_listeners-Listed start client = record { at = λ h s. answered-Listed start client h _ s refl }

  check-AllRanged :
      (config : PrivateNetworkConfig) (start : List Call)
      → Triple (Since start) (λ _. AllRanged start) (check_load_balancer env wait lb config cidrs)
  unfolding check_load_balancer
  check-AllRanged config start =
      Triple-after _ _ (Since-Lasting start) (initial_client-Emits AnyCall (λ _ _. tt) env config)
        λ provider.
          Triple-after _ _ (Since-Lasting start)
            (load_balancer_client-Emits AnyCall (λ _ _. tt) env config _ provider)
            λ client.
              Triple-bind (Listed start client) _ _
                (Triple-on_error _ _ (get_listeners-Listed start client))
                λ listeners. record {
                  at = λ h (before, s, e, answer).
                      let here = listing client lb.id ∷ before in
                      let kept : Since here h = ([], e) in
                      (Triple-weaken _
                          (λ _ h' (m, all). (client, before, listeners, (s, m), answer, all))
                          (check_listeners-Ranged env client cidrs lb here wait laws listeners
                            (Since here) (some lb) (Since-Lasting here))).at
                        h (kept, kept, (lb, refl, Traced.origin (refl, kept)));
                }

  -- Under the laws of `wait`, where `CheckLoadBalancer` returns without an error, it has listed the
  -- listeners by the ID of the load balancer, and since then each of them was looked up by its name
  -- and the ID of this load balancer, or of what was read by the ID in between; one listener was
  -- found; and it had the allowed CIDRs, or was updated to them after the lookup by a call that
  -- succeeded, unless there were no CIDRs. All these calls were made by this run.
  pub check_load_balancer-AllRanged :
      (config : PrivateNetworkConfig) (h h' : List Call) (o : Option LoadBalancer)
      → check_load_balancer env wait lb config cidrs h ≡ (returned o, h')
      → AllRanged h h'
  check_load_balancer-AllRanged config h h' o e =
      Triple-elim (check-AllRanged config h) {h = h} {h' = h'} {a = o} ([], refl) e
