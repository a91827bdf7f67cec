-- ===== src/LoadBalancer/Origins.antt =====
-- The load balancer that the lookup, the creation and the check of a run give: it was listed or created
-- under a name in this run, or read by the ID of one that was.
use mathlib.Core.Option.{some-injective}
use gardener_extension_priva.Base.{
  ℕ, String, ◌≡◌, ◌⊎◌, inl, inr, refl, sym, subst, ◌∙◌, ap, Option, none, some, List, [], ◌∷◌, keep,
}
use gardener_extension_priva.Fault.{Error, Result, ok, err}
use gardener_extension_priva.OpenStack.{
  ServiceClient, LoadBalancer, Listener, LoadBalancerCreateOpts,
}
use gardener_extension_priva.World.{Call, Env, pure, fail, ask, or_fail, ◌>>=◌}
use gardener_extension_priva.World.Emits.{Emits-on_error}
use gardener_extension_priva.LoadBalancer.Waiting.{wait_active_and_get_load_balancer}
use gardener_extension_priva.World.Ensures.{Post}
use gardener_extension_priva.World.Triples.{
  AnyCall, Since, Since-Lasting, Triple, Triple-bind, Triple-after, Triple-weaken, Triple-pre,
  Triple-non_nil, Triple-pure, Triple-fail,
}
use gardener_extension_priva.Config.{PrivateNetworkConfig}
use gardener_extension_priva.Wait.{Wait, WaitLaws}
use gardener_extension_priva.LoadBalancer.Calls.{
  initial_client-Emits, network_client-Emits, load_balancer_client-Emits, find_subnet-Emits,
  get_flavor-Emits, get_listener-Emits, update_allowed-Emits, get_listeners-Emits,
}
use gardener_extension_priva.LoadBalancer.Tracing.{
  Traced, Running, Running-Lasting, wait-Running, active_or_fail-Triple,
}
use gardener_extension_priva.LoadBalancer.Lookup.{
  is_valid, single, get_load_balancers, find_load_balancer, get_load_balancer_by_name,
}
use gardener_extension_priva.LoadBalancer.Lookup.Laws.{SplitAt, keep-single}
use gardener_extension_priva.LoadBalancer.Creation.{create_opts, created, create_load_balancer}
use gardener_extension_priva.LoadBalancer.Listeners.{
  check_listener, check_listeners, check_load_balancer,
}

module _ (env : Env) (start : List Call) (name : String) where
  -- The newest call was made after `start`: it listed the name, and the load balancer alone is valid
  -- in the answer, or it created the load balancer under the name.
  abbrev pub Appears : LoadBalancer → List Call → Type 0
  Appears lb h =
      ((client : ServiceClient) × (before : List Call) × (lbs : List LoadBalancer) × Since start
          before
        × (h ≡ Call.list_load_balancers client name ∷ before)
        × (env (Call.list_load_balancers client name) before ≡ ok (ok lbs))
        × SplitAt is_valid lb lbs)
      ⊎ ((client : ServiceClient) × (before : List Call) × (opts : LoadBalancerCreateOpts) × Since
            start before
          × (h ≡ Call.create_load_balancer client opts ∷ before)
          × (env (Call.create_load_balancer client opts) before ≡ ok lb)
          × (opts.name ≡ name))

  -- the load balancer of the name, as this run knows it
  abbrev pub Own : LoadBalancer → List Call → Type 0
  Own = Traced env Appears

  -- what this run knows, it knows since its start
  pub Own-Since : {lb : LoadBalancer} {h : List Call} → Own lb h → Since start h
  Own-Since (Traced.origin (inl (client, before, lbs, (new, p), q, _, _))) = (
    Call.list_load_balancers client name ∷ new,
    q ∙ ap (λ t. Call.list_load_balancers client name ∷ t) p,
  )
  Own-Since (Traced.origin (inr (client, before, opts, (new, p), q, _, _))) = (
    Call.create_load_balancer client opts ∷ new,
    q ∙ ap (λ t. Call.create_load_balancer client opts ∷ t) p,
  )
  Own-Since (Traced.reread client t e) = Since-Lasting start _ _ (Own-Since t)
  Own-Since (Traced.later c t) = Since-Lasting start c _ (Own-Since t)

  single-Own :
      (client : ServiceClient) (lbs kept : List LoadBalancer) (h : List Call)
      → Since start h
      → env (Call.list_load_balancers client name) h ≡ ok (ok lbs)
      → keep is_valid lbs ≡ kept
      → Post Own (single kept (Call.list_load_balancers client name ∷ h))
  unfolding pure fail
  single-Own client lbs [] h s e p = tt
  single-Own client lbs (lb ∷ []) h s e p =
      Traced.origin (inl (client, h, lbs, s, refl, e, keep-single is_valid lbs lb p))
  single-Own client lbs (lb ∷ lb' ∷ kept) h s e p = tt

  answered-Own :
      (client : ServiceClient) (h : List Call) (answer : Result (Result (List LoadBalancer)))
      → Since start h
      → env (Call.list_load_balancers client name) h ≡ answer
      → Post Own (find_load_balancer env client name h)
  unfolding find_load_balancer get_load_balancers ask or_fail ◌>>=◌
  answered-Own client h (ok (ok lbs)) s e = rw e (single-Own client lbs _ h s e refl)
  answered-Own client h (ok (err x)) s e = rw e tt
  answered-Own client h (err x) s e = rw e tt

  pub get_by_name-Own :
      (config : PrivateNetworkConfig)
      → Triple (Since start) Own (get_load_balancer_by_name env config name)
  unfolding get_load_balancer_by_name
  get_by_name-Own config =
      Triple-after _ _ (Since-Lasting start) (initial_client-Emits AnyCall (λ _ _. tt) env config)
        λ provider.
          Triple-after _ _ (Since-Lasting start)
            (load_balancer_client-Emits AnyCall (λ _ _. tt) env config _ provider)
            λ client. record { at = λ h s. answered-Own client h _ s refl }

  -- the creation has just been accepted
  accepted-Own :
      (client : ServiceClient) (opts : LoadBalancerCreateOpts) (h : List Call)
      (answer : Result LoadBalancer)
      → opts.name ≡ name
      → Since start h
      → env (Call.create_load_balancer client opts) h ≡ answer
      → Post Own (or_fail (λ e. e) answer (Call.create_load_balancer client opts ∷ h))
  unfolding or_fail
  accepted-Own client opts h (ok lb) n s e = Traced.origin (inr (client, h, opts, s, refl, e, n))
  accepted-Own client opts h (err x) n s e = tt

  -- the answer to a creation
  abbrev pub Answered :
      ServiceClient → LoadBalancerCreateOpts → Result LoadBalancer → List Call → Type 0
  Answered client opts made h =
      (before : List Call) × (h ≡ Call.create_load_balancer client opts ∷ before)
      × Since start before
      × (env (Call.create_load_balancer client opts) before ≡ made)

  pub ask-Answered :
      (client : ServiceClient) (opts : LoadBalancerCreateOpts)
      → Triple
          (Since start)
          (Answered client opts)
          (ask env (Call.create_load_balancer client opts))
  unfolding ask
  ask-Answered client opts = record { at = λ h s. (h, refl, s, refl) }

  pub made-Own :
      (client : ServiceClient) (opts : LoadBalancerCreateOpts) (made : Result LoadBalancer)
      → opts.name ≡ name
      → Triple (Answered client opts made) Own (or_fail (λ e. e) made)
  made-Own client opts made n = record {
    at = λ h (before, p, s, e). rw p (accepted-Own client opts before made n s e);
  }

abbrev pub Always : List Call → Type 0
Always h = Unit

module _ (env : Env) (Origin : LoadBalancer → List Call → Type 0) (wait : Wait)
    (laws : WaitLaws wait) where
  -- the wait, from a load balancer that is traced, and nothing else
  wait_only-Running :
      (client : ServiceClient) (lb : LoadBalancer)
      → Triple
          (Traced env Origin lb)
          (λ r h. r.1 ≡ none → Running env Origin r.0 h)
          (wait_active_and_get_load_balancer env wait client lb.id)
  wait_only-Running client lb =
      Triple-pre _ (λ h t. (tt, t))
        (Triple-weaken _ (λ r h q. q.1)
          (wait-Running env Origin wait laws Always (λ c h k. tt) client lb))

  created-Running :
      (r : Option LoadBalancer × Option Error)
      → Triple (λ h. r.1 ≡ none → Running env Origin r.0 h) (Running env Origin) (created env r)
  created-Running (lb, none) = Triple-pure lb (λ h q. q refl)
  created-Running (lb, some e) = Triple-fail _

  module _ (client : ServiceClient) (cidrs : List String) where
    check_listener-Running :
        (listener : Listener) (o : Option LoadBalancer)
        → Triple
            (Running env Origin o)
            (Running env Origin)
            (check_listener env wait client cidrs listener o)
    unfolding check_listener
    check_listener-Running listener o =
        Triple-bind (λ current. Traced env Origin current) _ _
          (Triple-weaken _
            (λ current h ((lb, p, _, t), q).
              subst (λ c. Traced env Origin c h) (some-injective lb current (sym p ∙ q)) t)
            (Triple-non_nil o))
          λ current.
            Triple-after _ _ (λ c h t. Traced.later c t)
              (Emits-on_error _ _
                (get_listener-Emits AnyCall (λ _ _. tt) env wait laws client cidrs (λ _. tt) _ _))
              λ l.
                Triple-after _ _ (λ c h t. Traced.later c t)
                  (update_allowed-Emits AnyCall (λ _ _. tt) env wait laws client cidrs (λ _. tt) l)
                  λ _. Triple-bind _ _ _ (wait_only-Running client current) λ waited.
                    Triple-bind _ _ _ (active_or_fail-Triple waited.0 waited.1)
                      λ _. Triple-pure waited.0 (λ h (running, n). running n)

    check_listeners-Running :
        (listeners : List Listener) (o : Option LoadBalancer)
        → Triple
            (Running env Origin o)
            (Running env Origin)
            (check_listeners env wait client cidrs listeners o)
    unfolding check_listeners
    check_listeners-Running [] o = Triple-pure o (λ h r. r)
    check_listeners-Running (l ∷ ls) o =
        Triple-bind _ _ _ (check_listener-Running l o) (λ o'. check_listeners-Running ls o')

  pub check_load_balancer-Running :
      (lb : LoadBalancer) (config : PrivateNetworkConfig) (cidrs : List String)
      → Triple
          (Running env Origin (some lb))
          (Running env Origin)
          (check_load_balancer env wait lb config cidrs)
  unfolding check_load_balancer
  check_load_balancer-Running lb config cidrs =
      let lasting = Running-Lasting env Origin (some lb) in
      Triple-after _ _ lasting (initial_client-Emits AnyCall (λ _ _. tt) env config) λ provider.
        Triple-after _ _ lasting
          (load_balancer_client-Emits AnyCall (λ _ _. tt) env config _ provider)
          λ client.
            Triple-after _ _ lasting
              (Emits-on_error _ _
                (get_listeners-Emits AnyCall (λ _ _. tt) env wait laws client lb.id))
              λ listeners. check_listeners-Running client cidrs listeners (some lb)

pub create-Running :
    (env : Env) (start : List Call) (name : String) (wait : Wait) (laws : WaitLaws wait)
    (config : PrivateNetworkConfig) (vips : List String) (cidrs : ℕ → List String)
    → Triple
        (Since start)
        (Running env (Appears env start name))
        (create_load_balancer env wait config vips name cidrs)
unfolding create_load_balancer create_opts
create-Running env start name wait laws config vips cidrs =
    let lasting = Since-Lasting start in
    Triple-after _ _ lasting (initial_client-Emits AnyCall (λ _ _. tt) env config) λ provider.
      Triple-after _ _ lasting (network_client-Emits AnyCall (λ _ _. tt) env config _ provider)
        λ client_network.
          Triple-after _ _ lasting
            (load_balancer_client-Emits AnyCall (λ _ _. tt) env config _ provider)
            λ client.
              Triple-after _ _ lasting
                (find_subnet-Emits AnyCall (λ _ _. tt) env client_network config.worker_network)
                λ subnet.
                  Triple-after _ _ lasting
                    (get_flavor-Emits AnyCall (λ _ _. tt) env client config.flavor_type)
                    λ flavor. Triple-bind _ _ _ (ask-Answered env start name client _) λ made.
                      Triple-bind _ _ _ (made-Own env start name client _ made refl) λ lb.
                        Triple-bind _ _ _
                          (wait_only-Running env (Appears env start name) wait laws client lb)
                          λ waited. created-Running env (Appears env start name) wait laws waited
