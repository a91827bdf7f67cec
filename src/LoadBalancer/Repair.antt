-- ===== src/LoadBalancer/Repair.antt =====
-- What `CheckLoadBalancer` does to listeners whose ranges have drifted, where the answers of the
-- environment are known.
use gardener_extension_priva.Base.{
  String, ◌≡◌, refl, ap, ◌∙◌, true, none, some, List, [], ◌∷◌, ◌++◌, map, arith, length,
}
use gardener_extension_priva.Fault.{ok, returned}
use gardener_extension_priva.OpenStack.{ServiceClient, LoadBalancer, Listener}
use gardener_extension_priva.World.{Call, Env, writes}
use gardener_extension_priva.World.Runs.{
  Answers, Runs, Runs-elim, Runs-pure, Runs-or_fail, Runs-non_nil, Runs-on_error, Runs-if_true,
  Runs-read, Runs-write, Runs-bind, Runs-after,
}
use gardener_extension_priva.Config.{PrivateNetworkConfig}
use gardener_extension_priva.Wait.{Wait, WaitLaws}
use gardener_extension_priva.LoadBalancer.Listeners.{
  collect_pages, needs_update, get_listener_by_name, get_listeners, update_allowed_cidrs,
  check_listener, check_listeners, check_load_balancer,
}
use gardener_extension_priva.LoadBalancer.Listeners.Pages.{joined, collect_pages-few}
use gardener_extension_priva.LoadBalancer.Runs.{
  Connected, Running, IsCovered, initial_client-Runs, load_balancer_client-Runs, wait_active-Runs,
  check_listener-Runs,
}

module _ (env : Env) (wait : Wait) (laws : WaitLaws wait) (client : ServiceClient)
    (lb : LoadBalancer) (cidrs : List String) where
  -- The lookup of a listener by name finds one listener, which has other ranges; the update is
  -- accepted, and the load balancer is ACTIVE after it.
  pub record Drifted (w : List Call) (listener : Listener) : Type 0 where
    pub found : Listener
    pub updated : Listener
    pub pages : List (List Listener)
    pub paged :
        Answers env w
          (Call.each_page_listeners client
            (record { name = listener.name; loadbalancer_id = lb.id }))
          (map ok pages)
    pub one : joined pages ≡ found ∷ []
    pub differs : needs_update found.allowed_cidrs cidrs ≡ true
    pub accepted : Answers env w (Call.update_listener client found.id cidrs) (ok updated)
    pub running : Running env client lb (Call.update_listener client found.id cidrs ∷ w)

  -- The listeners, one after the other, each as the writes before leave it, and the updates that they
  -- take, newest first.
  pub data Checking : List Call → List Listener → List Call → Type 0 where
    done : (w : List Call) → Checking w [] []
    kept :
        (w : List Call) (listener : Listener) (ls : List Listener) (ws : List Call)
        (running : Running env client lb w)
        → IsCovered env wait laws client lb running cidrs listener
        → Checking w ls ws
        → Checking w (listener ∷ ls) ws
    repaired :
        (w : List Call) (listener : Listener) (ls : List Listener) (ws : List Call)
        (d : Drifted w listener)
        → Checking (Call.update_listener client d.found.id cidrs ∷ w) ls ws
        → Checking w (listener ∷ ls) (ws ++ Call.update_listener client d.found.id cidrs ∷ [])

  Drifted-Runs :
      {w : List Call} (listener : Listener) (d : Drifted w listener)
      → Runs w
          (check_listener env wait client cidrs listener (some lb))
          (returned (some lb))
          (Call.update_listener client d.found.id cidrs ∷ [])
  unfolding check_listener get_listener_by_name update_allowed_cidrs
  Drifted-Runs listener d =
      let update : Call = Call.update_listener client d.found.id cidrs in
      let p : collect_pages (map ok d.pages) [] ≡ ok (d.found ∷ []) =
        collect_pages-few d.pages [] (omega (arith, ap length d.one)) ∙ ap ok d.one in
      Runs-after _ _ lb _ _ (Runs-non_nil _ _ refl) (
        Runs-after _ _ d.found _ _
          (Runs-on_error _ _ _ _ (
            Runs-after _ _ (map ok d.pages) _ _
              (Runs-read env
                (Call.each_page_listeners client
                  (record { name = listener.name; loadbalancer_id = lb.id }))
                _ refl d.paged)
              (rw p (Runs-pure d.found))))
          (Runs-bind _ _ tt _ (update ∷ []) []
            (Runs-if_true _ _ _ _ _ d.differs (
              Runs-bind _ _ (ok d.updated) _ (update ∷ []) []
                (Runs-write env update _ refl d.accepted)
                (Runs-after _ _ d.updated _ _ (Runs-or_fail _ _ _ refl) (Runs-pure tt))))
            (Runs-after _ _ (some lb, none) _ _ (wait_active-Runs env wait laws client lb d.running)
              (Runs-after _ _ tt _ _ (Runs-pure tt) (Runs-pure (some lb))))))

  Checking-Runs :
      {w : List Call} {ls : List Listener} {ws : List Call}
      → Checking w ls ws
      → Runs w (check_listeners env wait client cidrs ls (some lb)) (returned (some lb)) ws
  unfolding check_listeners
  Checking-Runs (Checking.done w) = Runs-pure (some lb)
  Checking-Runs (Checking.kept w listener ls ws running covered rest) =
      Runs-after _ _ (some lb) _ _
        (check_listener-Runs env wait laws client lb running cidrs listener covered)
        (Checking-Runs rest)
  Checking-Runs (Checking.repaired w listener ls ws d rest) =
      Runs-bind _ _ (some lb) _ (Call.update_listener client d.found.id cidrs ∷ []) ws
        (Drifted-Runs listener d) (Checking-Runs rest)

module _ (env : Env) (config : PrivateNetworkConfig) (c : Connected env config) (wait : Wait)
    (laws : WaitLaws wait) (lb : LoadBalancer) (cidrs : List String) where
  pub check_load_balancer_repairs-Runs :
      {w : List Call} (listeners : List Listener) (ws : List Call)
      → Answers env w
          (Call.list_listeners c.compute (record { name = ""; loadbalancer_id = lb.id }))
          (ok (ok listeners))
      → Checking env wait laws c.compute lb cidrs w listeners ws
      → Runs w (check_load_balancer env wait lb config cidrs) (returned (some lb)) ws
  unfolding check_load_balancer get_listeners
  check_load_balancer_repairs-Runs listeners ws lists checking =
      Runs-after _ _ c.provider _ _ (initial_client-Runs env config c) (
        Runs-after _ _ c.compute _ _ (load_balancer_client-Runs env config c _) (
          Runs-after _ _ listeners _ _
            (Runs-on_error _ _ _ _ (
              Runs-after _ _ (ok (ok listeners)) _ _
                (Runs-read env
                  (Call.list_listeners c.compute (record { name = ""; loadbalancer_id = lb.id })) _
                  refl lists)
                (Runs-after _ _ (ok listeners) _ _ (Runs-or_fail _ _ _ refl)
                  (Runs-or_fail _ _ _ refl))))
            (Checking-Runs env wait laws c.compute lb cidrs checking)))

  -- Under the laws of `wait`, in a cloud that can be reached and whose answers depend on what was
  -- written: where each listener of the load balancer is found alone under its name, and each update
  -- is accepted and leaves the load balancer ACTIVE, `CheckLoadBalancer` returns the load balancer,
  -- and its writes are one update with the given ranges for each listener that has other ranges, in
  -- the order of the listing.
  pub check_load_balancer_repairs :
      (w : List Call) (listeners : List Listener) (ws : List Call) (h : List Call)
      → writes h ≡ w
      → Answers env w
          (Call.list_listeners c.compute (record { name = ""; loadbalancer_id = lb.id }))
          (ok (ok listeners))
      → Checking env wait laws c.compute lb cidrs w listeners ws
      → let r = check_load_balancer env wait lb config cidrs h in
        (r.0 ≡ returned (some lb)) × (writes r.1 ≡ ws ++ w)
  check_load_balancer_repairs w listeners ws h before lists checking =
      Runs-elim h before (check_load_balancer_repairs-Runs listeners ws lists checking)
