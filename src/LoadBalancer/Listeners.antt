-- ===== src/LoadBalancer/Listeners.antt =====
-- `CheckLoadBalancer`: every listener gets the allowed source ranges, one after the other, each
-- followed by a wait until the load balancer is ACTIVE again.
pub mod Laws
pub mod Pages
pub mod Covering
pub mod Ranges
use gardener_extension_priva.Base.{
  String, Bool, true, false, not, ◌&&◌, Option, none, some, List, [], ◌∷◌, ◌++◌, length, ltb, ◌==◌,
  if◌then◌else◌,
}
use gardener_extension_priva.Fault.{
  Error, errorf_cause, consts_err_not_found, consts_err_multiple_results, Result, ok, err,
  is_not_found,
}
use gardener_extension_priva.OpenStack.{ServiceClient, LoadBalancer, Listener, ListenerListOpts}
use gardener_extension_priva.World.{
  Call, Env, M, pure, fail, ask, or_fail, non_nil, on_error, ◌>>=◌, ◌>>◌,
}
use gardener_extension_priva.Config.{PrivateNetworkConfig}
use gardener_extension_priva.Wait.{Wait}
use gardener_extension_priva.LoadBalancer.Clients.{initial_client_openstack, load_balancer_client}
use gardener_extension_priva.LoadBalancer.Waiting.{wait_active_and_get_load_balancer}

-- The pages of `EachPage`, appended until there is more than one listener.
unfoldable pub collect_pages :
    List (Result (List Listener)) → List Listener → Result (List Listener)
collect_pages [] listener_list = ok listener_list
collect_pages (err e ∷ pages) listener_list = err e
collect_pages (ok v ∷ pages) listener_list =
    let rest = collect_pages pages (listener_list ++ v) in
    if ltb 1 (length (listener_list ++ v)) then err consts_err_multiple_results else rest

abbrev pub only_listener : Result (List Listener) → M Listener
only_listener (err e) = if is_not_found e then fail consts_err_not_found else fail e
only_listener (ok []) = fail consts_err_not_found
only_listener (ok (l ∷ ls)) = pure l

-- reflect.DeepEqual on slices of strings of which one is not empty
abbrev pub deep_equal : List String → List String → Bool
deep_equal [] [] = true
deep_equal [] (y ∷ ys) = false
deep_equal (x ∷ xs) [] = false
deep_equal (x ∷ xs) (y ∷ ys) = x == y && deep_equal xs ys

abbrev pub needs_update : List String → List String → Bool
needs_update current [] = false
needs_update current (c ∷ cs) = not (deep_equal current (c ∷ cs))

-- the error message reads the ID through the pointer
abbrev pub active_or_fail : Option LoadBalancer → Option Error → M (Unit {0})
active_or_fail lb none = pure tt
active_or_fail lb (some e) = do
  read ← non_nil lb
  fail (
      errorf_cause "loadbalancer %s not in ACTIVE status after creating listener, error: %v"
        (read.id ∷ []) e)

module _ (env : Env) where
  unfoldable pub get_listener_by_name : ServiceClient → String → String → M Listener
  get_listener_by_name client name lb_id = do
    pages ←
        ask env (Call.each_page_listeners client (record { name = name; loadbalancer_id = lb_id }))
    only_listener (collect_pages pages [])

  -- `getListenersByLoadBalancerID`
  unfoldable pub get_listeners : ServiceClient → String → M (List Listener)
  get_listeners client lb_id = do
    listed ← ask env (Call.list_listeners client (record { name = ""; loadbalancer_id = lb_id }))
    all_pages ← or_fail (λ e. e) listed
    or_fail (λ e. e) all_pages

  unfoldable pub update_allowed_cidrs : ServiceClient → Listener → List String → M (Unit {0})
  update_allowed_cidrs client listener_check cidrs =
      if needs_update listener_check.allowed_cidrs cidrs
      then (do
        updated ← ask env (Call.update_listener client listener_check.id cidrs)
        or_fail (errorf_cause "failed to update listener allowed CIDRs: %v" []) updated
        pure tt)
      else pure tt

  module _ (wait : Wait) (client : ServiceClient) (cidrs : List String) where
    -- the body of the loop for one listener: what `lb` points to afterwards
    unfoldable pub check_listener : Listener → Option LoadBalancer → M (Option LoadBalancer)
    check_listener listener lb = do
      current ← non_nil lb
      listener_check ←
          on_error
            (errorf_cause "failed to get listener [name=%s] in LB [name=%s]: %v"
              (listener.name ∷ current.name ∷ []))
            (get_listener_by_name client listener.name current.id)
      update_allowed_cidrs client listener_check cidrs
      waited ← wait_active_and_get_load_balancer env wait client current.id
      active_or_fail waited.0 waited.1
      pure waited.0

    unfoldable pub check_listeners : List Listener → Option LoadBalancer → M (Option LoadBalancer)
    check_listeners [] lb = pure lb
    check_listeners (listener ∷ listeners) lb = do
      lb' ← check_listener listener lb
      check_listeners listeners lb'

  -- `cidrs` is the slice made of the allowed ranges
  unfoldable pub check_load_balancer :
      Wait → LoadBalancer → PrivateNetworkConfig → List String → M (Option LoadBalancer)
  check_load_balancer wait lb config cidrs = do
    provider ← initial_client_openstack env config
    client ← load_balancer_client env config "failed to create loadbalancer client: %v" provider
    listeners ←
        on_error (errorf_cause "failed to get listeners for LB [Name=%s]: %v" (lb.name ∷ []))
          (get_listeners client lb.id)
    check_listeners wait client cidrs listeners (some lb)
