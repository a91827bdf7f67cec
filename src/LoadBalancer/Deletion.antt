-- ===== src/LoadBalancer/Deletion.antt =====
-- `DeleteLoadbalancer`: deletes a load balancer that is ACTIVE or in ERROR, and waits until it is
-- gone.
pub mod Laws
use gardener_extension_priva.Base.{
  String, Bool, not, ◌&&◌, Option, none, some, [], ◌∷◌, ◌==◌, if◌then◌else◌,
}
use gardener_extension_priva.Constants.{provisioning_active_status, provisioning_error_status}
use gardener_extension_priva.Fault.{Error, errorf, errorf_cause, is_not_found}
use gardener_extension_priva.OpenStack.{ServiceClient, LoadBalancer}
use gardener_extension_priva.World.{Call, Env, M, pure, fail, ask, ◌>>=◌, ◌>>◌}
use gardener_extension_priva.Config.{PrivateNetworkConfig}
use gardener_extension_priva.Wait.{Wait}
use gardener_extension_priva.LoadBalancer.Clients.{initial_client_openstack, load_balancer_client}
use gardener_extension_priva.LoadBalancer.Waiting.{wait_loadbalancer_deleted}

abbrev pub is_immutable : LoadBalancer → Bool
is_immutable lb =
    not (lb.provisioning_status == provisioning_active_status)
    && not (lb.provisioning_status == provisioning_error_status)

-- if err != nil && !IsNotFound(err)
abbrev pub refuse_delete : String → Option Error → M (Unit {0})
refuse_delete id none = pure tt
refuse_delete id (some e) =
    if is_not_found e
    then pure tt
    else fail (errorf_cause "error deleting loadbalancer %s: %v" (id ∷ []) e)

module _ (env : Env) (wait : Wait) where
  -- `deleteLoadbalancer`
  unfoldable pub delete_and_wait : ServiceClient → String → Bool → M (Unit {0})
  delete_and_wait client lb_id cascade = do
    refused ← ask env (Call.delete_load_balancer client lb_id cascade)
    refuse_delete lb_id refused
    wait_loadbalancer_deleted env wait client lb_id

  unfoldable pub delete_load_balancer : PrivateNetworkConfig → LoadBalancer → Bool → M (Unit {0})
  delete_load_balancer config lb cascade = do
    provider ← initial_client_openstack env config
    client ← load_balancer_client env config "failed to create network client: %v" provider
    if is_immutable lb
        then fail (
            errorf "load balancer %s is in immutable status, current provisioning status: %s"
              (lb.id ∷ lb.provisioning_status ∷ []))
        else delete_and_wait client lb.id cascade
