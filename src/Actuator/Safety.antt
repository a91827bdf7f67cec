-- ===== src/Actuator/Safety.antt =====
-- Which calls the actuator makes: what `Reconcile` and `Delete` may write, whatever the environment
-- answers and wherever they stop.
use gardener_extension_priva.Base.{String, ◌≡◌, refl, Bool, true, false, Option, none, some}
use gardener_extension_priva.Fault.{ok}
use gardener_extension_priva.OpenStack.{LoadBalancer}
use gardener_extension_priva.Kube.{Extension}
use gardener_extension_priva.World.{Call, is_write}
use gardener_extension_priva.World.Emits.{
  Emits, Emits-bind, Emits-on_error, Emits-or_fail, Emits-non_nil,
}
use gardener_extension_priva.World.Reads.{CoversReads}
use gardener_extension_priva.IpNet.{IpNet}
use gardener_extension_priva.Config.{
  ExtensionSpec, ExtensionState, PrivateNetworkConfig, read_extension_spec,
}
use gardener_extension_priva.Config.Laws.{get_cluster-Emits, get_global_config-Emits}
use gardener_extension_priva.Wait.{WaitLaws}
use gardener_extension_priva.LoadBalancer.Creation.{create_opts}
use gardener_extension_priva.LoadBalancer.Calls.{create_load_balancer-Emits}
use gardener_extension_priva.FloatingAddress.{fip_message, attach_floating_ip}
use gardener_extension_priva.FloatingAddress.Calls.{attach_floating_ip-Emits}
use gardener_extension_priva.Actuator.Calls.{
  find_vip-Emits, find_or_create-Emits, bring_up-Emits, delete-Emits,
}
use gardener_extension_priva.Actuator.{Runtime, name_lb, with_state, bring_up, reconcile, delete}

-- The Extension asks for a private cluster, or for a public one.
abbrev pub Asks : Runtime → Extension → Bool → Type 0
Asks rt ex private =
    (s : ExtensionSpec) × (read_extension_spec rt.codec ex ≡ ok (some s))
    × (s.private_cluster ≡ private)

-- What a reconciliation may write.
abbrev pub Allowed : Runtime → Extension → Call → Type 0
Allowed rt ex (Call.create_load_balancer _ opts) = opts.name ≡ name_lb ex.namespace
Allowed rt ex (Call.delete_load_balancer _ _ cascade) = cascade ≡ true
Allowed rt ex (Call.update_floating_ip _ _ none) = Asks rt ex true
Allowed rt ex (Call.update_floating_ip _ _ (some _)) = Asks rt ex false
Allowed rt ex (Call.create_floating_ip _ opts) =
    Asks rt ex false × (opts.description ≡ fip_message ex)
Allowed rt ex (Call.patch_status e) = (json : String) × (e ≡ with_state ex json)
Allowed rt ex _ = Unit

-- What a deletion may write.
abbrev pub OnlyDeletes : Call → Type 0
OnlyDeletes (Call.delete_load_balancer _ _ cascade) = cascade ≡ true
OnlyDeletes c = is_write c ≡ false

Allowed-covers : (rt : Runtime) (ex : Extension) → CoversReads (Allowed rt ex)
Allowed-covers rt ex (Call.create_load_balancer _ _) p = absurd (cc p)
Allowed-covers rt ex (Call.delete_load_balancer _ _ _) p = absurd (cc p)
Allowed-covers rt ex (Call.update_floating_ip _ _ none) p = absurd (cc p)
Allowed-covers rt ex (Call.update_floating_ip _ _ (some _)) p = absurd (cc p)
Allowed-covers rt ex (Call.create_floating_ip _ _) p = absurd (cc p)
Allowed-covers rt ex (Call.patch_status _) p = absurd (cc p)
Allowed-covers rt ex _ p = tt

OnlyDeletes-covers : CoversReads OnlyDeletes
OnlyDeletes-covers (Call.delete_load_balancer _ _ _) p = absurd (cc p)
OnlyDeletes-covers _ p = p

module _ (rt : Runtime) (laws : WaitLaws rt.wait) (ex : Extension) where
  private_Asks :
      (s : ExtensionSpec) (b : Bool)
      → read_extension_spec rt.codec ex ≡ ok (some s)
      → s.private_cluster ≡ b
      → Asks rt ex b
  private_Asks s b p q = (s, p, q)

  attach-Allowed :
      (config : PrivateNetworkConfig) (lb : Option LoadBalancer)
      → Emits (Allowed rt ex) (attach_floating_ip rt.env rt.patterns rt.codec lb config ex)
  attach-Allowed config lb =
      attach_floating_ip-Emits (Allowed rt ex) (Allowed-covers rt ex) rt.env rt.patterns rt.codec lb
        config ex (λ s client id p q. (s, p, q)) (λ s client l id p q found. (s, p, q))
        (λ s client l pool network_lb subnet p q found. ((s, p, q), refl))

  bring_up-Allowed :
      (ext_spec : ExtensionSpec) (ext_state : Option ExtensionState) (config : PrivateNetworkConfig)
      (ranges : IpNet rt.net) (lb : LoadBalancer)
      → Emits (Allowed rt ex) (bring_up rt ex ext_spec ext_state config ranges lb)
  bring_up-Allowed ext_spec ext_state config ranges lb =
      bring_up-Emits (Allowed rt ex) (Allowed-covers rt ex) rt laws ex ext_spec ext_state config
        ranges lb (λ broken client. refl) (λ client id cidrs. tt) (attach-Allowed config)
        (λ json. (json, refl))

  -- Under the laws of the wait, whatever the calls answer and wherever it stops, `Reconcile`
  -- writes only this: it creates load balancers under the name of the extension, deletes load
  -- balancers with all that they hold, updates listeners, sends updates without a port to
  -- floating IPs for a private cluster, and attaches and creates floating IPs for a public one, with the description of the extension on those that it creates;
  -- and it patches the status of the extension, of which it changes the
  -- state only.
  pub reconcile-Allowed : Emits (Allowed rt ex) (reconcile rt ex)
  unfolding reconcile create_opts
  reconcile-Allowed =
      let covers = Allowed-covers rt ex in
      let P = Allowed rt ex in
      Emits-bind _ _ (get_cluster-Emits P covers rt.env ex) λ cluster.
        Emits-bind _ _ (Emits-or_fail _ _) λ read_spec.
          Emits-bind _ _ (Emits-or_fail _ _) λ ext_state.
            Emits-bind _ _ (find_vip-Emits P covers rt laws _) λ vips.
              Emits-bind _ _
                (Emits-on_error _ _ (get_global_config-Emits P covers rt.env rt.codec ex))
                λ config. Emits-bind _ _ (Emits-non_nil read_spec) λ ext_spec.
                  Emits-bind _ _ (Emits-or_fail _ _) λ ranges.
                    Emits-bind _ _
                      (find_or_create-Emits P covers rt laws ex config vips ranges (
                        create_load_balancer-Emits P covers rt.env rt.wait laws config vips _ _
                          λ client flavor subnet. refl))
                      λ found.
                        Emits-bind _ _ (Emits-non_nil found)
                          λ lb. bring_up-Allowed ext_spec ext_state config ranges lb

  -- `Delete` writes nothing but deletions of load balancers with all that they hold.
  pub delete-OnlyDeletes : Emits OnlyDeletes (delete rt ex)
  delete-OnlyDeletes = delete-Emits OnlyDeletes OnlyDeletes-covers rt laws ex λ client id. refl
