-- ===== src/Actuator/Status.antt =====
-- What a successful reconciliation leaves behind: the state in the Extension's status.
use gardener_extension_priva.Base.{
  arith, String, ◌≡◌, refl, sym, subst, ap, ◌∙◌, is_some, not, Option, none, some, List, [], ◌∷◌,
  if◌then◌else◌,
}
use gardener_extension_priva.Constants.{
  provisioning_active_status, cluster_type_private, cluster_type_public, namespace_istio_ingress,
}
use gardener_extension_priva.Fault.{Error, errorf_cause, ok, returned}
use gardener_extension_priva.OpenStack.{LoadBalancer}
use gardener_extension_priva.Kube.{Extension}
use gardener_extension_priva.World.{Call, ask, fail, pure, or_fail, non_nil, ◌>>=◌}
use gardener_extension_priva.World.Emits.{Emits-on_error, Emits-or_fail, Emits-non_nil}
use gardener_extension_priva.World.Ensures.{Post}
use gardener_extension_priva.World.Triples.{
  AnyCall, Since, Lasting, Since-Lasting, Triple, Triple-bind, Triple-after, Triple-weaken,
  Triple-pre, Triple-carry, Triple-non_nil, Triple-or_fail, Triple-on_error, Triple-elim,
}
use gardener_extension_priva.IpNet.{IpNet}
use gardener_extension_priva.Config.{
  ExtensionSpec, ExtensionState, PrivateNetworkConfig, Codec, read_extension_spec,
  get_extension_state, get_load_balancer_source_ranges,
}
use gardener_extension_priva.Config.Laws.{get_cluster-Emits, get_global_config-Emits}
use mathlib.Core.Option.{some-injective}
use gardener_extension_priva.Wait.{WaitLaws}
use gardener_extension_priva.LoadBalancer.Tracing.{Traced, Running-Lasting}
use gardener_extension_priva.LoadBalancer.Origins.{Own-Since, check_load_balancer-Running}
use gardener_extension_priva.Actuator.Calls.{
  find_vip-Emits, update_status-Emits, require_healthy-Emits,
}
use gardener_extension_priva.Actuator.Known.{
  Known, ActiveKnown, Runs, require_active-Runs, same-Runs, find_or_create-Known, attach-Any,
}
use gardener_extension_priva.Actuator.{
  Runtime, with_state, patched, new_state, update_status, find_or_create, bring_up, reconcile,
}

-- JSON's documented round trip at the type of the state.
pub record CodecLaws (codec : Codec) : Type 0 where
  pub unmarshal-marshal :
      (state : ExtensionState) (json : String)
      → codec.marshal_extension_state state ≡ ok json
      → codec.unmarshal_extension_state json ≡ ok (some state)

module _ (rt : Runtime) (ex : Extension) where
  module _ (start : List Call) where
    -- The newest call is a patch, made after `start` and accepted, that sets the status to the text of
    -- the state.
    abbrev Patched : ExtensionState → List Call → Type 0
    Patched state h =
        (json : String) × (before : List Call) × Since start before
        × (rt.codec.marshal_extension_state state ≡ ok json)
        × (h ≡ Call.patch_status (with_state ex json) ∷ before)
        × (rt.env (Call.patch_status (with_state ex json)) before ≡ none)

    patched-Post :
        (state : ExtensionState) (json : String) (o : Option Error) (before : List Call)
        → Since start before
        → rt.codec.marshal_extension_state state ≡ ok json
        → rt.env (Call.patch_status (with_state ex json)) before ≡ o
        → Post (λ _. Patched state) (patched o (Call.patch_status (with_state ex json) ∷ before))
    unfolding pure fail
    patched-Post state json none before s m e = (json, before, s, m, refl, e)
    patched-Post state json (some x) before s m e = tt

    update_status-Patched :
        (state : ExtensionState)
        → Triple (Since start) (λ _. Patched state) (update_status rt ex state)
    unfolding update_status ask ◌>>=◌
    update_status-Patched state =
        Triple-bind _ _ _ (Triple-or_fail _ _)
          λ json. record { at = λ h (s, m). patched-Post state json _ h s m refl }

    -- The state of a load balancer that is known to be ACTIVE, over some earlier state.
    abbrev Reported : ExtensionSpec → List Call → Type 0
    Reported ext_spec h =
        (lb : LoadBalancer) × (float_ip : String) × (old : ExtensionState) × Known rt ex start lb h
        × (lb.provisioning_status ≡ provisioning_active_status)
        × Patched (new_state ext_spec lb float_ip old) h

    -- The newest call patched the status to a state that fits the specification.
    abbrev pub Reports : List Call → Type 0
    Reports h' =
        (json : String) × (before : List Call) × Since start before
        × (h' ≡ Call.patch_status (with_state ex json) ∷ before)
        × (rt.env (Call.patch_status (with_state ex json)) before ≡ none)
        × (ext_spec : ExtensionSpec) × (read_extension_spec rt.codec ex ≡ ok (some ext_spec))
        × (lb : LoadBalancer) × Known rt ex start lb h'
        × (lb.provisioning_status ≡ provisioning_active_status)
        × (state : ExtensionState) × (get_extension_state rt.codec (with_state ex json)
            ≡ ok (some state))
        × (state.cluster_type
            ≡ (if ext_spec.private_cluster then cluster_type_private else cluster_type_public))
        × (state.internal_address_load_balancer ≡ some lb.vip_address)
        × (is_some state.external_address_load_balancer ≡ not ext_spec.private_cluster)

    module _ (laws : WaitLaws rt.wait) where
      bring_up-Reported :
          (ext_spec : ExtensionSpec) (ext_state : Option ExtensionState)
          (config : PrivateNetworkConfig) (ranges : IpNet rt.net) (lb : LoadBalancer)
          → Triple
              (Known rt ex start lb)
              (λ _. Reported ext_spec)
              (bring_up rt ex ext_spec ext_state config ranges lb)
      unfolding bring_up
      bring_up-Reported ext_spec ext_state config ranges lb =
          Triple-bind _ _ _ (require_active-Runs rt ex start config lb) λ _.
            Triple-bind (Runs rt ex start) _ _
              (Triple-on_error _ _ (check_load_balancer-Running rt.env _ rt.wait laws lb config _))
              λ checked.
                Triple-after _ _ (Running-Lasting rt.env _ checked)
                  (Emits-on_error _ _ (attach-Any rt ex start laws config checked))
                  λ float_ip.
                    Triple-bind (λ current. ActiveKnown rt ex start current) _ _
                      (Triple-weaken _
                        (λ current h (r, q). same-Runs rt ex start checked current h r q)
                        (Triple-non_nil checked))
                      λ current.
                        Triple-after _ _ (λ c h (a, t). (a, Traced.later c t))
                          (require_healthy-Emits AnyCall (λ _ _. tt) rt laws ex current)
                          λ _.
                            Triple-after _ _ (λ c h (a, t). (a, Traced.later c t))
                              (Emits-non_nil ext_state)
                              λ old.
                                Triple-weaken _
                                  (λ _ h ((a, t), p). (current, float_ip, old, t, a, p))
                                  (Triple-pre _ (λ h (a, t). ((a, t), Own-Since rt.env start _ t))
                                    (Triple-carry (ActiveKnown rt ex start current) _
                                      (λ c h (a, t). (a, Traced.later c t))
                                      (update_status-Emits AnyCall (λ _ _. tt) rt laws ex _
                                        (λ json. tt))
                                      (update_status-Patched
                                        (new_state ext_spec current float_ip old))))

      -- the part from the source ranges on
      raise :
          (ext_spec : ExtensionSpec) (ext_state : Option ExtensionState)
          (config : PrivateNetworkConfig) (vips : List String)
          → Triple
              (Since start)
              (λ _. Reported ext_spec)
              (do
                ranges ←
                    or_fail
                      (errorf_cause "error to get LB source ranges ipv4 for extension [ns=%s]: [%v]"
                        (ex.namespace ∷ []))
                      (get_load_balancer_source_ranges rt.net ext_spec config)
                found ← find_or_create rt ex config vips ranges
                lb ← non_nil found
                bring_up rt ex ext_spec ext_state config ranges lb)
      raise ext_spec ext_state config vips =
          Triple-after _ _ (Since-Lasting start) (Emits-or_fail _ _) λ ranges.
            Triple-bind _ _ _ (find_or_create-Known rt ex start laws config vips ranges) λ found.
              Triple-bind (λ lb. Known rt ex start lb) _ _
                (Triple-weaken _
                  (λ lb h ((b, p, k), q).
                    subst (λ c. Known rt ex start c h) (some-injective b lb (sym p ∙ q)) k)
                  (Triple-non_nil found))
                (λ lb. bring_up-Reported ext_spec ext_state config ranges lb)

      -- The specification that was read, and the report that follows from it.
      abbrev Reconciled : List Call → Type 0
      Reconciled h =
          (ext_spec : ExtensionSpec) × (read_extension_spec rt.codec ex ≡ ok (some ext_spec))
          × Reported ext_spec h

      reconcile-Reconciled : Triple (Since start) (λ _. Reconciled) (reconcile rt ex)
      unfolding reconcile
      reconcile-Reconciled =
          let lasting = Since-Lasting start in
          Triple-after _ _ lasting (get_cluster-Emits AnyCall (λ _ _. tt) rt.env ex) λ cluster.
            Triple-bind (λ o h. Since start h × (read_extension_spec rt.codec ex ≡ ok o)) _ _
              (Triple-or_fail _ _)
              λ read_spec.
                let read_lasting : Lasting
                    (λ h. Since start h × (read_extension_spec rt.codec ex ≡ ok read_spec)) =
                  λ c h k. (Since-Lasting start c h k.0, k.1) in
                Triple-after _ _ read_lasting (Emits-or_fail _ _) λ ext_state.
                  Triple-after _ _ read_lasting
                    (find_vip-Emits AnyCall (λ _ _. tt) rt laws namespace_istio_ingress)
                    λ vips.
                      Triple-after _ _ read_lasting
                        (Emits-on_error _ _
                          (get_global_config-Emits AnyCall (λ _ _. tt) rt.env rt.codec ex))
                        λ config. Triple-bind _ _ _ (Triple-non_nil read_spec) λ ext_spec. record {
                          at = λ h ((s, e), p).
                              (Triple-weaken _ (λ _ h' r. (ext_spec, e ∙ ap ok p, r))
                                  (raise ext_spec ext_state config vips)).at
                                h s;
                        }

      -- If `Reconcile` returns without an error, the last call of the run was an accepted patch of the Extension
      -- that changes its state alone, and the state that it holds, read as the code reads it, has the
      -- cluster type that the specification asks for, the address of a load balancer as the internal
      -- address, and an external address exactly for a public cluster. This load balancer is one
      -- that the run itself was answered, ACTIVE in that answer: as the only valid one of a listing
      -- under the name of the extension, by a creation under that name, or by a read of the ID of
      -- one that was answered so before. This is under the laws of the wait and of JSON.
      pub reconcile-Reports :
          CodecLaws rt.codec
          → (h' : List Call) → reconcile rt ex start ≡ (returned tt, h')
          → Reports h'
      unfolding get_extension_state new_state
      reconcile-Reports codec_laws h' e =
          let (ext_spec, p, reported) =
            Triple-elim reconcile-Reconciled {h = start} {h' = h'} ([], refl) e in
          let (lb, float_ip, old, known, active, stored) = reported in
          let (json, before, since, m, q, ok_patch) = stored in
          (
            json,
            before,
            since,
            q,
            ok_patch,
            ext_spec,
            p,
            lb,
            known,
            active,
            new_state ext_spec lb float_ip old,
            codec_laws.unmarshal-marshal _ json m,
            ground arith,
            ground arith,
            ground arith,
          )
