-- ===== src/FloatingAddress/Reuse.antt =====
-- What `AttachFloatingIP` does with the addresses of the pool that are available.
use gardener_extension_priva.Base.{
  String, ◌≡◌, refl, Bool, Option, some, List, [], ◌∷◌, Bool-cases, inl, inr, if◌then◌else◌,
}
use gardener_extension_priva.Fault.{ok, returned}
use gardener_extension_priva.OpenStack.{ServiceClient, FloatingIp, PortForwarding}
use gardener_extension_priva.World.{Call, Env, writes, pure, ask, or_fail, ◌>>=◌}
use gardener_extension_priva.FloatingAddress.{
  is_free, update_floating_ip, attach_if_free, attach_available,
}

module _ (env : Env) (client : ServiceClient) (port : String)
    (forwardings : String → List PortForwarding) (updated : String → FloatingIp)
    (lists : (id : String) (h : List Call)
      → env (Call.list_port_forwardings client id) h ≡ ok (ok (forwardings id)))
    (updates : (id : String) (h : List Call)
      → env (Call.update_floating_ip client id (some port)) h ≡ ok (updated id)) where
  abbrev pub free : FloatingIp → Bool
  free fip = is_free fip (forwardings fip.id)

  -- The attachments of all free addresses of a list, the last on top.
  abbrev pub attachments : List FloatingIp → List Call → List Call
  attachments [] ws = ws
  attachments (fip ∷ fips) ws =
      attachments fips
        (if free fip then Call.update_floating_ip client fip.id (some port) ∷ ws else ws)

  -- The last free address of a list, as it was updated.
  abbrev pub last_attached : List FloatingIp → Option FloatingIp → Option FloatingIp
  last_attached [] acc = acc
  last_attached (fip ∷ fips) acc =
      last_attached fips (if free fip then some (updated fip.id) else acc)

  -- Where all calls succeed, every free address among the available ones is attached to the port of
  -- the load balancer, in their order, not one of them only, and the last one attached is the
  -- result.
  pub attach_available_lem :
      (pool : String) (fips : List FloatingIp) (acc : Option FloatingIp) (h : List Call)
      → let r = attach_available env client pool port fips acc h in
        (r.0 ≡ returned (last_attached fips acc)) × (writes r.1 ≡ attachments fips (writes h))
  unfolding attach_available attach_if_free update_floating_ip ◌>>=◌ pure ask or_fail
  attach_available_lem pool [] acc h = (refl, refl)
  attach_available_lem pool (fip ∷ fips) acc h = elim (Bool-cases (free fip)) [
    | inl p ↦
        rw (lists fip.id h, p, updates fip.id (Call.list_port_forwardings client fip.id ∷ h))
          (attach_available_lem pool fips (some (updated fip.id)) (
            Call.update_floating_ip client fip.id (some port)
            ∷ Call.list_port_forwardings client fip.id
            ∷ h))
    | inr p ↦
        rw (lists fip.id h, p)
          (attach_available_lem pool fips acc (Call.list_port_forwardings client fip.id ∷ h))
  ]
