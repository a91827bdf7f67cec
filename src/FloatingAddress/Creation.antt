-- ===== src/FloatingAddress/Creation.antt =====
-- The creation of a floating IP in the first subnet that gives one.
use gardener_extension_priva.Base.{◌≡◌, refl, Option, none, some, List, [], ◌∷◌, ◌++◌}
use gardener_extension_priva.Fault.{Error, ok, err, returned}
use gardener_extension_priva.OpenStack.{ServiceClient, Subnet, FloatingIp, FloatingIpCreateOpts}
use gardener_extension_priva.World.{Call, Env, pure, ask, or_fail, attempt, ◌>>=◌}
use gardener_extension_priva.FloatingAddress.{create_floating_ip, create_in_subnets}

module _ (env : Env) (client : ServiceClient) (opts : FloatingIpCreateOpts) where
  abbrev pub creation : Subnet → Call
  creation subnet = Call.create_floating_ip client (record opts { subnet_id = subnet.id })

  -- The history after a request in each of the subnets.
  abbrev pub requested : List Subnet → List Call → List Call
  requested [] h = h
  requested (s ∷ subnets) h = requested subnets (creation s ∷ h)

  -- Each of these requests is refused at its turn.
  abbrev pub AllRefused : List Subnet → List Call → Type 0
  AllRefused [] h = Unit
  AllRefused (s ∷ subnets) h =
      ((e : Error) × (env (creation s) h ≡ err e)) × AllRefused subnets (creation s ∷ h)

  -- The loop over the subnets asks in their order until a request is accepted: it returns the address
  -- of that request, with no error, and makes no request behind it, whatever the loop started with.
  pub create_in_subnets_lem :
      (before after : List Subnet) (subnet : Subnet) (fip : FloatingIp)
      (last : Option FloatingIp × Option Error) (h : List Call)
      → AllRefused before h
      → env (creation subnet) (requested before h) ≡ ok fip
      → create_in_subnets env client opts (before ++ subnet ∷ after) last h
        ≡ (returned (some fip, none), creation subnet ∷ requested before h)
  unfolding create_in_subnets create_floating_ip pure ask or_fail attempt ◌>>=◌
  create_in_subnets_lem [] after subnet fip last h refused e = rw e refl
  create_in_subnets_lem (s ∷ before) after subnet fip last h ((x, p), refused) e =
      rw p (create_in_subnets_lem before after subnet fip _ (creation s ∷ h) refused e)
