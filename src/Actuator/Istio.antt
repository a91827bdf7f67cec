-- ===== src/Actuator/Istio.antt =====
-- The addresses of the services of the Istio ingress.
use gardener_extension_priva.Base.{
  String, ◌≡◌, refl, ◌∙◌, ap, Bool, true, false, ◌&&◌, Option, none, some, List, [], ◌∷◌, ◌++◌,
  keep, inl, inr, ◌==◌, sym, if◌then◌else◌,
}
use mathlib.Core.List.{append_assoc, append-nil}
use gardener_extension_priva.Constants.{key_istio}
use gardener_extension_priva.Fault.{
  errorf_cause, ok, err, Outcome, returned, failed, panicked, Result-cases,
}
use gardener_extension_priva.Kube.{Service}
use gardener_extension_priva.World.{Call, M, pure, non_nil, ask, or_fail, ◌>>=◌}
use gardener_extension_priva.Actuator.{Runtime, with_selected, collect_vips, find_vip_lb_istio}

-- a service of type LoadBalancer that selects the Istio ingress gateway
abbrev pub is_istio : Service → Bool
is_istio svc = svc.service_type == "LoadBalancer" && svc.app_selector == key_istio

-- The first addresses of services, if every one has an address.
abbrev pub first_addresses : List Service → Option (List String)
first_addresses [] = some []
first_addresses (svc ∷ items) =
    let later = first_addresses items in
    elim svc.ingress [
      | [] ↦ none
      | ip ∷ ips ↦ elim later [ none ↦ none | some rest ↦ some (ip ∷ rest) ]
    ]

-- what the function does, on a list of services that the call gave
abbrev pub gathered : List String → Option (List String) → Outcome (List String)
gathered acc none = panicked
gathered acc (some ips) = returned (acc ++ ips)

gathered-cons :
    (acc : List String) (ip : String) (later : Option (List String))
    → gathered (acc ++ ip ∷ []) later
      ≡ gathered acc (elim later [ none ↦ none | some rest ↦ some (ip ∷ rest) ])
gathered-cons acc ip none = refl
gathered-cons acc ip (some rest) = ap returned (append_assoc acc (ip ∷ []) rest)

abbrev selected : Service → Bool → Option (Option String)
selected svc b = if b then some (elim svc.ingress [ [] ↦ none | ip ∷ ips ↦ some ip ]) else none

round :
    (svc : Service) (items : List Service) (b : Bool) (next : List String → M (List String))
    (acc : List String) (h : List Call)
    → ((l : List String) → next l h ≡ (gathered l (first_addresses items), h))
    → with_selected (selected svc b) acc next h
      ≡ (gathered acc (first_addresses (if b then svc ∷ items else items)), h)
unfolding pure non_nil ◌>>=◌
round svc items false next acc h e = e acc
round svc items true next acc h e =
    elim svc.ingress
      as (λ ips. with_selected (some (elim ips [ [] ↦ none | ip ∷ rest ↦ some ip ])) acc next h ≡ (
        gathered acc (elim ips [
          | [] ↦ none
          | ip ∷ rest ↦ elim (first_addresses items) [ none ↦ none | some l ↦ some (ip ∷ l) ]
        ]),
        h,
      )) [
        | [] ↦ refl
        | ip ∷ ips ↦
            e (acc ++ ip ∷ []) ∙ ap (λ o. (o, h)) (gathered-cons acc ip (first_addresses items))
      ]

pub collect_vips_lem :
    (items : List Service) (acc : List String) (h : List Call)
    → collect_vips items acc h ≡ (gathered acc (first_addresses (keep is_istio items)), h)
unfolding collect_vips pure
collect_vips_lem [] acc h = ap (λ l. (returned l, h)) (sym (append-nil acc))
collect_vips_lem (svc ∷ items) acc h =
    round svc (keep is_istio items) (is_istio svc) _ acc h λ l. collect_vips_lem items l h

-- `findVipLBistio` makes one call, the listing of the services. A failure of the call fails it; it
-- panics exactly where a service of type LoadBalancer that selects the Istio ingress gateway has no
-- ingress address, and otherwise returns the first addresses of these services in their order.
pub find_vip_lb_istio_lem :
    (rt : Runtime) (namespace : String) (h : List Call)
    → find_vip_lb_istio rt namespace h ≡ (
      elim (rt.env (Call.list_services namespace) h) [
        | ok items ↦ gathered [] (first_addresses (keep is_istio items))
        | err e ↦
            failed (errorf_cause "failed to list services in namespace %s: %v" (namespace ∷ []) e)
      ],
      Call.list_services namespace ∷ h,
    )
unfolding find_vip_lb_istio ask or_fail ◌>>=◌
find_vip_lb_istio_lem rt namespace h =
    elim (Result-cases (rt.env (Call.list_services namespace) h)) [
      | inl (items, p) ↦ rw p (collect_vips_lem items [] (Call.list_services namespace ∷ h))
      | inr (e, p) ↦ rw p refl
    ]
