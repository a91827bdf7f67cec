-- ===== src/LoadBalancer/Listeners/Pages.antt =====
-- `getListenerByName`: the pages of the listing are read until there is more than one listener.
use mathlib.Core.List.{append_assoc, append-nil}
use gardener_extension_priva.Base.{
  ◌≤◌, ◌<◌, String, ◌≡◌, ◌↔◌, inl, inr, refl, sym, ap, ◌∙◌, false, List, [], ◌∷◌, ◌++◌, map, length,
  length-append, ltb, arith, Bool-cases,
}
use gardener_extension_priva.Fault.{
  consts_err_multiple_results, Result, ok, err, returned, failed, is_not_found,
}
use gardener_extension_priva.OpenStack.{ServiceClient, Listener}
use gardener_extension_priva.World.{Call, Env, pure, fail, ask, ◌>>=◌}
use gardener_extension_priva.LoadBalancer.Listeners.{
  collect_pages, only_listener, get_listener_by_name,
}

-- The listeners of some pages, in order.
abbrev pub joined : List (List Listener) → List Listener
joined [] = []
joined (v ∷ vs) = v ++ joined vs

-- All pages could be read, and together hold this listener alone.
abbrev pub HoldsOnly : Listener → List (Result (List Listener)) → Type 0
HoldsOnly l pages = (vs : List (List Listener)) × (pages ≡ map ok vs) × (joined vs ≡ l ∷ [])

collect_pages-ok :
    (pages : List (Result (List Listener))) (acc ls : List Listener)
    → collect_pages pages acc ≡ ok ls
    → (vs : List (List Listener)) × (pages ≡ map ok vs) × (ls ≡ acc ++ joined vs)
unfolding collect_pages
collect_pages-ok [] acc ls h = ([], refl, ground (arith, append-nil acc))
collect_pages-ok (err e ∷ pages) acc ls h = absurd (cc h)
collect_pages-ok (ok v ∷ pages) acc ls h = elim (Bool-cases (ltb 1 (length (acc ++ v)))) [
  | inl many ↦ absurd (cc (rw many at h))
  | inr few ↦
      let (vs, p, q) = collect_pages-ok pages (acc ++ v) ls (rw few at h) in
      (v ∷ vs, ap (λ t. ok v ∷ t) p, q ∙ append_assoc acc v (joined vs))
]

pub collect_pages-few :
    (vs : List (List Listener)) (acc : List Listener)
    → length (acc ++ joined vs) ≤ 1
    → collect_pages (map ok vs) acc ≡ ok (acc ++ joined vs)
unfolding collect_pages
collect_pages-few [] acc h = ap ok (sym (append-nil acc))
collect_pages-few (v ∷ vs) acc h =
    let p = append_assoc acc v (joined vs) in
    let size = length-append {0} (acc ++ v) (joined vs) in
    let few : ltb 1 (length (acc ++ v)) ≡ false = ground (arith, size, ap length p) in
    rw few (collect_pages-few vs (acc ++ v) (omega (arith, ap length p)) ∙ ap ok p)

collect_pages-many :
    (vs : List (List Listener)) (rest : List (Result (List Listener))) (acc : List Listener)
    → length acc ≤ 1
    → 1 < length (acc ++ joined vs)
    → collect_pages (map ok vs ++ rest) acc ≡ err consts_err_multiple_results
unfolding collect_pages
collect_pages-many [] rest acc few many = absurd (omega (arith, ap length (append-nil acc)))
collect_pages-many (v ∷ vs) rest acc few many = elim (Bool-cases (ltb 1 (length (acc ++ v)))) [
  | inl stop ↦ rw stop refl
  | inr more ↦ rw more (
      collect_pages-many vs rest (acc ++ v) (ground arith)
        (omega (arith, ap length (append_assoc acc v (joined vs)))))
]

only_listener-ok :
    (r : Result (List Listener)) (l : Listener) (h : List Call)
    → (only_listener r h).0 ≡ returned l
    → (ls : List Listener) × (r ≡ ok (l ∷ ls))
unfolding pure fail
only_listener-ok (ok []) l h e = absurd (cc e)
only_listener-ok (ok (x ∷ ls)) l h e = (ls, cc e)
only_listener-ok (err x) l h e = elim (Bool-cases (is_not_found x)) [
  | inl p ↦ absurd (cc (rw p at e))
  | inr p ↦ absurd (cc (rw p at e))
]

-- More than one listener stops the reading.
collect_pages_small :
    (pages : List (Result (List Listener))) (acc ls : List Listener)
    → length acc ≤ 1
    → collect_pages pages acc ≡ ok ls
    → length ls ≤ 1
unfolding collect_pages
collect_pages_small [] acc ls few h = ground arith
collect_pages_small (err e ∷ pages) acc ls few h = absurd (cc h)
collect_pages_small (ok v ∷ pages) acc ls few h = elim (Bool-cases (ltb 1 (length (acc ++ v)))) [
  | inl many ↦ absurd (cc (rw many at h))
  | inr less ↦ collect_pages_small pages (acc ++ v) ls (ground arith) (rw less at h)
]

alone : (l : Listener) (ls : List Listener) → length (l ∷ ls) ≤ 1 → l ∷ ls ≡ l ∷ []
alone l [] h = refl
alone l (x ∷ ls) h = absurd (omega arith)

module _ (env : Env) (client : ServiceClient) (name lb_id : String) (h : List Call) where
  abbrev pub listing : Call
  listing = Call.each_page_listeners client (record { name = name; loadbalancer_id = lb_id })

  -- `getListenerByName` returns a listener exactly if every page of the listing by that name could be
  -- read and together they hold that one listener and no other.
  pub get_listener_by_name_iff :
      (l : Listener)
      → ((get_listener_by_name env client name lb_id h).0 ≡ returned l)
        ↔ HoldsOnly l (env listing h)
  unfolding get_listener_by_name ask pure ◌>>=◌
  get_listener_by_name_iff l = (
    λ e.
        let (ls, p) = only_listener-ok (collect_pages (env listing h) []) l (listing ∷ h) e in
        let small = collect_pages_small (env listing h) [] (l ∷ ls) (omega arith) p in
        let (vs, q, r) = collect_pages-ok (env listing h) [] (l ∷ ls) p in
        (vs, q, sym r ∙ alone l ls small),
    λ (vs, q, r).
        let few : length (joined vs) ≤ 1 = omega (arith, ap length r) in
        rw (q, collect_pages-few vs [] few, r) refl,
  )

  -- If some first pages of the listing could be read and hold more than one listener,
  -- `getListenerByName` fails with `ErrMultipleResults` of the constants, whatever the pages behind
  -- them are.
  pub get_listener_by_name_multiple :
      (vs : List (List Listener)) (rest : List (Result (List Listener)))
      → env listing h ≡ map ok vs ++ rest
      → 1 < length (joined vs)
      → (get_listener_by_name env client name lb_id h).0 ≡ failed consts_err_multiple_results
  unfolding get_listener_by_name ask fail is_not_found ◌>>=◌
  get_listener_by_name_multiple vs rest e many =
      rw (e, collect_pages-many vs rest [] (omega arith) many) refl
