-- ===== src/LoadBalancer/Lookup/Laws.antt =====
-- The lookup of a load balancer by name.
use gardener_extension_priva.Base.{
  String, ◌≡◌, ◌↔◌, refl, ap, Bool, true, false, List, [], ◌∷◌, ◌++◌, keep, All, Bool-cases, inl,
  inr,
}
use gardener_extension_priva.Fault.{ok, returned, failed, err_not_found}
use gardener_extension_priva.OpenStack.{ServiceClient, LoadBalancer}
use gardener_extension_priva.World.{Call, Env, pure, fail, ask, or_fail, ◌>>=◌}
use gardener_extension_priva.LoadBalancer.Lookup.{
  is_valid, single, get_load_balancers, find_load_balancer,
}

module _ {A : Type 0} (p : A → Bool) where
  abbrev pub Rejects : List A → Type 0
  Rejects = All (λ a. p a ≡ false)

  keep-nil : (l : List A) → keep p l ≡ [] → Rejects l
  keep-nil [] h = tt
  keep-nil (x ∷ l) h = elim (Bool-cases (p x)) [
    | inl t ↦ absurd (cc (rw t at h))
    | inr f ↦ (f, keep-nil l (rw f at h))
  ]

  -- A list of which one element is kept, split at that element.
  abbrev pub SplitAt : A → List A → Type 0
  SplitAt a l =
      (xs : List A) × (ys : List A) × (l ≡ xs ++ a ∷ ys) × Rejects xs × (p a ≡ true) × Rejects ys

  pub keep-single : (l : List A) (a : A) → keep p l ≡ a ∷ [] → SplitAt a l
  keep-single [] a h = absurd (cc h)
  keep-single (x ∷ l) a h = elim (Bool-cases (p x)) [
    | inl t ↦ let h' : x ∷ keep p l ≡ a ∷ [] = rw t at h in ([], l, cc, tt, cc, keep-nil l (cc h'))
    | inr f ↦
        let (xs, ys, e, rx, t, ry) = keep-single l a (rw f at h) in
        (x ∷ xs, ys, ap (λ z. x ∷ z) e, (f, rx), t, ry)
  ]

  keep-Rejects : (l m : List A) → Rejects l → keep p (l ++ m) ≡ keep p m
  keep-Rejects [] m h = refl
  keep-Rejects (x ∷ l) m h = rw (h.0, keep) (keep-Rejects l m h.1)

  keep-all_rejected : (m : List A) → Rejects m → keep p m ≡ []
  keep-all_rejected [] r = refl
  keep-all_rejected (y ∷ m) r = rw (r.0, keep) (keep-all_rejected m r.1)

  keep_split : (l : List A) (a : A) → SplitAt a l → keep p l ≡ a ∷ []
  keep_split l a (xs, ys, e, rx, t, ry) =
      rw (e, keep-Rejects xs (a ∷ ys) rx, t) (ap (λ z. a ∷ z) (keep-all_rejected ys ry))

single-returned :
    (lbs : List LoadBalancer) (lb : LoadBalancer) (h : List Call)
    → (single lbs h).0 ≡ returned lb
    → lbs ≡ lb ∷ []
unfolding pure fail
single-returned [] lb h e = cc
single-returned (x ∷ []) lb h e = cc
single-returned (x ∷ y ∷ lbs) lb h e = cc

single-not_found :
    (lbs : List LoadBalancer) (h : List Call) → (single lbs h).0 ≡ failed err_not_found → lbs ≡ []
unfolding pure fail
single-not_found [] h e = refl
single-not_found (x ∷ []) h e = cc
single-not_found (x ∷ y ∷ lbs) h e = cc

module _ (env : Env) (client : ServiceClient) (name : String) (h : List Call)
    (lbs : List LoadBalancer)
    (listed : env (Call.list_load_balancers client name) h ≡ ok (ok lbs)) where
  found-eq :
      find_load_balancer env client name h
      ≡ single (keep is_valid lbs) (Call.list_load_balancers client name ∷ h)
  unfolding find_load_balancer get_load_balancers ask or_fail ◌>>=◌
  found-eq = rw listed

  -- Where the load balancers of the name can be listed, the lookup finds a load balancer exactly
  -- if it is the only one among them that is neither deleted nor being deleted; it finds none,
  -- which the callers tell from other errors, exactly if all are deleted or being deleted.
  pub find_load_balancer_iff :
      ((lb : LoadBalancer)
        → ((find_load_balancer env client name h).0 ≡ returned lb) ↔ SplitAt is_valid lb lbs)
      × (((find_load_balancer env client name h).0 ≡ failed err_not_found) ↔ Rejects is_valid lbs)
  unfolding pure fail
  find_load_balancer_iff = rw found-eq (
    λ lb. (
      λ e. keep-single is_valid lbs lb (single-returned _ lb _ e),
      λ s. rw (keep_split is_valid lbs lb s),
    ),
    (
      λ e. keep-nil is_valid lbs (single-not_found _ _ e),
      λ r. rw (keep-all_rejected is_valid lbs r),
    ),
  )
