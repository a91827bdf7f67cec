-- ===== src/LoadBalancer/Listeners/Covering.antt =====
-- What it means that a listener has the allowed ranges, by the calls of a run, and the steps of one round
-- of `CheckLoadBalancer` that lead to it.
use gardener_extension_priva.Base.{
  String, ◌≡◌, ◌⊎◌, inl, inr, refl, true, false, Option, some, List, [], ◌∷◌, All, arith, eq_iff,
}
use gardener_extension_priva.Fault.{Error, Result, ok, err, is_not_found}
use gardener_extension_priva.OpenStack.{ServiceClient, LoadBalancer, Listener}
use gardener_extension_priva.World.{Call, Env, pure, fail, ask, or_fail, ◌>>=◌, ◌>>◌}
use gardener_extension_priva.World.Ensures.{Post}
use gardener_extension_priva.World.Triples.{
  Since, Lasting, Since-Lasting, Triple, Triple-if, Triple-fail, Triple-pure,
}
use gardener_extension_priva.LoadBalancer.Tracing.{Traced}
use gardener_extension_priva.LoadBalancer.Listeners.{
  deep_equal, needs_update, collect_pages, only_listener, get_listener_by_name,
  update_allowed_cidrs,
}

deep_equal_sound : (xs ys : List String) → deep_equal xs ys ≡ true → xs ≡ ys
deep_equal_sound [] [] h = refl
deep_equal_sound [] (y ∷ ys) h = cc
deep_equal_sound (x ∷ xs) [] h = cc
deep_equal_sound (x ∷ xs) (y ∷ ys) h = ground (arith, eq_iff x y, deep_equal_sound xs ys)

needs_update-false :
    (current cidrs : List String)
    → needs_update current cidrs ≡ false
    → (cidrs ≡ []) ⊎ (current ≡ cidrs)
needs_update-false current [] h = inl refl
needs_update-false current (c ∷ cs) h = inr (deep_equal_sound current (c ∷ cs) (ground arith))

-- After `start` the call was made, from the history `before`.
abbrev pub Made : List Call → Call → List Call → List Call → Type 0
Made start c before h = Since start before × Since (c ∷ before) h

Made-Lasting : (start : List Call) (c : Call) (before : List Call) → Lasting (Made start c before)
Made-Lasting start c before d h (p, q) = (p, Since-Lasting (c ∷ before) d h q)

abbrev pub listing : ServiceClient → String → Call
listing client id = Call.list_listeners client (record { name = ""; loadbalancer_id = id })

module _ (env : Env) (client : ServiceClient) (cidrs : List String) where
  -- After `start` an update of the listener to the ranges was made, and accepted.
  abbrev pub Updated : List Call → Listener → List Call → Type 0
  Updated start l h =
      (before : List Call) × (answer : Listener) × Made start
        (Call.update_listener client l.id cidrs) before h
      × (env (Call.update_listener client l.id cidrs) before ≡ ok answer)

  -- There are no ranges to set, the listener had them, or it was updated to them.
  abbrev pub Covered : List Call → Listener → List Call → Type 0
  Covered start l h = (cidrs ≡ []) ⊎ (l.allowed_cidrs ≡ cidrs) ⊎ Updated start l h

  pub Covered-Lasting : (start : List Call) (l : Listener) → Lasting (Covered start l)
  Covered-Lasting start l c h (inl e) = inl e
  Covered-Lasting start l c h (inr (inl e)) = inr (inl e)
  Covered-Lasting start l c h (inr (inr (before, answer, m, e))) =
      inr (inr (before, answer, Made-Lasting start _ before c h m, e))

  answered-Covered :
      (start : List Call) (l : Listener) (h : List Call) (answer : Result Listener)
      (wrap : Error → Error)
      → Since start h
      → env (Call.update_listener client l.id cidrs) h ≡ answer
      → Post
          (λ _. Covered start l)
          ((do or_fail wrap answer; pure tt) (Call.update_listener client l.id cidrs ∷ h))
  unfolding or_fail pure ◌>>=◌
  answered-Covered start l h (ok a) wrap s e = inr (inr (h, a, (s, ([], refl)), e))
  answered-Covered start l h (err x) wrap s e = tt

  pub update-Covered :
      (start : List Call) (l : Listener)
      → Triple (Since start) (λ _. Covered start l) (update_allowed_cidrs env client l cidrs)
  unfolding update_allowed_cidrs ask ◌>>=◌
  update-Covered start l =
      Triple-if (needs_update l.allowed_cidrs cidrs) _ _
        (λ p. record { at = λ h s. answered-Covered start l h _ _ s refl })
        (λ p. Triple-pure tt (λ h s. elim (needs_update-false l.allowed_cidrs cidrs p) [
          | inl e ↦ inl e
          | inr e ↦ inr (inl e)
        ]))

  module _ (lb : LoadBalancer) (start : List Call) where
    -- the load balancer that the check was given, or one that was read by its ID since
    abbrev pub Held : LoadBalancer → List Call → Type 0
    Held = Traced env (λ b h. (b ≡ lb) × Since start h)

    -- what the loop holds between two rounds
    abbrev pub Holds : Option LoadBalancer → List Call → Type 0
    Holds o h = (current : LoadBalancer) × (o ≡ some current) × Held current h

    abbrev pub lookup : String → String → Call
    lookup name id = Call.each_page_listeners client (record { name = name; loadbalancer_id = id })

    -- After `start`, a lookup by the name of the listener, under the load balancer held, found one
    -- listener, which is covered since.
    abbrev pub Ranged : List Call → Listener → Type 0
    Ranged h listener =
        (current : LoadBalancer) × (before : List Call) × (l : Listener) × (rest : List Listener)
        × Held current before
        × Made start (lookup listener.name current.id) before h
        × (collect_pages (env (lookup listener.name current.id) before) [] ≡ ok (l ∷ rest))
        × Covered (lookup listener.name current.id ∷ before) l h

    pub Ranged-Lasting : (listener : Listener) → Lasting (λ h. Ranged h listener)
    Ranged-Lasting listener c h (current, before, l, rest, t, m, e, v) = (
      current,
      before,
      l,
      rest,
      t,
      Made-Lasting start _ before c h m,
      e,
      Covered-Lasting _ l c h v,
    )

    AllRanged-Lasting : (ls : List Listener) → Lasting (λ h. All (Ranged h) ls)
    AllRanged-Lasting [] c h p = tt
    AllRanged-Lasting (l ∷ ls) c h p = (Ranged-Lasting l c h p.0, AllRanged-Lasting ls c h p.1)

    -- the lookup has just found the listener
    abbrev pub Found : LoadBalancer → String → Listener → List Call → Type 0
    Found current name l h =
        (before : List Call) × (rest : List Listener) × Held current before
        × Since start before
        × (h ≡ lookup name current.id ∷ before)
        × (collect_pages (env (lookup name current.id) before) [] ≡ ok (l ∷ rest))

    only-Found :
        (current : LoadBalancer) (name : String) (h : List Call) (r : Result (List Listener))
        → Held current h
        → Since start h
        → collect_pages (env (lookup name current.id) h) [] ≡ r
        → Post (Found current name) (only_listener r (lookup name current.id ∷ h))
    unfolding pure fail
    only-Found current name h (ok []) t s e = tt
    only-Found current name h (ok (l ∷ rest)) t s e = (h, rest, t, s, refl, e)
    only-Found current name h (err x) t s e =
        (Triple-if {K = λ g. Unit {0}} (is_not_found x) _ _ (λ p. Triple-fail _)
            (λ p. Triple-fail x)).at
          _ tt

    pub lookup-Found :
        (current : LoadBalancer) (name : String)
        → Triple
            (λ h. Since start h × Held current h)
            (Found current name)
            (get_listener_by_name env client name current.id)
    unfolding get_listener_by_name ask ◌>>=◌
    lookup-Found current name = record { at = λ h k. only-Found current name h _ k.1 k.0 refl }
