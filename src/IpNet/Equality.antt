-- ===== src/IpNet/Equality.antt =====
-- `Equal` (pkg/helper/ipnet.go) compares sizes and one inclusion.
use gardener_extension_priva.Base.{
  suc, ◌≤◌, String, ◌≡◌, ◌↔◌, refl, sym, ◌∙◌, Bool, true, false, List, [], ◌∷◌, arith, eq_iff,
  eq_refl, length,
}
use gardener_extension_priva.IpNet.{Net, IpNet, lookup, remove, contains, is_superset, equal}
use gardener_extension_priva.IpNet.Sets.{NodupKeys, lookup-remove, remove-NodupKeys}

module _ {V : Type 0} where
  abbrev Includes : List (String × V) → List (String × V) → Type 0
  Includes s t = (k : String) → contains t k ≡ true → contains s k ≡ true

  remove_absent : (k : String) (s : List (String × V)) → contains s k ≡ false → remove k s ≡ s
  unfolding remove lookup
  remove_absent k [] h = refl
  remove_absent k ((j, v) ∷ s) h = ground (arith, remove_absent k s)

  length-remove :
      (k : String) (s : List (String × V))
      → NodupKeys s
      → contains s k ≡ true
      → length s ≡ suc (length (remove k s))
  unfolding remove lookup
  length-remove k [] n h = cc
  length-remove k ((j, v) ∷ s) n h =
      ground (arith, length-remove k s n.1, remove_absent k s, eq_iff j k)

  Includes-remove :
      (s : List (String × V)) (k : String) (v : V) (t : List (String × V))
      → contains t k ≡ false
      → Includes s ((k, v) ∷ t)
      → Includes (remove k s) t
  unfolding lookup
  Includes-remove s k v t fresh inc j h = ground (arith, inc j, lookup-remove k j s, eq_iff k j)

  Includes-head :
      (s : List (String × V)) (k : String) (v : V) (t : List (String × V))
      → Includes s ((k, v) ∷ t)
      → contains s k ≡ true
  unfolding lookup
  Includes-head s k v t inc = ground (arith, inc k, eq_refl k)

  Includes-length-le :
      (s t : List (String × V)) → NodupKeys s → NodupKeys t → Includes s t → length t ≤ length s
  Includes-length-le s [] n m inc = omega arith
  Includes-length-le s ((k, v) ∷ t) n m inc = omega (
    arith,
    length-remove k s n (Includes-head s k v t inc),
    Includes-length-le (remove k s) t (remove-NodupKeys k s n) m.1
        (Includes-remove s k v t m.0 inc),
  )

  -- A set that includes another of the same size is included in it.
  Includes-back :
      (s t : List (String × V))
      → NodupKeys s
      → NodupKeys t
      → Includes s t
      → length s ≡ length t
      → Includes t s
  unfolding lookup
  Includes-back [] [] n m inc e j h = h
  Includes-back (p ∷ s) [] n m inc e j h = absurd (omega arith)
  Includes-back s ((k, v) ∷ t) n m inc e j h =
      let shorter = length-remove k s n (Includes-head s k v t inc) in
      ground (
        arith,
        Includes-back (remove k s) t (remove-NodupKeys k s n) m.1 (Includes-remove s k v t m.0 inc)
            (omega (arith, shorter)) j,
        lookup-remove k j s,
        eq_iff k j,
      )

module _ (net : Net) where
  is_superset_tail :
      (s : IpNet net) (k : String) (i : net.IpNetwork) (s2 : IpNet net)
      → is_superset net s ((k, i) ∷ s2) ≡ true
      → (contains s k ≡ true) × (is_superset net s s2 ≡ true)
  unfolding is_superset
  is_superset_tail s k i s2 h = ground arith

  is_superset-Includes :
      (s s2 : IpNet net) → NodupKeys s2 → (is_superset net s s2 ≡ true) ↔ Includes s s2
  unfolding is_superset lookup
  is_superset-Includes s [] m = (λ h k p. cc, λ inc. refl)
  is_superset-Includes s ((k, i) ∷ s2) m = (
    λ h j p.
        let tail = is_superset_tail s k i s2 h in
        ground (arith, (is_superset-Includes s s2 m.1).0 tail.1 j, tail.0, eq_iff k j),
    λ inc.
        ground (
          arith,
          inc k,
          eq_refl k,
          (is_superset-Includes s s2 m.1).1 (λ j p. ground (arith, inc j)),
        ),
  )

  both_ways : (a b : Bool) → (a ≡ true → b ≡ true) → (b ≡ true → a ≡ true) → a ≡ b
  both_ways a b f g = ground arith

  -- Two sets, each with every key once, are equal exactly if they have the same members.
  pub equal_iff :
      (s s2 : IpNet net)
      → NodupKeys s
      → NodupKeys s2
      → (equal net s s2 ≡ true) ↔ ((k : String) → contains s k ≡ contains s2 k)
  unfolding equal
  equal_iff s s2 n m = (
    λ h k.
        let inc : Includes s s2 = (is_superset-Includes s s2 m).0 (ground arith) in
        both_ways _ _ (Includes-back s s2 n m inc (ground arith) k) (inc k),
    λ same.
        let inc : Includes s s2 = λ k p. same k ∙ p in
        let back : Includes s2 s = λ k p. sym (same k) ∙ p in
        ground (
          arith,
          (is_superset-Includes s s2 m).1 inc,
          Includes-length-le s s2 n m inc,
          Includes-length-le s2 s m n back,
        ),
  )
