-- ===== src/IpNet/Sets.antt =====
-- The set operations, seen through membership.
use gardener_extension_priva.Base.{
  String, ◌≡◌, refl, Bool, false, not, ◌&&◌, ◌||◌, List, [], ◌∷◌, none, some, arith, ◌==◌, eq_iff,
  any_of, all_of, if◌then◌else◌,
}
use gardener_extension_priva.IpNet.{
  Net, IpNet, lookup, store, remove, contains, insert, delete, has, has_all, difference_from,
  difference,
}

module _ {V : Type 0} where
  pub lookup-store :
      (k j : String) (v : V) (m : List (String × V))
      → lookup j (store k v m) ≡ (if k == j then some v else lookup j m)
  unfolding lookup store
  lookup-store k j v [] = refl
  lookup-store k j v ((i, w) ∷ m) =
      ground (arith, eq_iff k j, eq_iff i k, eq_iff i j, lookup-store k j v m)

  pub lookup-remove :
      (k j : String) (m : List (String × V))
      → lookup j (remove k m) ≡ (if k == j then none else lookup j m)
  unfolding lookup remove
  lookup-remove k j [] = ground arith
  lookup-remove k j ((i, w) ∷ m) =
      ground (arith, eq_iff k j, eq_iff i k, eq_iff i j, lookup-remove k j m)

  -- Every key once, as a Go map has them.
  abbrev pub NodupKeys : List (String × V) → Type 0
  NodupKeys [] = Unit
  NodupKeys ((k, v) ∷ m) = (contains m k ≡ false) × NodupKeys m

  pub store-NodupKeys :
      (k : String) (v : V) (m : List (String × V)) → NodupKeys m → NodupKeys (store k v m)
  unfolding store lookup
  store-NodupKeys k v [] n = (refl, tt)
  store-NodupKeys k v ((j, w) ∷ m) n =
      ground (arith, store-NodupKeys k v m n.1, lookup-store k j v m, eq_iff j k, eq_iff k j)

  pub remove-NodupKeys : (k : String) (m : List (String × V)) → NodupKeys m → NodupKeys (remove k m)
  unfolding remove
  remove-NodupKeys k [] n = tt
  remove-NodupKeys k ((j, w) ∷ m) n = ground (arith, remove-NodupKeys k m n.1, lookup-remove k j m)

module _ (net : Net) where
  open net use {IpNetwork, string}

  abbrev pub named : List IpNetwork → String → Bool
  named items k = any_of (λ i. string i == k) items

  pub contains-insert :
      (s : IpNet net) (items : List IpNetwork) (k : String)
      → contains (insert net s items) k ≡ (contains s k || named items k)
  unfolding insert
  contains-insert s [] k = ground arith
  contains-insert s (item ∷ items) k = ground (
    arith,
    contains-insert (store (string item) item s) items k,
    lookup-store (string item) k item s,
  )

  pub contains-delete :
      (s : IpNet net) (items : List IpNetwork) (k : String)
      → contains (delete net s items) k ≡ (contains s k && not (named items k))
  unfolding delete
  contains-delete s [] k = ground arith
  contains-delete s (item ∷ items) k =
      ground
        (arith, contains-delete (remove (string item) s) items k, lookup-remove (string item) k s)

  pub insert-NodupKeys :
      (s : IpNet net) (items : List IpNetwork) → NodupKeys s → NodupKeys (insert net s items)
  unfolding insert
  insert-NodupKeys s [] n = n
  insert-NodupKeys s (item ∷ items) n =
      insert-NodupKeys (store (string item) item s) items (store-NodupKeys (string item) item s n)

  pub delete-NodupKeys :
      (s : IpNet net) (items : List IpNetwork) → NodupKeys s → NodupKeys (delete net s items)
  unfolding delete
  delete-NodupKeys s [] n = n
  delete-NodupKeys s (item ∷ items) n =
      delete-NodupKeys (remove (string item) s) items (remove-NodupKeys (string item) s n)

  -- From a set with every key once, `Insert` makes a set of what it held and the items, and `Delete`
  -- a set of what it held without the items; in both every key stands once.
  pub contains-insert-delete :
      (s : IpNet net) (items : List IpNetwork)
      → NodupKeys s
      → NodupKeys (insert net s items)
        × NodupKeys (delete net s items)
        × ((k : String)
            → (contains (insert net s items) k ≡ (contains s k || named items k))
              × (contains (delete net s items) k ≡ (contains s k && not (named items k))))
  contains-insert-delete s items n = (
    insert-NodupKeys s items n,
    delete-NodupKeys s items n,
    λ k. (contains-insert s items k, contains-delete s items k),
  )

  -- `HasAll` tells whether the set has each of the items.
  pub has_all_lem :
      (s : IpNet net) (items : List IpNetwork) → has_all net s items ≡ all_of (has net s) items
  unfolding has_all
  has_all_lem s [] = refl
  has_all_lem s (item ∷ items) = ground (arith, has_all_lem s items)

  difference_from-lookup :
      (result s s2 : IpNet net) (k : String)
      → contains (difference_from net result s s2) k
        ≡ (contains result k || contains s k && not (contains s2 k))
  unfolding difference_from lookup
  difference_from-lookup result [] s2 k = ground arith
  difference_from-lookup result ((j, i) ∷ s) s2 k = ground (
    arith,
    difference_from-lookup result s s2 k,
    difference_from-lookup (store j i result) s s2 k,
    lookup-store j k i result,
    eq_iff j k,
  )

  -- `Difference` holds exactly the keys of the first set that the second does not hold.
  pub contains-difference :
      (s s2 : IpNet net) (k : String)
      → contains (difference net s s2) k ≡ (contains s k && not (contains s2 k))
  unfolding difference lookup
  contains-difference s s2 k = difference_from-lookup [] s s2 k
