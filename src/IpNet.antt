-- ===== src/IpNet.antt =====
-- pkg/helper/ipnet.go: a set of IP networks, a Go map from the text of a network to the network. A map
-- is an association list; the order in which Go ranges over it is a parameter where the code ranges
-- over a map to build a slice.
pub mod Sets
pub mod Equality
pub mod Classes
pub mod Parsing
use gardener_extension_priva.Base.{
  ℕ, String, Bool, true, false, ◌&&◌, List, [], ◌∷◌, length, map, is_some, nat_eq, Option, none,
  some, ◌==◌, if◌then◌else◌,
}
use gardener_extension_priva.Fault.{Error, Result, ok, err}
use gardener_extension_priva.Text.{trim_space}

-- Go's `net`: a network, its `String`, and `ParseCIDR`.
pub record Net : Type 1 where
  pub IpNetwork : Type 0
  pub string : IpNetwork → String
  pub parse_cidr : String → Result IpNetwork

module _ {V : Type 0} where
  -- v, found := m[k]
  unfoldable pub lookup : String → List (String × V) → Option V
  lookup k [] = none
  lookup k ((j, v) ∷ m) = if j == k then some v else lookup k m

  -- m[k] = v
  unfoldable pub store : String → V → List (String × V) → List (String × V)
  store k v [] = (k, v) ∷ []
  store k v ((j, w) ∷ m) = if j == k then (k, v) ∷ m else (j, w) ∷ store k v m

  -- delete(m, k)
  unfoldable pub remove : String → List (String × V) → List (String × V)
  remove k [] = []
  remove k ((j, w) ∷ m) = let rest = remove k m in if j == k then rest else (j, w) ∷ rest

  abbrev pub contains : List (String × V) → String → Bool
  contains m k = is_some (lookup k m)

  abbrev pub keys : List (String × V) → List String
  keys [] = []
  keys ((k, v) ∷ m) = k ∷ keys m

module _ (net : Net) where
  open net use {IpNetwork, string, parse_cidr}

  abbrev pub IpNet : Type 0
  IpNet = List (String × IpNetwork)

  unfoldable pub insert : IpNet → List IpNetwork → IpNet
  insert s [] = s
  insert s (item ∷ items) = insert (store (string item) item s) items

  unfoldable pub delete : IpNet → List IpNetwork → IpNet
  delete s [] = s
  delete s (item ∷ items) = delete (remove (string item) s) items

  unfoldable pub has : IpNet → IpNetwork → Bool
  has s item = contains s (string item)

  unfoldable pub has_all : IpNet → List IpNetwork → Bool
  has_all s [] = true
  has_all s (item ∷ items) = let rest = has_all s items in if has s item then rest else false

  -- the loop of `Difference` over the entries of `s`
  unfoldable pub difference_from : IpNet → IpNet → IpNet → IpNet
  difference_from result [] s2 = result
  difference_from result ((k, i) ∷ s) s2 =
      difference_from (if contains s2 k then result else store k i result) s s2

  unfoldable pub difference : IpNet → IpNet → IpNet
  difference s s2 = difference_from [] s s2

  -- `order` is the order in which the map is ranged over
  unfoldable pub string_slice : (List String → List String) → IpNet → List String
  string_slice order s = order (keys s)

  unfoldable pub is_superset : IpNet → IpNet → Bool
  is_superset s [] = true
  is_superset s ((k, i) ∷ s2) = let rest = is_superset s s2 in if contains s k then rest else false

  unfoldable pub len : IpNet → ℕ
  len s = length s

  unfoldable pub equal : IpNet → IpNet → Bool
  unfolding len
  equal s s2 = nat_eq (len s) (len s2) && is_superset s s2

  unfoldable pub parse_ip_nets_onto : IpNet → List String → Result IpNet
  parse_ip_nets_onto ipnetset [] = ok ipnetset
  parse_ip_nets_onto ipnetset (spec ∷ specs) = elim (parse_cidr (trim_space spec)) [
    | err e ↦ err e
    | ok ipnet ↦ parse_ip_nets_onto (store (string ipnet) ipnet ipnetset) specs
  ]

  unfoldable pub parse_ip_nets : List String → Result IpNet
  unfolding parse_ip_nets_onto
  parse_ip_nets specs = parse_ip_nets_onto [] specs
