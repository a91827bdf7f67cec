-- ===== src/IpNet/Classes.antt =====
-- Sets of networks up to their members: a Go map forgets in which order it was filled.
use mathlib.Core.Quot
use mathlib.Core.Quot.{Quot, Quot-set}
use gardener_extension_priva.Base.{String, ◌≡◌, ◌↔◌, ap, Bool, true, List, arith}
use gardener_extension_priva.IpNet.{Net, IpNet, contains, insert, delete, equal}
use gardener_extension_priva.IpNet.Sets.{
  NodupKeys, contains-insert, contains-delete, insert-NodupKeys, delete-NodupKeys,
}
use gardener_extension_priva.IpNet.Equality.{equal_iff}

module _ (net : Net) where
  open net use {IpNetwork, string}

  -- A map with every key once, as Go's are.
  abbrev pub GoMap : Type 0
  GoMap = (s : IpNet net) × NodupKeys s

  abbrev pub SameMembers : GoMap → GoMap → Type 0
  SameMembers a b = (k : String) → contains a.0 k ≡ contains b.0 k

  abbrev pub Members : Type 0
  Members = Quot SameMembers

  -- what a map holds
  abbrev pub members : (s : IpNet net) → NodupKeys s → Members
  members s n = Quot.mk (s, n)

  is_member : String → Members → Bool
  is_member k = Quot.lift (hlevel) (λ a. contains a.0 k) (λ a b h. h k)

  pub insert_all : List IpNetwork → Members → Members
  insert_all items =
      Quot.lift Quot-set (λ a. Quot.mk (insert net a.0 items, insert-NodupKeys net a.0 items a.1))
        (λ a b h. Quot.sound λ k.
          ground (arith, h k, contains-insert net a.0 items k, contains-insert net b.0 items k))

  pub delete_all : List IpNetwork → Members → Members
  delete_all items =
      Quot.lift Quot-set (λ a. Quot.mk (delete net a.0 items, delete-NodupKeys net a.0 items a.1))
        (λ a b h. Quot.sound λ k.
          ground (arith, h k, contains-delete net a.0 items k, contains-delete net b.0 items k))

  -- `Equal` decides, of two sets with every key once, whether they are one set up to the order in
  -- which they were filled.
  pub equal_members_iff :
      (s s2 : IpNet net) (n : NodupKeys s) (m : NodupKeys s2)
      → (equal net s s2 ≡ true) ↔ (members s n ≡ members s2 m)
  unfolding is_member
  equal_members_iff s s2 n m = (
    λ e. Quot.sound ((equal_iff net s s2 n m).0 e),
    λ p. (equal_iff net s s2 n m).1 λ k. ap (is_member k) p,
  )
