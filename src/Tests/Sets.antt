-- ===== src/Tests/Sets.antt =====
-- The set operations and the source ranges at small sets.
use gardener_extension_priva.Base.{
  String, true, ◌↔◌, ◌≡◌, refl, not, ◌&&◌, ◌||◌, [], ◌∷◌, all_of, some,
}
use gardener_extension_priva.IpNet.{
  equal, IpNet, contains, insert, delete, has, has_all, parse_ip_nets, store, lookup,
}
use gardener_extension_priva.IpNet.Classes.{members, equal_members_iff}
use gardener_extension_priva.Fault.{ok}
use gardener_extension_priva.IpNet.Sets.{NodupKeys, named, contains-insert-delete, has_all_lem}
use gardener_extension_priva.IpNet.Parsing.{IsParsed, first_error, parse_ip_nets_lem}
use gardener_extension_priva.Text.{trim_space}
use gardener_extension_priva.Config.{ExtensionSpec, get_load_balancer_source_ranges}
use gardener_extension_priva.Config.Laws.{allows, source_ranges_lem}
use gardener_extension_priva.Tests.Cloud.{plain_net, small_config}

abbrev two : IpNet plain_net
two = ("10.0.0.0/8", "10.0.0.0/8") ∷ ("10.1.0.0/16", "10.1.0.0/16") ∷ []

abbrev swapped : IpNet plain_net
swapped = ("10.1.0.0/16", "10.1.0.0/16") ∷ ("10.0.0.0/8", "10.0.0.0/8") ∷ []

two-NodupKeys : NodupKeys two
unfolding lookup
two-NodupKeys = (refl, (refl, tt))

swapped-NodupKeys : NodupKeys swapped
unfolding lookup
swapped-NodupKeys = (refl, (refl, tt))

contains-insert-delete_example :
    NodupKeys (insert plain_net two ("10.1.0.0/16" ∷ "0.0.0.0/0" ∷ []))
    × NodupKeys (delete plain_net two ("10.1.0.0/16" ∷ "0.0.0.0/0" ∷ []))
    × ((k : String)
        → (contains (insert plain_net two ("10.1.0.0/16" ∷ "0.0.0.0/0" ∷ [])) k
            ≡ (contains two k || named plain_net ("10.1.0.0/16" ∷ "0.0.0.0/0" ∷ []) k))
          × (contains (delete plain_net two ("10.1.0.0/16" ∷ "0.0.0.0/0" ∷ [])) k
              ≡ (contains two k && not (named plain_net ("10.1.0.0/16" ∷ "0.0.0.0/0" ∷ []) k))))
contains-insert-delete_example =
    contains-insert-delete plain_net two ("10.1.0.0/16" ∷ "0.0.0.0/0" ∷ []) two-NodupKeys

has_all_example :
    has_all plain_net two ("10.0.0.0/8" ∷ "0.0.0.0/0" ∷ [])
    ≡ all_of (has plain_net two) ("10.0.0.0/8" ∷ "0.0.0.0/0" ∷ [])
has_all_example = has_all_lem plain_net two ("10.0.0.0/8" ∷ "0.0.0.0/0" ∷ [])

parse_ip_nets_example :
    IsParsed plain_net
      (" 10.0.0.0/8" ∷ "10.0.0.0/8 " ∷ [])
      (first_error plain_net (" 10.0.0.0/8" ∷ "10.0.0.0/8 " ∷ []))
      (parse_ip_nets plain_net (" 10.0.0.0/8" ∷ "10.0.0.0/8 " ∷ []))
parse_ip_nets_example = parse_ip_nets_lem plain_net (" 10.0.0.0/8" ∷ "10.0.0.0/8 " ∷ [])

abbrev listed_spec : ExtensionSpec
listed_spec = record { private_cluster = true; alow_cidrs = some (" 10.9.0.0/16" ∷ []) }

abbrev ranges : IpNet plain_net
ranges = ("10.9.0.0/16", "10.9.0.0/16") ∷ ("10.0.0.0/24", "10.0.0.0/24") ∷ []

ranges_read : get_load_balancer_source_ranges plain_net listed_spec small_config ≡ ok ranges
unfolding get_load_balancer_source_ranges parse_ip_nets trim_space store
ranges_read = refl

source_ranges_example :
    NodupKeys ranges
    × ((k : String) → contains ranges k ≡ allows plain_net listed_spec small_config k)
source_ranges_example = source_ranges_lem plain_net listed_spec small_config ranges ranges_read

equal_members_iff_example :
    (equal plain_net two swapped ≡ true)
    ↔ (members plain_net two two-NodupKeys ≡ members plain_net swapped swapped-NodupKeys)
equal_members_iff_example = equal_members_iff plain_net two swapped two-NodupKeys swapped-NodupKeys
