-- ===== src/Tests/Subnets.antt =====
-- The subnet matchers at small specifications.
use gardener_extension_priva.Base.{◌≡◌, refl, true, [], ◌∷◌}
use gardener_extension_priva.OpenStack.{Subnet}
use gardener_extension_priva.Text.{has_prefix, join, trim_space}
use gardener_extension_priva.FloatingSubnet.{
  FloatingSubnetSpec, Matcher, TagList, tag_list, subnet_tag_matcher, regexp_name_matcher,
}
use gardener_extension_priva.FloatingSubnet.Tags.{
  selects, tag_text, subnet_tag_matcher-selects, tag_list-tag_text,
}
use gardener_extension_priva.Tests.Cloud.{plain_patterns}

abbrev tagged : Subnet
tagged = record {
  id = "s";
  network_id = "n";
  name = "pub-1";
  cidr = "10.0.0.0/24";
  tags = "b" ∷ [];
}

subnet_tag_matcher-selects_example :
    subnet_tag_matcher "!&a,b" tagged ≡ selects (tag_list "!&a,b") ("b" ∷ [])
subnet_tag_matcher-selects_example = subnet_tag_matcher-selects "!&a,b" tagged

abbrev two_tags : TagList
two_tags = record { list = "a" ∷ "b" ∷ []; negated = true; all = true }

tag_list-tag_text_example : tag_list (tag_text two_tags) ≡ two_tags
unfolding has_prefix join trim_space
tag_list-tag_text_example =
    tag_list-tag_text "a" ("b" ∷ []) true true ((refl, refl), ((refl, refl), tt)) refl refl

abbrev spec : FloatingSubnetSpec
spec = record { subnet_id = ""; subnet = "pub-1"; subnet_tags = "a,b" }

abbrev by_name : Matcher
by_name = regexp_name_matcher (plain_patterns.globexp "pub-1")
