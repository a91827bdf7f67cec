-- ===== src/Tests/Filters.antt =====
-- A listing that filters by tags as documented, asked with a negated expression.
use mathlib.Core.Bool.{xor}
use gardener_extension_priva.Base.{
  String, ◌≡◌, refl, ◌∙◌, Bool, true, false, not, ◌&&◌, List, [], ◌∷◌, any_of, all_of,
  if◌then◌else◌, ◌==◌,
}
use gardener_extension_priva.Text.{has_prefix, split, join, trim_space}
use gardener_extension_priva.OpenStack.{SubnetListOpts}
use gardener_extension_priva.FloatingSubnet.{
  FloatingSubnetSpec, contains_tag, tweak_list_opts, network_opts,
}
use gardener_extension_priva.FloatingSubnet.Tags.{selects, split-join}
use gardener_extension_priva.FloatingSubnet.Filter.{IsFilter, FilterLaws, tweak_list_opts-selects}

abbrev part : (List String → Bool) → String → Bool
part test text = if text == "" then true else test (split text b',')

abbrev neutron : SubnetListOpts → List String → Bool
neutron o ts =
    part (all_of (contains_tag ts)) o.tags
    && (part (any_of (contains_tag ts)) o.tags_any
        && (part (λ l. not (all_of (contains_tag ts) l)) o.not_tags
            && part (λ l. not (any_of (contains_tag ts) l)) o.not_tags_any))

part-join :
    (test : List String → Bool) (w : String) (ws : List String)
    → IsFilter w ws
    → part test (join (w ∷ ws) ",") ≡ test (w ∷ ws)
part-join test w ws (tags, some_text) = rw (some_text, split-join w ws tags) refl

and_true : (b : Bool) → (b && true) ≡ b
and_true true = refl
and_true false = refl

neutron-FilterLaws : FilterLaws neutron
neutron-FilterLaws = record {
  tags_filter =
      λ n w ws ts f. let p = part-join (all_of (contains_tag ts)) w ws f in and_true _ ∙ p;
  tags_any_filter =
      λ n w ws ts f. let p = part-join (any_of (contains_tag ts)) w ws f in and_true _ ∙ p;
  not_tags_filter = λ n w ws ts f.
      let p = part-join (λ l. not (all_of (contains_tag ts) l)) w ws f in and_true _ ∙ p;
  not_tags_any_filter =
      λ n w ws ts f. let p = part-join (λ l. not (any_of (contains_tag ts) l)) w ws f in p;
}

abbrev spec : FloatingSubnetSpec
spec = record { subnet_id = ""; subnet = ""; subnet_tags = "!a,b" }

-- A subnet with one of the tags passes the filter of `!a,b`, as it passes `!&a,b`.
tweak_list_opts-selects_example :
    neutron (tweak_list_opts spec (network_opts "net-1")) ("b" ∷ [])
    ≡ selects (record { list = "a" ∷ "b" ∷ []; negated = true; all = true }) ("b" ∷ [])
unfolding has_prefix join trim_space xor
tweak_list_opts-selects_example =
    tweak_list_opts-selects neutron neutron-FilterLaws "net-1" "a" ("b" ∷ []) true false spec
      ("b" ∷ []) (((refl, refl), ((refl, refl), tt)), refl) refl refl refl refl
