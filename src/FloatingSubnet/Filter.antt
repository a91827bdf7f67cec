-- ===== src/FloatingSubnet/Filter.antt =====
-- The tag expressions as filters of a listing, against Neutron's documented filters.
use mathlib.Core.Bool.{xor}
use gardener_extension_priva.Base.{
  String, ◌≡◌, refl, sym, ap, ◌∙◌, Bool, true, false, not, List, ◌∷◌, any_of, all_of, All, ◌==◌,
  if◌then◌else◌,
}
use gardener_extension_priva.Text.{has_prefix, join}
use gardener_extension_priva.OpenStack.{SubnetListOpts}
use gardener_extension_priva.FloatingSubnet.{
  FloatingSubnetSpec, TagList, tag_list, contains_tag, tweak_list_opts, network_opts,
}
use gardener_extension_priva.FloatingSubnet.Tags.{selects, IsTag, tag_text, tag_list-tag_text}

-- One or more tags that can be written in a list, whose text is not empty.
abbrev pub IsFilter : String → List String → Type 0
IsFilter w ws = All IsTag (w ∷ ws) × ((join (w ∷ ws) "," == "") ≡ false)

-- Whether a listing with these options keeps a subnet with these tags: `tags` asks for all of the
-- tags, `tags-any` for one of them; `not-tags` excludes what has all of them, and `not-tags-any` what
-- has one of them.
pub record FilterLaws (accepts : SubnetListOpts → List String → Bool) : Type 0 where
  pub tags_filter :
      (n w : String) (ws : List String) (ts : List String)
      → IsFilter w ws
      → accepts (record (network_opts n) { tags = join (w ∷ ws) "," }) ts
        ≡ all_of (contains_tag ts) (w ∷ ws)
  pub tags_any_filter :
      (n w : String) (ws : List String) (ts : List String)
      → IsFilter w ws
      → accepts (record (network_opts n) { tags_any = join (w ∷ ws) "," }) ts
        ≡ any_of (contains_tag ts) (w ∷ ws)
  pub not_tags_filter :
      (n w : String) (ws : List String) (ts : List String)
      → IsFilter w ws
      → accepts (record (network_opts n) { not_tags = join (w ∷ ws) "," }) ts
        ≡ not (all_of (contains_tag ts) (w ∷ ws))
  pub not_tags_any_filter :
      (n w : String) (ws : List String) (ts : List String)
      → IsFilter w ws
      → accepts (record (network_opts n) { not_tags_any = join (w ∷ ws) "," }) ts
        ≡ not (any_of (contains_tag ts) (w ∷ ws))

abbrev tweaked : TagList → SubnetListOpts → SubnetListOpts
tweaked l opts =
    let tags = join l.list "," in
    if l.all
    then (if l.negated then record opts { not_tags_any = tags } else record opts { tags = tags })
    else if l.negated
    then record opts { not_tags = tags }
    else record opts { tags_any = tags }

xor-true : (b : Bool) → xor true b ≡ not b
unfolding xor
xor-true true = refl
xor-true false = refl

xor-false : (b : Bool) → xor false b ≡ b
unfolding xor
xor-false true = refl
xor-false false = refl

tweaked-selects :
    (accepts : SubnetListOpts → List String → Bool) (laws : FilterLaws accepts) (n w : String)
    (ws : List String) (negated all : Bool) (ts : List String)
    → IsFilter w ws
    → accepts (tweaked (record { list = w ∷ ws; negated = negated; all = all }) (network_opts n)) ts
      ≡ selects (record { list = w ∷ ws; negated = negated; all = xor negated all }) ts
unfolding xor
tweaked-selects accepts laws n w ws false false ts t =
    laws.tags_any_filter n w ws ts t ∙ sym (xor-false _)
tweaked-selects accepts laws n w ws false true ts t =
    laws.tags_filter n w ws ts t ∙ sym (xor-false _)
tweaked-selects accepts laws n w ws true false ts t =
    laws.not_tags_filter n w ws ts t ∙ sym (xor-true _)
tweaked-selects accepts laws n w ws true true ts t =
    laws.not_tags_any_filter n w ws ts t ∙ sym (xor-true _)

-- The filter that a tag expression sets in a listing selects, under the documented meaning of the
-- filters, the subnets that the expression itself selects, if it has no `!`; with `!` it selects those
-- of the expression with `&` added, or taken away where it is there: `!a,b` excludes what has all of
-- the tags and not what has any of them. The expression is not empty, and written from tags that can
-- be read back.
pub tweak_list_opts-selects :
    (accepts : SubnetListOpts → List String → Bool) (laws : FilterLaws accepts) (n w : String)
    (ws : List String) (negated all : Bool) (spec : FloatingSubnetSpec) (ts : List String)
    → IsFilter w ws
    → has_prefix (join (w ∷ ws) ",") b'!' ≡ false
    → has_prefix (join (w ∷ ws) ",") b'&' ≡ false
    → (spec.subnet_tags == "") ≡ false
    → spec.subnet_tags ≡ tag_text (record { list = w ∷ ws; negated = negated; all = all })
    → accepts (tweak_list_opts spec (network_opts n)) ts
      ≡ selects (record { list = w ∷ ws; negated = negated; all = xor negated all }) ts
unfolding tweak_list_opts
tweak_list_opts-selects accepts laws n w ws negated all spec ts t p q some_text e = rw some_text (
    ap (λ l. accepts (tweaked l (network_opts n)) ts)
      (ap tag_list e ∙ tag_list-tag_text w ws negated all t.0 p q)
    ∙ tweaked-selects accepts laws n w ws negated all ts t)
