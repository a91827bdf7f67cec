-- ===== src/FloatingSubnet/Tags.antt =====
-- The tag expressions: `a,b` any of the tags, `&a,b` all of them, and `!` in front for the contrary.
use mathlib.Core.Bool.{xor}
use text.Mathlib.TextLemmas.{nil-append}
use gardener_extension_priva.Base.{
  String, ◌≡◌, refl, ap, ◌∙◌, Bool, true, false, List, [], ◌∷◌, ◌<>◌, map, any_of, all_of, All,
  arith, if◌then◌else◌,
}
use gardener_extension_priva.Text.Laws.{
  lacks, split_whole, split-append, has_prefix-bang, has_prefix-amp, drop_first-bang,
  drop_first-amp,
}
use gardener_extension_priva.Text.{has_prefix, split, join, trim_space}
use gardener_extension_priva.OpenStack.{Subnet}
use gardener_extension_priva.FloatingSubnet.{
  contains_tag, TagList, tag_list, match_tags, subnet_tag_matcher,
}

-- What a tag expression asks of a subnet's tags.
abbrev pub selects : TagList → List String → Bool
selects l tags =
    xor l.negated
      (if l.all then all_of (contains_tag tags) l.list else any_of (contains_tag tags) l.list)

match_tags-eq_selects :
    (list : List String) (negated all : Bool) (tags : List String)
    → match_tags list negated all tags
      ≡ selects (record { list = list; negated = negated; all = all }) tags
unfolding match_tags xor
match_tags-eq_selects [] negated all tags = ground arith
match_tags-eq_selects (tag ∷ list) negated all tags =
    ground (arith, match_tags-eq_selects list negated all tags)

-- The matcher of a tag expression accepts exactly the subnets that carry all of its tags, or any of
-- them, or with `!` exactly the others: its loop with early returns computes this.
pub subnet_tag_matcher-selects :
    (tags : String) (s : Subnet) → subnet_tag_matcher tags s ≡ selects (tag_list tags) s.tags
unfolding subnet_tag_matcher
subnet_tag_matcher-selects tags s =
    match_tags-eq_selects (tag_list tags).list (tag_list tags).negated (tag_list tags).all s.tags

-- A tag that can be written in a list: no comma, and no space round it.
abbrev pub IsTag : String → Type 0
IsTag t = (lacks b',' t ≡ true) × (trim_space t ≡ t)

pub split-join :
    (w : String) (ws : List String) → All IsTag (w ∷ ws) → split (join (w ∷ ws) ",") b',' ≡ w ∷ ws
unfolding join
split-join w [] h = split_whole b',' w h.0.0
split-join w (v ∷ ws) h =
    split-append w (join (v ∷ ws) ",") h.0.0 ∙ ap (λ t. w ∷ t) (split-join v ws h.1)

map-trim_space : (ws : List String) → All IsTag ws → map trim_space ws ≡ ws
map-trim_space [] h = refl
map-trim_space (w ∷ ws) h = cc (h.0.1, map-trim_space ws h.1)

-- The text of a tag list, as a user writes it.
abbrev pub tag_text : TagList → String
tag_text l = (if l.negated then "!" else "") <> ((if l.all then "&" else "") <> join l.list ",")

parts :
    (w : String) (ws : List String)
    → All IsTag (w ∷ ws)
    → map trim_space (split (join (w ∷ ws) ",") b',') ≡ w ∷ ws
parts w ws h = ap (map trim_space) (split-join w ws h) ∙ map-trim_space (w ∷ ws) h

-- A list of one or more tags, written with its prefixes, is read back as it was, if no tag holds a
-- comma or has space round it, and the list's own text does not begin like a prefix.
pub tag_list-tag_text :
    (w : String) (ws : List String) (negated all : Bool)
    → All IsTag (w ∷ ws)
    → has_prefix (join (w ∷ ws) ",") b'!' ≡ false
    → has_prefix (join (w ∷ ws) ",") b'&' ≡ false
    → let l : TagList = record { list = w ∷ ws; negated = negated; all = all } in
      tag_list (tag_text l) ≡ l
unfolding tag_list
tag_list-tag_text w ws false false h p q = rw (nil-append, nil-append, p, q, parts w ws h)
tag_list-tag_text w ws false true h p q =
    let s = join (w ∷ ws) "," in
    simp (nil-append, (has_prefix-amp s).0, (has_prefix-amp s).1, drop_first-amp, parts w ws h)
tag_list-tag_text w ws true false h p q =
    simp (nil-append, has_prefix-bang, drop_first-bang, q, parts w ws h)
tag_list-tag_text w ws true true h p q =
    let s = join (w ∷ ws) "," in
    simp (has_prefix-bang, drop_first-bang, (has_prefix-amp s).1, drop_first-amp, parts w ws h)
