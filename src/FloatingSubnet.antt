-- ===== src/FloatingSubnet.antt =====
-- pkg/helper/openstack.go: which subnets of a floating network may be used, by a name pattern and by
-- tags. The proofs are in the modules below.
pub mod Tags
pub mod Matcher
pub mod Listing
pub mod Filter
pub mod Calls
pub mod Costs
use mathlib.Core.Bool.{xor}
use gardener_extension_priva.Base.{
  ℕ, String, Bool, true, false, not, ◌&&◌, ◌||◌, Option, none, some, List, [], ◌∷◌, ◌<>◌, map, keep,
  is_some, ◌==◌, if◌then◌else◌,
}
use gardener_extension_priva.Fault.{Error, errorf, errorf_cause, Result, ok, err}
use gardener_extension_priva.Text.{has_prefix, drop_first, split, join, trim_space}
use gardener_extension_priva.OpenStack.{ServiceClient, Subnet, SubnetListOpts}
use gardener_extension_priva.World.{
  Call, Env, M, pure, fail, panic, ask, or_fail, non_nil, ◌>>=◌, ◌>>◌,
}

pub record FloatingSubnetSpec : Type 0 where
  pub subnet_id : String
  pub subnet : String
  pub subnet_tags : String

-- `regexp` and godo's `glob`: a compiled expression is its `FindString`.
pub record Patterns : Type 0 where
  pub compile : String → Result (String → String)
  pub globexp : String → String → String

abbrev pub Matcher : Type 0
Matcher = Subnet → Bool

unfoldable pub and_matcher : Option Matcher → Option Matcher → Option Matcher
and_matcher none b = b
and_matcher (some a) none = some a
and_matcher (some a) (some b) = some (λ s. a s && b s)

unfoldable pub regexp_name_matcher : (String → String) → Matcher
regexp_name_matcher find_string s = find_string s.name == s.name

unfoldable pub negate : Matcher → Matcher
negate f s = not (f s)

abbrev pub contains_tag : List String → String → Bool
contains_tag [] tag = false
contains_tag (t ∷ ts) tag = if t == tag then true else contains_tag ts tag

pub record TagList : Type 0 where
  pub list : List String
  pub negated : Bool
  pub all : Bool

-- the last part of `tagList`, behind the two prefixes
abbrev trimmed_parts : String → List String
trimmed_parts tags = map trim_space (split tags b',')

unfoldable pub tag_list : String → TagList
tag_list tags =
    let negated = has_prefix tags b'!' in
    let tags' = (if negated then drop_first tags else tags) in
    let all = has_prefix tags' b'&' in
    let tags'' = (if all then drop_first tags' else tags') in
    record { list = trimmed_parts tags''; negated = negated; all = all }

-- the loop over `list` of `subnetTagMatcher`
unfoldable pub match_tags : List String → Bool → Bool → List String → Bool
match_tags [] negated all tags = xor negated all
match_tags (tag ∷ list) negated all tags =
    let rest = match_tags list negated all tags in
    if contains_tag tags tag
    then (if all then rest else not negated)
    else if all
    then negated
    else rest

unfoldable pub subnet_tag_matcher : String → Matcher
unfolding match_tags
subnet_tag_matcher tags s = let l = tag_list tags in match_tags l.list l.negated l.all s.tags

abbrev pub negated_result : Result Matcher → Result Matcher
negated_result (ok match) = ok (negate match)
negated_result (err e) = err e

module _ (patterns : Patterns) where
  abbrev positive_matcher : String → Result Matcher
  positive_matcher pat =
      if has_prefix pat b'~'
      then elim (patterns.compile (drop_first pat)) [
        | ok rexp ↦ ok (regexp_name_matcher rexp)
        | err e ↦ err (errorf_cause "invalid subnet regexp pattern %q: %s" (drop_first pat ∷ []) e)
      ]
      else ok (regexp_name_matcher (patterns.globexp pat))

  unfoldable pub subnet_name_matcher : String → Result Matcher
  subnet_name_matcher pat =
      if has_prefix pat b'!'
      then negated_result (positive_matcher (drop_first pat))
      else positive_matcher pat

unfoldable pub matcher_configured : Option FloatingSubnetSpec → Bool
matcher_configured none = false
matcher_configured (some s) =
    s.subnet_id == "" && (not (s.subnet == "") || not (s.subnet_tags == ""))

unfoldable pub configured : Option FloatingSubnetSpec → Bool
configured none = false
configured (some s) = not (s.subnet_id == "") || matcher_configured (some s)

-- `quote` is the verb %q.
unfoldable pub add_field : (String → String) → String → String → String → String
add_field quote s name value =
    if value == "" then s else (if s == "" then s <> ", " else s) <> (name <> (": " <> quote value))

unfoldable pub spec_string : (String → String) → Option FloatingSubnetSpec → String
spec_string quote none = "<none>"
spec_string quote (some s) =
    if s.subnet_id == "" && s.subnet == "" && s.subnet_tags == ""
    then "<none>"
    else add_field quote
        (add_field quote (add_field quote "" "subnetID" s.subnet_id) "pattern" s.subnet) "tags"
        s.subnet_tags

abbrev or_any : Option Matcher → Matcher
or_any none s = true
or_any (some m) s = m s

abbrev tag_part : Bool → String → Option Matcher → Option Matcher
tag_part tag tags match =
    if tag && not (tags == "") then and_matcher match (some (subnet_tag_matcher tags)) else match

module _ (patterns : Patterns) where
  abbrev name_part : String → Result (Option Matcher)
  name_part subnet =
      if subnet == ""
      then ok none
      else elim (subnet_name_matcher patterns subnet) [ ok m ↦ ok (some m) | err e ↦ err e ]

  abbrev with_tags : Bool → FloatingSubnetSpec → Result (Option Matcher) → Result (Option Matcher)
  with_tags tag s (ok match) = ok (some (or_any (tag_part tag s.subnet_tags match)))
  with_tags tag s (err e) = err e

  -- `Matcher`; a `nil` matcher is `none`
  unfoldable pub matcher : Bool → Option FloatingSubnetSpec → Result (Option Matcher)
  matcher tag none = ok none
  matcher tag (some s) =
      if matcher_configured (some s) then with_tags tag s (name_part s.subnet) else ok none

unfoldable pub tweak_list_opts : FloatingSubnetSpec → SubnetListOpts → SubnetListOpts
tweak_list_opts s opts =
    if s.subnet_tags == ""
    then opts
    else (let l = tag_list s.subnet_tags in
        let tags = join l.list "," in
        if l.all
        then (if l.negated
            then record opts { not_tags_any = tags }
            else record opts { tags = tags })
        else if l.negated
        then record opts { not_tags = tags }
        else record opts { tags_any = tags })

abbrev pub TweakSubnetListOpts : Type 0
TweakSubnetListOpts = SubnetListOpts → M SubnetListOpts

-- the method value `s.tweakListOpts`, which reads through `s`
unfoldable pub tweak_of : Option FloatingSubnetSpec → TweakSubnetListOpts
tweak_of s opts = do spec ← non_nil s; pure (tweak_list_opts spec opts)

unfoldable pub apply_tweaks : List (Option TweakSubnetListOpts) → TweakSubnetListOpts
apply_tweaks [] opts = pure opts
apply_tweaks (none ∷ tweak) opts = apply_tweaks tweak opts
apply_tweaks (some f ∷ tweak) opts = do opts' ← f opts; apply_tweaks tweak opts'

abbrev pub network_opts : String → SubnetListOpts
network_opts network_id = record {
  network_id = network_id;
  tags = "";
  tags_any = "";
  not_tags = "";
  not_tags_any = "";
}

abbrev pub non_empty : String → List Subnet → M (List Subnet)
non_empty network_id [] = fail (errorf "could not find subnets for network %s" (network_id ∷ []))
non_empty network_id (s ∷ subs) = pure (s ∷ subs)

abbrev pub filtered : Option Matcher → List Subnet → List Subnet
filtered none list = list
filtered (some match) list = keep match list

module _ (env : Env) (net_client : ServiceClient) where
  unfoldable pub list_subnets_for_network :
      String → List (Option TweakSubnetListOpts) → M (List Subnet)
  list_subnets_for_network network_id tweak = do
    opts ← apply_tweaks tweak (network_opts network_id)
    listed ← ask env (Call.list_subnets net_client opts)
    all_pages ←
        or_fail (errorf_cause "error listing subnets of network %s: %v" (network_id ∷ [])) listed
    subs ← or_fail (errorf_cause "error extracting subnets from pages: %v" []) all_pages
    non_empty network_id subs

  -- `ListSubnetsForNetwork`
  unfoldable pub spec_subnets_for_network :
      Patterns → Option FloatingSubnetSpec → String → M (List Subnet)
  spec_subnets_for_network patterns s network_id = do
    match ← or_fail (λ e. e) (matcher patterns false s)
    list ← list_subnets_for_network network_id (some (tweak_of s) ∷ [])
    pure (filtered match list)
