-- ===== src/FloatingSubnet/Matcher.antt =====
-- What the compiled matchers accept.
use gardener_extension_priva.Base.{
  String, ◌≡◌, ap, Bool, true, false, not, ◌&&◌, ◌||◌, Option, none, some, ◌<>◌, ◌==◌,
  if◌then◌else◌,
}
use gardener_extension_priva.Fault.{Result, ok, err}
use gardener_extension_priva.OpenStack.{Subnet}
use gardener_extension_priva.Text.Laws.{has_prefix-bang, drop_first-bang}
use gardener_extension_priva.Text.{has_prefix}
use gardener_extension_priva.FloatingSubnet.{
  negated_result, positive_matcher, FloatingSubnetSpec, Patterns, Matcher, subnet_name_matcher,
  subnet_tag_matcher,
}

-- the test of the name alone: without a pattern it accepts every name
abbrev pub name_test : Patterns → String → Result Matcher
name_test patterns subnet =
    if subnet == "" then ok (λ s. true) else subnet_name_matcher patterns subnet

-- The error of the name pattern, or a matcher of the name and, if asked for, of the tags.
abbrev pub Compiles : Bool → FloatingSubnetSpec → Result Matcher → Result (Option Matcher) → Type 0
Compiles tag spec (err e) r = r ≡ err e
Compiles tag spec (ok name) r =
    (m : Matcher) × (r ≡ ok (some m))
    × ((s : Subnet)
        → m s ≡ (
            name s
            && (not tag || (spec.subnet_tags == "" || subnet_tag_matcher spec.subnet_tags s))))

abbrev tested : Bool → Matcher → Option Matcher
tested true name = none
tested false name = some name

-- A pattern with `!` in front accepts the names that the rest of the pattern rejects, and fails to
-- compile as that does, if the rest does not begin with `!` again.
pub subnet_name_matcher_negated :
    (patterns : Patterns) (pat : String)
    → has_prefix pat b'!' ≡ false
    → subnet_name_matcher patterns ("!" <> pat) ≡ negated_result (subnet_name_matcher patterns pat)
unfolding subnet_name_matcher
subnet_name_matcher_negated patterns pat h =
    rw (has_prefix-bang, h)
      (ap (λ t. negated_result (positive_matcher patterns t)) (drop_first-bang pat))
