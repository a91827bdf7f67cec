-- ===== src/Text.antt =====
-- The functions of Go's `strings` that pkg/helper uses, on texts as lists of characters.
-- All separators and prefixes in the source are single ASCII characters, given by their code.
pub mod Laws
use Prim.Native.Char.{Char, code}
use gardener_extension_priva.Base.{
  ℕ, String, Bool, true, false, ◌&&◌, ◌||◌, List, [], ◌∷◌, ◌<>◌, leb, nat_eq, if◌then◌else◌,
}

-- strings.HasPrefix(s, c)
unfoldable pub has_prefix : String → ℕ → Bool
has_prefix String.[] c = false
has_prefix (String.◌∷◌ d s) c = nat_eq (code d) c

-- s[1:], which the source takes only behind a test of the first character
unfoldable pub drop_first : String → String
drop_first String.[] = ""
drop_first (String.◌∷◌ d s) = s

-- the first part of a split text is one character longer
abbrev pub extend_first : Char → List String → List String
extend_first c [] = String.◌∷◌ c "" ∷ []
extend_first c (w ∷ ws) = String.◌∷◌ c w ∷ ws

-- strings.Split(s, c)
unfoldable pub split : String → ℕ → List String
split String.[] c = "" ∷ []
split (String.◌∷◌ d s) c =
    let parts = split s c in if nat_eq (code d) c then "" ∷ parts else extend_first d parts

-- strings.Join(parts, sep)
unfoldable pub join : List String → String → String
join [] sep = ""
join (w ∷ []) sep = w
join (w ∷ v ∷ ws) sep = w <> (sep <> join (v ∷ ws) sep)

-- unicode.IsSpace
unfoldable pub is_space : ℕ → Bool
is_space c =
    leb 9 c && leb c 13
    || nat_eq c 32
    || nat_eq c 0x85
    || nat_eq c 0xa0
    || nat_eq c 0x1680
    || leb 0x2000 c && leb c 0x200a
    || nat_eq c 0x2028
    || nat_eq c 0x2029
    || nat_eq c 0x202f
    || nat_eq c 0x205f
    || nat_eq c 0x3000

unfoldable pub trim_left : String → String
trim_left String.[] = ""
trim_left (String.◌∷◌ c s) =
    let rest = trim_left s in if is_space (code c) then rest else String.◌∷◌ c s

abbrev pub is_empty : String → Bool
is_empty String.[] = true
is_empty (String.◌∷◌ c s) = false

unfoldable pub trim_right : String → String
trim_right String.[] = ""
trim_right (String.◌∷◌ c s) =
    let rest = trim_right s in if is_space (code c) && is_empty rest then "" else String.◌∷◌ c rest

-- strings.TrimSpace(s)
unfoldable pub trim_space : String → String
unfolding trim_left trim_right is_space
trim_space s = trim_right (trim_left s)
