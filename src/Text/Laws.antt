-- ===== src/Text/Laws.antt =====
-- Splitting a text, and its first character.
use Prim.Native.Char.{code}
use text.Mathlib.TextLemmas.{nil-append, cons-append}
use gardener_extension_priva.Base.{
  ℕ, String, ◌≡◌, refl, Bool, true, false, not, ◌&&◌, [], ◌∷◌, ◌<>◌, arith, nat_eq,
}
use gardener_extension_priva.Text.{has_prefix, drop_first, split}

abbrev pub lacks : ℕ → String → Bool
lacks c String.[] = true
lacks c (String.◌∷◌ d s) = not (nat_eq (code d) c) && lacks c s

pub split_whole : (c : ℕ) (w : String) → lacks c w ≡ true → split w c ≡ w ∷ []
unfolding split
split_whole c String.[] h = refl
split_whole c (String.◌∷◌ d w) h = ground (arith, split_whole c w)

pub split-append :
    (w s : String) → lacks b',' w ≡ true → split (w <> ("," <> s)) b',' ≡ w ∷ split s b','
unfolding split
split-append String.[] s h = rw (nil-append, cons-append, nil-append)
split-append (String.◌∷◌ d w) s h = rw cons-append (ground (arith, split-append w s))

pub has_prefix-bang : (s : String) → has_prefix ("!" <> s) b'!' ≡ true
unfolding has_prefix
has_prefix-bang s = rw cons-append

pub has_prefix-amp :
    (s : String) → (has_prefix ("&" <> s) b'!' ≡ false) × (has_prefix ("&" <> s) b'&' ≡ true)
unfolding has_prefix
has_prefix-amp s = (rw cons-append, rw cons-append)

pub drop_first-bang : (s : String) → drop_first ("!" <> s) ≡ s
unfolding drop_first
drop_first-bang s = rw cons-append (nil-append s)

pub drop_first-amp : (s : String) → drop_first ("&" <> s) ≡ s
unfolding drop_first
drop_first-amp s = rw cons-append (nil-append s)
