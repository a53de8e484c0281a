-- ===== src/Text.antt =====
-- The functions of Go's package strings that internal/authz calls, on texts as lists of code
-- points. Letters outside ASCII are taken to have no case; white space is Unicode's.
pub mod Laws
pub mod Spaces
pub mod Trim
pub mod Runes
pub mod Separators
use Prim.Native.Char.{code}
use Prim.Native.String
use xemu_cartographer.Base.{
  ℕ, ◌+◌, ◌≤◌, String, Bool, true, false, ◌&&◌, ◌||◌, Option, none, some, List, [], ◌∷◌, ◌++◌, map,
  leb, ◌==◌, if◌then◌else◌, is_empty, any,
}

abbrev pub Text : Type 0
Text = List ℕ

abbrev pub codes : String → Text
codes String.[] = []
codes (String.◌∷◌ c s) = code c ∷ codes s

-- s == t
unfoldable pub text_eq : Text → Text → Bool
text_eq [] [] = true
text_eq (x ∷ s) (y ∷ t) = x == y && text_eq s t
text_eq _ _ = false

unfoldable pub lower_rune : ℕ → ℕ
lower_rune c = if leb b'A' c && leb c b'Z' then c + 32 else c

-- strings.ToLower
unfoldable pub to_lower : Text → Text
to_lower s = map lower_rune s

-- unicode.IsSpace
unfoldable pub is_space : ℕ → Bool
is_space c =
    (leb 9 c && leb c 13)
    || c == 32
    || c == 0x85
    || c == 0xA0
    || c == 0x1680
    || (leb 0x2000 c && leb c 0x200a)
    || c == 0x2028
    || c == 0x2029
    || c == 0x202f
    || c == 0x205f
    || c == 0x3000

-- strings.TrimSpace, from both ends
unfoldable pub trim_left : Text → Text
trim_left [] = []
trim_left (c ∷ s) = if is_space c then trim_left s else c ∷ s

unfoldable pub trim_right : Text → Text
trim_right [] = []
trim_right (c ∷ s) = let t = trim_right s in if is_space c && is_empty t then [] else c ∷ t

unfoldable pub trim_space : Text → Text
trim_space s = trim_right (trim_left s)

-- strings.Cut at a separator of one rune: `none` behind it is `found == false`.
abbrev cut_cons : ℕ → Text × Option Text → Text × Option Text
cut_cons c (before, after) = (c ∷ before, after)

unfoldable pub cut : ℕ → Text → Text × Option Text
cut sep [] = ([], none)
cut sep (c ∷ s) = if c == sep then ([], some s) else cut_cons c (cut sep s)

-- strings.Split at a separator of one rune
abbrev push_rune : ℕ → List Text → List Text
push_rune c [] = (c ∷ []) ∷ []
push_rune c (seg ∷ segs) = (c ∷ seg) ∷ segs

unfoldable pub split : ℕ → Text → List Text
split sep [] = [] ∷ []
split sep (c ∷ s) = if c == sep then [] ∷ split sep s else push_rune c (split sep s)

-- strings.Join
unfoldable pub join : ℕ → List Text → Text
join sep [] = []
join sep (s ∷ []) = s
join sep (s ∷ t ∷ ts) = s ++ sep ∷ join sep (t ∷ ts)

-- strings.Fields: the first word, which is empty in front of white space, and the others
abbrev pub push_word : Text → List Text → List Text
push_word [] ws = ws
push_word (c ∷ w) ws = (c ∷ w) ∷ ws

abbrev pub words_cons : ℕ → Text × List Text → Text × List Text
words_cons c (w, ws) = if is_space c then ([], push_word w ws) else (c ∷ w, ws)

unfoldable pub words : Text → Text × List Text
words [] = ([], [])
words (c ∷ s) = words_cons c (words s)

unfoldable pub fields : Text → List Text
fields s = let (w, ws) = words s in push_word w ws

-- strings.HasPrefix, prefix first
unfoldable pub has_prefix : Text → Text → Bool
has_prefix [] s = true
has_prefix (p ∷ ps) [] = false
has_prefix (p ∷ ps) (c ∷ s) = p == c && has_prefix ps s

-- strings.HasSuffix, suffix first
unfoldable pub has_suffix : Text → Text → Bool
has_suffix t [] = text_eq t []
has_suffix t (c ∷ s) = text_eq t (c ∷ s) || has_suffix t s

-- strings.TrimSuffix, suffix first
unfoldable pub trim_suffix : Text → Text → Text
trim_suffix t [] = []
trim_suffix t (c ∷ s) = if text_eq t (c ∷ s) then [] else c ∷ trim_suffix t s

-- strings.Count of one rune
unfoldable pub count_rune : ℕ → Text → ℕ
count_rune r [] = 0
count_rune r (c ∷ s) = if c == r then 1 + count_rune r s else count_rune r s

-- Membership, as the lookup in a Go map from texts to `true`.
unfoldable pub elem : Text → List Text → Bool
elem t ts = any (text_eq t) ts

-- A map[string]string that is only read by key: a missing key reads as "".
abbrev pub Attrs : Type 0
Attrs = List (Text × Text)

unfoldable pub attr : Text → Attrs → Text
attr k [] = []
attr k ((j, v) ∷ m) = if text_eq j k then v else attr k m
