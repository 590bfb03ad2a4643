-- ===== src/Prelude/Text.antt =====
-- Text as the list of its characters, each the number of its code point (`&str`, `String`), and
-- the methods of `str` and `char` that the program calls.
pub mod Trim
pub mod Parts
use tunnelbridge.Prelude.Tests.{Eq, nat_eq, list_beq, list_beq_iff, ltb, leb, ◌==◌, if◌then◌else◌}
use tunnelbridge.Prelude.Lists.{any}
use Prim.Native.Nat.{ℕ, ◌+◌}
use Prim.Native.Char.{code}
use Prim.Native.String.{String}
use mathlib.Core.Bool.{Bool, true, false, ◌&&◌, ◌||◌}
use mathlib.Core.Option.{Option, none, some}
use mathlib.Core.List.{List, [], ◌∷◌, map}

abbrev pub Text : Type 0
Text = List ℕ

instance abbrev pub text_eq : Eq Text
text_eq = record { beq = list_beq; beq_iff = list_beq_iff }

-- A text literal.
abbrev pub codes : String → Text
codes String.[] = []
codes (String.◌∷◌ c s) = code c ∷ codes s

-- `char::is_whitespace`: the characters with the property White_Space.
unfoldable pub is_whitespace : ℕ → Bool
is_whitespace c =
    (leb 0x09 c && leb c 0x0d)
    || (c == 0x20
        || (c == 0x85
            || (c == 0xa0
                || (c == 0x1680
                    || ((leb 0x2000 c && leb c 0x200a)
                        || (c == 0x2028
                            || (c == 0x2029 || (c == 0x202f || (c == 0x205f || c == 0x3000)))))))))

pub is_ascii_uppercase : ℕ → Bool
is_ascii_uppercase c = leb b'A' c && leb c b'Z'

unfoldable pub is_ascii_lowercase : ℕ → Bool
is_ascii_lowercase c = leb b'a' c && leb c b'z'

unfoldable pub is_ascii_digit : ℕ → Bool
is_ascii_digit c = leb b'0' c && leb c b'9'

pub lower_char : ℕ → ℕ
unfolding is_ascii_uppercase
lower_char c = if is_ascii_uppercase c then c + 32 else c

unfoldable pub to_ascii_lowercase : Text → Text
unfolding lower_char
to_ascii_lowercase = map lower_char

-- `str::len`: the bytes of the UTF-8 encoding.
pub utf8_width : ℕ → ℕ
utf8_width c = if ltb c 0x80 then 1 else if ltb c 0x800 then 2 else if ltb c 0x10000 then 3 else 4

unfoldable pub utf8_len : Text → ℕ
unfolding utf8_width
utf8_len [] = 0
utf8_len (c ∷ t) = utf8_width c + utf8_len t

unfoldable pub is_empty : Text → Bool
is_empty [] = true
is_empty (c ∷ t) = false

-- Without the longest prefix, or suffix, of characters that pass the test.
pub drop_start : (ℕ → Bool) → Text → Text
drop_start p [] = []
drop_start p (c ∷ t) = let rest = drop_start p t in if p c then rest else c ∷ t

pub drop_end : (ℕ → Bool) → Text → Text
unfolding is_empty
drop_end p [] = []
drop_end p (c ∷ t) = let rest = drop_end p t in if p c && is_empty rest then [] else c ∷ rest

unfoldable pub trim : Text → Text
unfolding drop_start drop_end is_whitespace
trim t = drop_end is_whitespace (drop_start is_whitespace t)

-- `str::trim_end_matches` for one character.
unfoldable pub trim_end_matches : ℕ → Text → Text
unfolding drop_end
trim_end_matches c = drop_end (λ x. x == c)

-- `str::strip_suffix`, which is `some` exactly where `ends_with` holds.
unfoldable pub strip_suffix : Text → Text → Option Text
strip_suffix suffix [] = if [] == suffix then some [] else none
strip_suffix suffix (c ∷ t) =
    let rest = strip_suffix suffix t in
    if (c ∷ t) == suffix then some [] else elim rest [ none ↦ none | some r ↦ some (c ∷ r) ]

unfoldable pub starts_with_char : ℕ → Text → Bool
starts_with_char c [] = false
starts_with_char c (x ∷ t) = x == c

unfoldable pub ends_with_char : ℕ → Text → Bool
ends_with_char c [] = false
ends_with_char c (x ∷ []) = x == c
ends_with_char c (x ∷ y ∷ t) = ends_with_char c (y ∷ t)

unfoldable pub contains_whitespace : Text → Bool
unfolding any is_whitespace
contains_whitespace = any is_whitespace

-- `str::split` at one character: the parts are one more than the separators.
pub split_cons : ℕ → List Text → List Text
split_cons c [] = (c ∷ []) ∷ []
split_cons c (part ∷ parts) = (c ∷ part) ∷ parts

unfoldable pub split : ℕ → Text → List Text
unfolding split_cons
split sep [] = [] ∷ []
split sep (c ∷ t) = let rest = split sep t in if c == sep then [] ∷ rest else split_cons c rest

-- `str::split_once` at one character.
unfoldable pub split_once : ℕ → Text → Option (Text × Text)
split_once sep [] = none
split_once sep (c ∷ t) =
    let rest = split_once sep t in
    if c == sep
    then some ([], t)
    else elim rest [ none ↦ none | some (before, after) ↦ some (c ∷ before, after) ]

-- `str::strip_prefix`.
unfoldable pub strip_prefix : Text → Text → Option Text
strip_prefix [] t = some t
strip_prefix (p ∷ ps) [] = none
strip_prefix (p ∷ ps) (c ∷ t) = let rest = strip_prefix ps t in if c == p then rest else none
