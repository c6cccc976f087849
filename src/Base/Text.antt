-- ===== src/Base/Text.antt =====
-- `str` and `String` as lists of code points, with the operations of `std::str` that the crates
-- call: `==`, `is_empty`, `starts_with`, `ends_with`, `contains`, `split` on one character, `join`.
use Prim.Native.Nat.{ℕ, ◌+◌, ◌/◌, ◌%◌}
use Prim.Native.Char.{code}
use Prim.Native.String.{String}
use mathlib.Core.Path.{◌≡◌, refl}
use mathlib.Core.Logic.{◌↔◌, ◌≢◌}
use mathlib.Core.Bool.{Bool, true, false, ◌&&◌, ◌||◌}
use mathlib.Core.List.{List, [], ◌∷◌, ◌++◌}
use mathlib.Core.Option
use mathlib.Core.Option.{Option, none, some}
use native.Mathlib.Omega.{arith}
use the_mql.Base.Tests.{◌==◌, ltb, if◌then◌else◌}
use the_mql.Base.Lists.{All}

abbrev pub Text : Type 0
Text = List ℕ

abbrev pub codes : String → Text
codes String.[] = []
codes (String.◌∷◌ c s) = code c ∷ codes s

unfoldable pub text_eq : Text → Text → Bool
text_eq [] [] = true
text_eq [] (d ∷ t) = false
text_eq (c ∷ s) [] = false
text_eq (c ∷ s) (d ∷ t) = (c == d) && text_eq s t

pub text_eq_iff : (s t : Text) → (text_eq s t ≡ true) ↔ (s ≡ t)
unfolding text_eq
text_eq_iff [] [] = ground arith
text_eq_iff [] (d ∷ t) = ground arith
text_eq_iff (c ∷ s) [] = ground arith
text_eq_iff (c ∷ s) (d ∷ t) = ground (arith, text_eq_iff s t)

pub text_eq_refl : (s : Text) → text_eq s s ≡ true
text_eq_refl s = (text_eq_iff s s).1 refl

-- `starts_with` with a text for its pattern.
unfoldable pub starts_with : Text → Text → Bool
starts_with s [] = true
starts_with [] (d ∷ t) = false
starts_with (c ∷ s) (d ∷ t) = (c == d) && starts_with s t

unfoldable pub contains : Text → Text → Bool
unfolding starts_with
contains [] t = starts_with [] t
contains (c ∷ s) t = starts_with (c ∷ s) t || contains s t

-- `strip_prefix`
abbrev pub strip_prefix : Text → Text → Option Text
strip_prefix s [] = some s
strip_prefix [] (d ∷ t) = none
strip_prefix (c ∷ s) (d ∷ t) = let rest = strip_prefix s t in if c == d then rest else none

-- `starts_with` and `ends_with` with a character for their pattern.
unfoldable pub starts_with_char : Text → ℕ → Bool
starts_with_char [] d = false
starts_with_char (c ∷ s) d = c == d

unfoldable pub ends_with_char : Text → ℕ → Bool
ends_with_char [] d = false
ends_with_char (c ∷ []) d = c == d
ends_with_char (c ∷ c' ∷ s) d = ends_with_char (c' ∷ s) d

abbrev pub push_head : ℕ → List Text → List Text
push_head c [] = (c ∷ []) ∷ []
push_head c (p ∷ ps) = (c ∷ p) ∷ ps

-- `split(sep)`: always one part more than there are separators.
unfoldable pub split : Text → ℕ → List Text
split [] sep = [] ∷ []
split (c ∷ s) sep = let rest = split s sep in if c == sep then [] ∷ rest else push_head c rest

unfoldable pub join : List Text → ℕ → Text
join [] sep = []
join (p ∷ []) sep = p
join (p ∷ q ∷ ps) sep = p ++ sep ∷ join (q ∷ ps) sep

-- No character of the text is the separator.
abbrev pub Without : ℕ → Text → Type 0
Without sep s = All (λ c. c ≢ sep) s

-- `char::encode_utf8`
unfoldable pub utf8_char : ℕ → List ℕ
utf8_char c =
    if ltb c 0x80
    then c ∷ []
    else if ltb c 0x800
    then (0xc0 + c / 64) ∷ (0x80 + c % 64) ∷ []
    else if ltb c 0x10000
    then (0xe0 + c / 4096) ∷ (0x80 + c / 64 % 64) ∷ (0x80 + c % 64) ∷ []
    else (0xf0 + c / 262144) ∷ (0x80 + c / 4096 % 64) ∷ (0x80 + c / 64 % 64) ∷ (0x80 + c % 64) ∷ []

-- `as_bytes`
unfoldable pub as_bytes : Text → List ℕ
unfolding utf8_char
as_bytes [] = []
as_bytes (c ∷ s) = utf8_char c ++ as_bytes s

-- `strip_suffix`
unfoldable pub strip_suffix : Text → Text → Option Text
unfolding text_eq
strip_suffix [] suffix = if text_eq [] suffix then some [] else none
strip_suffix (c ∷ s) suffix =
    let rest = Option.map (◌∷◌ c) (strip_suffix s suffix) in
    if text_eq (c ∷ s) suffix then some [] else rest
