-- ===== src/Base/Text.antt =====
-- Python's `str.strip`, and comparison after `lower`, on the code points of a text.
use Prim.Native.Char.{code}
use Prim.Native.Nat.{ℕ, ◌+◌, ◌-◌}
use Prim.Native.String.{String}
use mathlib.Core.Path.{◌≡◌, refl}
use mathlib.Core.Bool.{Bool, true, false, ◌&&◌, ◌||◌}
use mathlib.Core.List.{List, [], ◌∷◌, map}
use engineering_intelligence.Base.Tests.{leb, ◌==◌, if◌then◌else◌}
use engineering_intelligence.Base.Lists.{is_empty}

abbrev pub codes : String → List ℕ
codes String.[] = []
codes (String.◌∷◌ c s) = code c ∷ codes s

-- `str.isspace`, for one code point.
abbrev pub is_space : ℕ → Bool
is_space c =
    leb 9 c && leb c 13
    || leb 28 c && leb c 32
    || c == 133
    || c == 160
    || c == 0x1680
    || leb 0x2000 c && leb c 0x200a
    || c == 0x2028
    || c == 0x2029
    || c == 0x202f
    || c == 0x205f
    || c == 0x3000

strip_left : List ℕ → List ℕ
strip_left [] = []
strip_left (c ∷ s) = if is_space c then strip_left s else c ∷ s

strip_right : List ℕ → List ℕ
strip_right [] = []
strip_right (c ∷ s) = let t = strip_right s in if is_space c && is_empty t then [] else c ∷ t

unfoldable pub strip : String → List ℕ
unfolding strip_left strip_right
strip s = strip_right (strip_left (codes s))

-- `not s.strip()`
unfoldable pub is_blank : String → Bool
unfolding strip
is_blank s = is_empty (strip s)

-- `str.lower` on the letters A to Z and the Kelvin sign; no other letter lowers to one of a word that the
-- program looks for.
unfoldable pub lower : ℕ → ℕ
lower c = if leb b'A' c && leb c b'Z' then c + 32 else if c == 0x212a then b'k' else c

starts_with : List ℕ → List ℕ → Bool
starts_with [] s = true
starts_with (p ∷ prefix) [] = false
starts_with (p ∷ prefix) (c ∷ s) = p == c && starts_with prefix s

occurs_in : List ℕ → List ℕ → Bool
unfolding starts_with
occurs_in word [] = is_empty word
occurs_in word (c ∷ s) = starts_with word (c ∷ s) || occurs_in word s

-- `word in s.lower()`
unfoldable pub mentions : String → String → Bool
unfolding occurs_in lower
mentions word s = occurs_in (codes word) (map lower (codes s))

eq_codes : List ℕ → List ℕ → Bool
eq_codes [] [] = true
eq_codes (a ∷ s) (b ∷ t) = a == b && eq_codes s t
eq_codes _ _ = false

-- `s.strip().lower() == word`, for a word in lower case.
unfoldable pub reads_as : String → String → Bool
unfolding strip lower eq_codes
reads_as word s = eq_codes (map lower (strip s)) (codes word)

reads_as_padded : reads_as "true" " TRUE" ≡ true
unfolding reads_as
reads_as_padded = refl

upper : ℕ → ℕ
upper c = if leb b'a' c && leb c b'z' then c - 32 else c

-- `s.strip().upper() == word`, for a word of capital letters and digits.
unfoldable pub reads_as_upper : String → String → Bool
unfolding strip upper eq_codes
reads_as_upper word s = eq_codes (map upper (strip s)) (codes word)
