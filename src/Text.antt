-- ===== src/Text.antt =====
-- Python's `str.strip` and the tests on blank texts, over code points.
use Prim.Native.Char.{code}
use restaurant_ops_copilot.Prelude.{
  ℕ, suc, String, Bool, true, false, ltb, ◌&&◌, ◌||◌, leb, ◌==◌, if◌then◌else◌,
}

-- `str.isspace` of one character
is_space : ℕ → Bool
is_space c =
    (leb 9 c && leb c 13)
    || (leb 28 c && leb c 32)
    || c == 133
    || c == 160
    || c == 5760
    || (leb 8192 c && leb c 8202)
    || c == 8232
    || c == 8233
    || c == 8239
    || c == 8287
    || c == 12288

-- `not s.strip()`
unfoldable pub is_blank : String → Bool
unfolding is_space
is_blank String.[] = true
is_blank (String.◌∷◌ c s) = is_space (code c) && is_blank s

strip_left : String → String
unfolding is_space
strip_left String.[] = String.[]
strip_left (String.◌∷◌ c s) =
    let rest = strip_left s in if is_space (code c) then rest else String.◌∷◌ c s

strip_right : String → String
unfolding is_space
strip_right String.[] = String.[]
strip_right (String.◌∷◌ c s) =
    if is_space (code c) && is_blank s then String.[] else String.◌∷◌ c (strip_right s)

unfoldable pub strip : String → String
unfolding strip_left strip_right is_blank
strip s = strip_right (strip_left s)

-- `len(s)`
unfoldable pub text_length : String → ℕ
text_length String.[] = 0
text_length (String.◌∷◌ c s) = suc (text_length s)

-- `s < t` of texts
unfoldable pub text_lt : String → String → Bool
text_lt String.[] String.[] = false
text_lt String.[] (String.◌∷◌ c s) = true
text_lt (String.◌∷◌ c s) String.[] = false
text_lt (String.◌∷◌ c s) (String.◌∷◌ d t) =
    let rest = text_lt s t in if code c == code d then rest else ltb (code c) (code d)
