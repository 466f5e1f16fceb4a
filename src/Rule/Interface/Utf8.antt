-- ===== src/Rule/Interface/Utf8.antt =====
-- The test that `CStr::to_str` makes: whether bytes are UTF-8.
use pfctl_rs.Common.{ℕ, Bool, true, false, ◌&&◌, List, [], ◌∷◌, leb, if◌then◌else◌}

-- What may follow: a first byte, or so many continuation bytes, the next one within a range.
pub data Expect : Type 0 where
  first : Expect
  more : ℕ → ℕ → Expect → Expect
  never : Expect

abbrev tail : Expect → Expect
tail e = more 0x80 0xbf e

abbrev between : ℕ → ℕ → ℕ → Bool
between lo hi x = leb lo x && leb x hi

-- After a first byte; overlong forms, surrogates and values past U+10FFFF are excluded by the
-- range of the second.
after_first : ℕ → Expect
after_first x =
    if leb x 0x7f
    then first
    else if between 0xc2 0xdf x
    then tail first
    else if between 0xe0 0xe0 x
    then more 0xa0 0xbf (tail first)
    else if between 0xed 0xed x
    then more 0x80 0x9f (tail first)
    else if between 0xe1 0xef x
    then tail (tail first)
    else if between 0xf0 0xf0 x
    then more 0x90 0xbf (tail (tail first))
    else if between 0xf1 0xf3 x
    then tail (tail (tail first))
    else if between 0xf4 0xf4 x
    then more 0x80 0x8f (tail (tail first))
    else never

expect : Expect → ℕ → Expect
expect first x = after_first x
expect (more lo hi e) x = if between lo hi x then e else never
expect never x = never

is_utf8_from : Expect → List ℕ → Bool
is_utf8_from first [] = true
is_utf8_from (more lo hi e) [] = false
is_utf8_from never [] = false
is_utf8_from e (x ∷ xs) = is_utf8_from (expect e x) xs

unfoldable pub is_utf8 : List ℕ → Bool
unfolding is_utf8_from expect after_first
is_utf8 = is_utf8_from first
