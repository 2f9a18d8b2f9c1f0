-- ===== src/PackageKit/Utf8.antt =====
-- `utf8.Valid`, which packagekit/loader.go calls.
use nodima_sdk.Base.{ℕ, Bool, true, ◌&&◌, ◌||◌, List, [], ◌∷◌, leb, eqb}
use nodima_sdk.Regex.{within}

abbrev is_tail : ℕ → Bool
is_tail = within 0x80 0xBF

-- The second byte of a sequence of three or of four bytes: no overlong form, no surrogate, nothing
-- above U+10FFFF.
abbrev is_second_of_three : ℕ → ℕ → Bool
is_second_of_three a b =
    eqb a 0xE0 && within 0xA0 0xBF b
    || eqb a 0xED && within 0x80 0x9F b
    || (within 0xE1 0xEC a || within 0xEE 0xEF a) && is_tail b

abbrev is_second_of_four : ℕ → ℕ → Bool
is_second_of_four a b =
    eqb a 0xF0 && within 0x90 0xBF b
    || within 0xF1 0xF3 a && is_tail b
    || eqb a 0xF4 && within 0x80 0x8F b

-- `utf8.Valid`: each byte starts a sequence of one to four bytes.
unfoldable pub utf8_valid : List ℕ → Bool
utf8_valid [] = true
utf8_valid (a ∷ []) = leb a 0x7F
utf8_valid (a ∷ (b ∷ [])) = leb a 0x7F && leb b 0x7F || within 0xC2 0xDF a && is_tail b
utf8_valid (a ∷ (b ∷ (c ∷ []))) =
    let one = utf8_valid (b ∷ (c ∷ [])) in
    leb a 0x7F && one
    || within 0xC2 0xDF a && is_tail b && leb c 0x7F
    || is_second_of_three a b && is_tail c
utf8_valid (a ∷ (b ∷ (c ∷ (d ∷ rest)))) =
    let one = utf8_valid (b ∷ (c ∷ (d ∷ rest))) in
    let two = utf8_valid (c ∷ (d ∷ rest)) in
    let three = utf8_valid (d ∷ rest) in
    let four = utf8_valid rest in
    leb a 0x7F && one
    || within 0xC2 0xDF a && is_tail b && two
    || is_second_of_three a b && is_tail c && three
    || is_second_of_four a b && is_tail c && is_tail d && four
