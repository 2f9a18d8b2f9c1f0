-- ===== src/Regex.antt =====
-- Go's package regexp, as runner/v1 uses it: whether a whole text, a list of code points, matches
-- an expression that is anchored at both ends. The matcher takes one code point after the other
-- and keeps the expression for what may follow.
pub mod Language
use nodima_sdk.Base.{
  ℕ, zero, suc, Bool, true, false, ◌&&◌, ◌||◌, List, [], ◌∷◌, if◌then◌else◌, leb, eqb,
}

pub data Regex : Type 0 where
  nothing nil : Regex
  class : (ℕ → Bool) → Regex
  seq alt : Regex → Regex → Regex
  star : Regex → Regex

-- The empty text matches.
unfoldable pub nullable : Regex → Bool
nullable nothing = false
nullable nil = true
nullable (class p) = false
nullable (seq r q) = nullable r && nullable q
nullable (alt r q) = nullable r || nullable q
nullable (star r) = true

-- What may follow the code point.
unfoldable pub after : ℕ → Regex → Regex
after c nothing = nothing
after c nil = nothing
after c (class p) = if p c then nil else nothing
after c (seq r q) =
    let first = seq (after c r) q in
    let second = after c q in if nullable r then alt first second else first
after c (alt r q) = alt (after c r) (after c q)
after c (star r) = seq (after c r) (star r)

-- `MatchString`
unfoldable pub match_string : Regex → List ℕ → Bool
match_string r [] = nullable r
match_string r (c ∷ cs) = match_string (after c r) cs

-- Classes of code points, and what the notation abbreviates.
abbrev pub one : ℕ → Regex
one c = class (λ x. eqb x c)

abbrev pub within : ℕ → ℕ → ℕ → Bool
within low high x = leb low x && leb x high

abbrev pub plus : Regex → Regex
plus r = seq r (star r)

abbrev pub optional : Regex → Regex
optional r = alt r nil

-- At most `n` times.
abbrev pub up_to : ℕ → Regex → Regex
up_to zero r = nil
up_to (suc n) r = optional (seq r (up_to n r))

abbrev pub is_lower : ℕ → Bool
is_lower = within 97 122

abbrev pub is_upper : ℕ → Bool
is_upper = within 65 90

abbrev pub is_digit : ℕ → Bool
is_digit = within 48 57
