-- ===== src/Base/Texts.antt =====
-- Texts as Go's strings are used: code points, bytes, and trimming.
use Prim.Native.Nat.{ℕ, ◌<◌, Ordering, compare}
use Prim.Native.Char.{code, width, len_utf8_def}
use Prim.Native.String as Text
use Prim.Native.String.{String, len}
use mathlib.Core.Path.{◌≡◌, refl, ◌∙◌}
use mathlib.Core.Bool.{Bool, true, false, ◌&&◌, ◌||◌}
use mathlib.Core.List.{List, [], ◌∷◌}
use native.Mathlib.Omega.{arith}
use nodima_sdk.Base.Lists.{length, All}
use nodima_sdk.Base.Tests.{leb, eqb, lt→ltb}

-- The code points of a text, Go's `[]rune(s)`.
unfoldable pub codes : String → List ℕ
codes Text.[] = []
codes (Text.◌∷◌ c s) = code c ∷ codes s

-- `unicode.IsSpace`
unfoldable pub is_space : ℕ → Bool
is_space c =
    leb 9 c && leb c 13
    || eqb c 32
    || eqb c 0x85
    || eqb c 0xA0
    || eqb c 0x1680
    || leb 0x2000 c && leb c 0x200A
    || eqb c 0x2028
    || eqb c 0x2029
    || eqb c 0x202F
    || eqb c 0x205F
    || eqb c 0x3000

-- `strings.TrimSpace(s) == ""`
unfoldable pub all_spaces : List ℕ → Bool
all_spaces [] = true
all_spaces (c ∷ cs) = is_space c && all_spaces cs

width_one :
    (o p q : Ordering) → (elim o [ Ordering.lt ↦ true | _ ↦ false ]) ≡ true → width o p q ≡ 1
width_one Ordering.lt p q h = refl
width_one Ordering.eq p q h = cc h
width_one Ordering.gt p q h = cc h

-- A text of ASCII characters has a byte for each.
pub len_ascii : (s : String) → All (λ c. c < 128) (codes s) → len s ≡ length (codes s)
unfolding codes
len_ascii Text.[] a = Text.len.nil
len_ascii (Text.◌∷◌ c s) (h, a) =
    let one =
      len_utf8_def c
      ∙ width_one (compare (code c) 128) (compare (code c) 2048) (compare (code c) 65536)
          (lt→ltb (code c) 128 h) in
    Text.len.cons c s ∙ omega (arith, one, len_ascii s a)
