-- ===== src/Base/Distinct.antt =====
-- The loop that remembers the texts it has seen in a map finds exactly the repetitions.
use Prim.Native.String.{String}
use mathlib.Core.Path.{◌≡◌}
use mathlib.Core.Bool.{false, true}
use mathlib.Core.Logic.{◌↔◌}
use mathlib.Core.List.{List, [], ◌∷◌, ◌++◌}
use native.Mathlib.Omega.{arith}
use text.Mathlib.TextEquality.{eq_iff}
use nodima_sdk.Base.Lists.{
  All, contains, contains_iff, contains-add_all, Occurs, IsDistinct, add_all,
}

-- The texts are pairwise different, by the test.
abbrev IsUnrepeated : List String → Type 0
IsUnrepeated [] = Unit
IsUnrepeated (x ∷ xs) = (contains xs x ≡ false) × IsUnrepeated xs

IsUnrepeated-iff : (xs : List String) → IsUnrepeated xs ↔ IsDistinct xs
IsUnrepeated-iff [] = ground arith
IsUnrepeated-iff (x ∷ xs) = ground (arith, contains_iff xs x, IsUnrepeated-iff xs)

-- Each text is new when it comes, after those of `seen` and those before it.
abbrev pub IsFresh : List String → List String → Type 0
IsFresh seen [] = Unit
IsFresh seen (x ∷ xs) = (contains seen x ≡ false) × IsFresh (x ∷ seen) xs

abbrev IsUnseen : List String → List String → Type 0
IsUnseen seen xs = All (λ x. contains seen x ≡ false) xs

IsUnseen-tail :
    (x : String) (seen xs : List String)
    → IsUnseen (x ∷ seen) xs
    → (contains xs x ≡ false) × IsUnseen seen xs
unfolding contains
IsUnseen-tail x seen [] h = ground arith
IsUnseen-tail x seen (y ∷ ys) (h, hs) =
    let (a, b) = IsUnseen-tail x seen ys hs in ground (arith, eq_iff x y, eq_iff y x)

IsUnseen-cons :
    (x : String) (seen xs : List String)
    → contains xs x ≡ false
    → IsUnseen seen xs
    → IsUnseen (x ∷ seen) xs
unfolding contains
IsUnseen-cons x seen [] h u = tt
IsUnseen-cons x seen (y ∷ ys) h (u, us) =
    (ground (arith, eq_iff x y, eq_iff y x), IsUnseen-cons x seen ys (ground arith) us)

IsFresh-IsUnrepeated :
    (seen xs : List String) → IsFresh seen xs → IsUnrepeated xs × IsUnseen seen xs
IsFresh-IsUnrepeated seen [] h = (tt, tt)
IsFresh-IsUnrepeated seen (x ∷ xs) (h, hs) =
    let (d, u) = IsFresh-IsUnrepeated (x ∷ seen) xs hs in
    let (a, b) = IsUnseen-tail x seen xs u in ((a, d), (h, b))

IsUnrepeated-IsFresh :
    (seen xs : List String) → IsUnrepeated xs → IsUnseen seen xs → IsFresh seen xs
IsUnrepeated-IsFresh seen [] d u = tt
IsUnrepeated-IsFresh seen (x ∷ xs) (a, d) (h, u) =
    (h, IsUnrepeated-IsFresh (x ∷ seen) xs d (IsUnseen-cons x seen xs a u))

IsUnseen-nil : (xs : List String) → IsUnseen [] xs
unfolding contains
IsUnseen-nil [] = tt
IsUnseen-nil (x ∷ xs) = (ground arith, IsUnseen-nil xs)

-- From the empty set: the texts are pairwise different.
pub IsFresh-iff : (xs : List String) → IsFresh [] xs ↔ IsDistinct xs
IsFresh-iff xs = (
  λ h. (IsUnrepeated-iff xs).0 (IsFresh-IsUnrepeated [] xs h).0,
  λ d. IsUnrepeated-IsFresh [] xs ((IsUnrepeated-iff xs).1 d) (IsUnseen-nil xs),
)

-- Two loops that share a set are one loop over both lists.
pub IsFresh-append :
    (seen xs ys : List String)
    → IsFresh seen (xs ++ ys) ↔ (IsFresh seen xs × IsFresh (add_all seen xs) ys)
IsFresh-append seen [] ys = ground arith
IsFresh-append seen (x ∷ xs) ys = ground (arith, IsFresh-append (x ∷ seen) xs ys)

-- The map that a loop built holds the keys that it entered.
pub known_iff : (xs : List String) (x : String) → (contains (add_all [] xs) x ≡ true) ↔ Occurs x xs
unfolding contains
known_iff xs x = ground (arith, contains-add_all [] xs x, contains_iff xs x)
