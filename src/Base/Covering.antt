-- ===== src/Base/Covering.antt =====
-- Distinct texts of a list no longer than theirs are all of it.
use Prim.Native.Nat.{suc}
use Prim.Native.String.{String}
use mathlib.Core.Path.{◌≡◌, refl, sym, subst}
use mathlib.Core.Logic.{◌≢◌, inl, inr}
use mathlib.Core.List.{List, [], ◌∷◌}
use native.Mathlib.Omega.{arith}
use text.Mathlib.Text.{◌==◌}
use text.Mathlib.TextEquality.{eq_iff}
use nodima_sdk.Base.Tests.{Bool-cases, if◌then◌else◌}
use nodima_sdk.Base.Lists.{length, All, Occurs, IsDistinct}

-- The list without the first occurrence.
abbrev remove : String → List String → List String
remove key [] = []
remove key (x ∷ xs) = let rest = remove key xs in if x == key then xs else x ∷ rest

length-remove :
    (key : String) (xs : List String) → Occurs key xs → length xs ≡ suc (length (remove key xs))
length-remove key [] o = absurd o
length-remove key (x ∷ xs) o = let ih = length-remove key xs in ground (arith, eq_iff x key)

Occurs-remove :
    (key other : String) (xs : List String)
    → Occurs other xs
    → other ≢ key
    → Occurs other (remove key xs)
Occurs-remove key other [] o n = o
Occurs-remove key other (x ∷ xs) o n =
    let ih = Occurs-remove key other xs in ground (arith, eq_iff x key)

All-remove :
    (P : String → Type 0) (key : String) (xs : List String)
    → P key
    → All P (remove key xs)
    → All P xs
All-remove P key [] h a = tt
All-remove P key (x ∷ xs) h a = elim (Bool-cases (x == key)) [
  | inl e ↦ (subst P (sym ((eq_iff x key).0 e)) h, rw (e, remove) at a)
  | inr e ↦
      let (b, c) : P x × All P (remove key xs) = rw (e, remove) at a in (b, All-remove P key xs h c)
]

All-map {ℓ κ} :
    {A : Type ℓ} (P Q : A → Type κ) (xs : List A) → ((x : A) → P x → Q x) → All P xs → All Q xs
All-map P Q [] f a = tt
All-map P Q (x ∷ xs) f (p, a) = (f x p, All-map P Q xs f a)

avoided :
    (key : String) (xs ys : List String)
    → ¬ Occurs key xs
    → All (λ x. Occurs x ys) xs
    → All (λ x. Occurs x (remove key ys)) xs
avoided key [] ys n a = tt
avoided key (x ∷ xs) ys n (o, a) =
    (Occurs-remove key x ys o (λ e. n (inl e)), avoided key xs ys (λ o. n (inr o)) a)

-- Distinct texts that all occur in a list no longer than theirs are all of that list.
pub all_covered :
    (xs ys : List String)
    → IsDistinct xs
    → length xs ≡ length ys
    → All (λ x. Occurs x ys) xs
    → All (λ y. Occurs y xs) ys
all_covered [] [] d e a = tt
all_covered [] (y ∷ ys) d e a = absurd (omega (arith, e))
all_covered (x ∷ xs) ys (n, d) e (o, a) =
    let ih =
      all_covered xs (remove x ys) d (omega (arith, e, length-remove x ys o))
        (avoided x xs ys n a) in
    All-remove (λ y. Occurs y (x ∷ xs)) x ys (inl refl)
      (All-map (λ y. Occurs y xs) (λ y. Occurs y (x ∷ xs)) (remove x ys) (λ y h. inr h) ih)
