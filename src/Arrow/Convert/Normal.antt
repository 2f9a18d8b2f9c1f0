-- ===== src/Arrow/Convert/Normal.antt =====
-- The batch that a conversion to Arrow and back makes of a batch: marks that mark no null are
-- dropped, a null's value is the zero value, and only the vector of a column's type is kept.
use nodima_sdk.Base.{
  suc, ◌≡◌, refl, ap, Bool, true, false, Option, some, none, List, [], ◌∷◌, map, length, arith, not,
  ◌&&◌, ltb, if◌then◌else◌, is_some, ◌⊎◌, inl, inr,
}
use nodima_sdk.Batch.{DataType, boolean, int64, float64, string, bytes, other, Column, Batch}
use nodima_sdk.Arrow.{nulls}
use nodima_sdk.Arrow.Convert.{values_or, marks, empty_column}

-- No mark is false.
abbrev pub all_valid : List Bool → Bool
all_valid [] = true
all_valid (v ∷ vs) = v && all_valid vs

abbrev pub kept_marks : List Bool → List Bool
kept_marks vs = if all_valid vs then [] else vs

abbrev pub zeroed {ℓ} : {A : Type ℓ} → A → List A → List Bool → List A
zeroed zero_value xs [] = xs
zeroed zero_value [] (v ∷ vs) = []
zeroed zero_value (x ∷ xs) (v ∷ vs) = (if v then x else zero_value) ∷ zeroed zero_value xs vs

abbrev pub normal_values : DataType → Column → Column → Column
normal_values boolean c e = record e { boolean = zeroed false c.boolean c.valid }
normal_values int64 c e = record e { int64 = zeroed 0 c.int64 c.valid }
normal_values float64 c e = record e { float64 = zeroed 0 c.float64 c.valid }
normal_values string c e = record e { string = zeroed "" c.string c.valid }
normal_values bytes c e = record e { bytes = zeroed [] c.bytes c.valid }
normal_values (other t) c e = e

abbrev pub normal_column : Column → Column
normal_column c = normal_values c.type c (empty_column c.name c.type (kept_marks c.valid))

unfoldable pub normal : Batch → Batch
normal b = record { row_count = b.row_count; columns = map normal_column b.columns }

-- The cells of values under their marks.
abbrev pub cells_of {ℓ} : {A : Type ℓ} → List A → List Bool → List (Option A)
cells_of xs [] = map some xs
cells_of [] (v ∷ vs) = []
cells_of (x ∷ xs) (v ∷ vs) = (if v then some x else none) ∷ cells_of xs vs

module _ {ℓ} {A : Type ℓ} where
  values_or-some : (z : A) (xs : List A) → values_or z (map some xs) ≡ xs
  values_or-some z [] = refl
  values_or-some z (x ∷ xs) = ap (λ l. x ∷ l) (values_or-some z xs)

  pub values_or-cells_of :
      (z : A) (xs : List A) (vs : List Bool) → values_or z (cells_of xs vs) ≡ zeroed z xs vs
  values_or-cells_of z xs [] = values_or-some z xs
  values_or-cells_of z [] (v ∷ vs) = refl
  values_or-cells_of z (x ∷ xs) (true ∷ vs) = ap (λ l. x ∷ l) (values_or-cells_of z xs vs)
  values_or-cells_of z (x ∷ xs) (false ∷ vs) = ap (λ l. z ∷ l) (values_or-cells_of z xs vs)

  pub nulls-some : (xs : List A) → nulls (map some xs) ≡ 0
  nulls-some [] = refl
  nulls-some (x ∷ xs) = nulls-some xs

  -- The marks read back are those that were given.
  is_some-cells_of :
      (xs : List A) (vs : List Bool) → length vs ≡ length xs → map is_some (cells_of xs vs) ≡ vs
  is_some-cells_of [] [] h = refl
  is_some-cells_of (x ∷ xs) [] h = absurd (omega arith)
  is_some-cells_of [] (v ∷ vs) h = absurd (omega arith)
  is_some-cells_of (x ∷ xs) (true ∷ vs) h =
      ap (λ l. true ∷ l) (is_some-cells_of xs vs (omega arith))
  is_some-cells_of (x ∷ xs) (false ∷ vs) h =
      ap (λ l. false ∷ l) (is_some-cells_of xs vs (omega arith))

  nulls-cells_of :
      (xs : List A) (vs : List Bool)
      → length vs ≡ length xs
      → ltb 0 (nulls (cells_of xs vs)) ≡ not (all_valid vs)
  nulls-cells_of [] [] h = ground arith
  nulls-cells_of (x ∷ xs) [] h = absurd (omega arith)
  nulls-cells_of [] (v ∷ vs) h = absurd (omega arith)
  nulls-cells_of (x ∷ xs) (true ∷ vs) h = nulls-cells_of xs vs (omega arith)
  nulls-cells_of (x ∷ xs) (false ∷ vs) h = ground arith

  pub marks-cells_of :
      (xs : List A) (vs : List Bool)
      → (vs ≡ []) ⊎ (length vs ≡ length xs)
      → marks (nulls (cells_of xs vs)) (cells_of xs vs) ≡ kept_marks vs
  marks-cells_of xs [] h = ground (arith, nulls-some xs)
  marks-cells_of xs (v ∷ vs) (inl e) = absurd (cc e)
  marks-cells_of xs (v ∷ vs) (inr e) =
      ground (arith, nulls-cells_of xs (v ∷ vs) e, is_some-cells_of xs (v ∷ vs) e)

  length-some : (xs : List A) → length (map some xs) ≡ length xs
  length-some [] = refl
  length-some (x ∷ xs) = ap suc (length-some xs)

  pub length-cells_of : (xs : List A) (vs : List Bool) → length (cells_of xs vs) ≡ length xs
  length-cells_of xs [] = length-some xs
  length-cells_of [] (v ∷ vs) = refl
  length-cells_of (x ∷ xs) (v ∷ vs) = ap suc (length-cells_of xs vs)

  pub length-zeroed : (z : A) (xs : List A) (vs : List Bool) → length (zeroed z xs vs) ≡ length xs
  length-zeroed z xs [] = refl
  length-zeroed z [] (v ∷ vs) = refl
  length-zeroed z (x ∷ xs) (v ∷ vs) = ap suc (length-zeroed z xs vs)
