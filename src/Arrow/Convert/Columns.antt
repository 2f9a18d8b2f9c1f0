-- ===== src/Arrow/Convert/Columns.antt =====
-- One column through `BatchToArrow` and `ArrowToBatch`.
use nodima_sdk.Base.{
  ℕ, ◌≡◌, ◌≢◌, refl, sym, ap, ◌∙◌, ◌⊎◌, inl, inr, String, Bool, true, false, List, [], ◌∷◌, length,
  All, ok, arith, not, is_empty, subst,
}
use nodima_sdk.Base.Int.{pos}
use nodima_sdk.Batch.{DataType, boolean, int64, float64, string, bytes, other, Column}
use nodima_sdk.Batch.Valid.{Fits, HasValues}
use nodima_sdk.Arrow.{Arrow, ArrowArray, ArrowColumn, array_length, null_count, nulls}
use nodima_sdk.Arrow.Valid
use nodima_sdk.Arrow.Valid.{IsColumn, IsRecord, validate_arrow_record_iff}
use nodima_sdk.Arrow.Convert.{append_column, empty_column, read_array}
use nodima_sdk.Arrow.Convert.Normal.{
  kept_marks, normal_values, normal_column, cells_of, values_or-cells_of, marks-cells_of,
  nulls-some, length-cells_of, length-zeroed,
}

-- What the Arrow library documents of its builders: values are appended under their marks, or all
-- valid with no marks, and a record holds the columns that were built, which are of one length.
pub record Builds (arrow : Arrow) : Type 1 where
  pub appended :
      (A : Type 0) (xs : List A) (vs : List Bool)
      → (vs ≡ []) ⊎ (length vs ≡ length xs)
      → arrow.append_values A xs vs ≡ cells_of xs vs
  pub same_columns :
      (n : ℕ) (cs : List ArrowColumn)
      → All (λ c. array_length c.array ≡ n) cs
      → arrow.columns (arrow.new_record cs) ≡ cs
  pub no_rows : arrow.num_rows (arrow.new_record []) ≡ pos 0
  pub same_rows :
      (n : ℕ) (c : ArrowColumn) (cs : List ArrowColumn)
      → All (λ c. array_length c.array ≡ n) (c ∷ cs)
      → arrow.num_rows (arrow.new_record (c ∷ cs)) ≡ pos n
  pub same_cols :
      (n : ℕ) (cs : List ArrowColumn)
      → All (λ c. array_length c.array ≡ n) cs
      → arrow.num_cols (arrow.new_record cs) ≡ pos (length cs)

-- The array that is built for a column of a known type.
abbrev pub array_of : DataType → Column → ArrowArray
array_of boolean c = ArrowArray.boolean (cells_of c.boolean c.valid)
array_of int64 c = ArrowArray.int64 (cells_of c.int64 c.valid)
array_of float64 c = ArrowArray.float64 (cells_of c.float64 c.valid)
array_of string c = ArrowArray.string (cells_of c.string c.valid)
array_of bytes c = ArrowArray.binary (cells_of c.bytes c.valid)
array_of (other t) c = ArrowArray.boolean []

abbrev pub arrow_column : Column → ArrowColumn
arrow_column c = record {
  name = c.name;
  nullable = not (is_empty c.valid);
  array = array_of c.type c;
}

marked_nulls {ℓ} :
    {A : Type ℓ} (xs : List A) (vs : List Bool)
    → (not (is_empty vs) ≡ true) ⊎ (nulls (cells_of xs vs) ≡ 0)
marked_nulls xs [] = inr (nulls-some xs)
marked_nulls xs (v ∷ vs) = inl refl

module _ (n : ℕ) (c : Column) (named : c.name ≢ "")
    (marked : (c.valid ≡ []) ⊎ (length c.valid ≡ n)) where
  pub array-length : (t : DataType) → HasValues t c n → array_length (array_of t c) ≡ n
  unfolding array_length
  array-length boolean h = length-cells_of c.boolean c.valid ∙ h
  array-length int64 h = length-cells_of c.int64 c.valid ∙ h
  array-length float64 h = length-cells_of c.float64 c.valid ∙ h
  array-length string h = length-cells_of c.string c.valid ∙ h
  array-length bytes h = length-cells_of c.bytes c.valid ∙ h
  array-length (other t) h = absurd h

  by_length : (k : ℕ) → k ≡ n → (c.valid ≡ []) ⊎ (length c.valid ≡ k)
  by_length k e = ground arith

  pub appends :
      (arrow : Arrow)
      → Builds arrow
      → (t : DataType) → HasValues t c n
      → append_column arrow t c ≡ ok (array_of t c)
  unfolding append_column
  appends arrow law boolean h =
      ap (λ l. ok (ArrowArray.boolean l)) (law.appended Bool c.boolean c.valid (by_length _ h))
  appends arrow law int64 h =
      ap (λ l. ok (ArrowArray.int64 l)) (law.appended ℕ c.int64 c.valid (by_length _ h))
  appends arrow law float64 h =
      ap (λ l. ok (ArrowArray.float64 l)) (law.appended ℕ c.float64 c.valid (by_length _ h))
  appends arrow law string h =
      ap (λ l. ok (ArrowArray.string l)) (law.appended String c.string c.valid (by_length _ h))
  appends arrow law bytes h =
      ap (λ l. ok (ArrowArray.binary l)) (law.appended (List ℕ) c.bytes c.valid (by_length _ h))
  appends arrow law (other t) h = absurd h

  pub reads :
      (t : DataType)
      → HasValues t c n
      → read_array c.name (null_count (array_of t c)) (array_of t c)
        ≡ ok (normal_values t c (empty_column c.name t (kept_marks c.valid)))
  unfolding read_array null_count
  reads boolean h = rw (marks-cells_of c.boolean c.valid (by_length _ h), values_or-cells_of) refl
  reads int64 h = rw (marks-cells_of c.int64 c.valid (by_length _ h), values_or-cells_of) refl
  reads float64 h = rw (marks-cells_of c.float64 c.valid (by_length _ h), values_or-cells_of) refl
  reads string h = rw (marks-cells_of c.string c.valid (by_length _ h), values_or-cells_of) refl
  reads bytes h = rw (marks-cells_of c.bytes c.valid (by_length _ h), values_or-cells_of) refl
  reads (other t) h = absurd h

  array-IsPortable : (t : DataType) → HasValues t c n → Valid.IsPortable (array_of t c)
  array-IsPortable (other t) h = absurd h
  array-IsPortable t h = tt

  array-nulls :
      (t : DataType)
      → HasValues t c n
      → (not (is_empty c.valid) ≡ true) ⊎ (null_count (array_of t c) ≡ 0)
  unfolding null_count
  array-nulls boolean h = marked_nulls c.boolean c.valid
  array-nulls int64 h = marked_nulls c.int64 c.valid
  array-nulls float64 h = marked_nulls c.float64 c.valid
  array-nulls string h = marked_nulls c.string c.valid
  array-nulls bytes h = marked_nulls c.bytes c.valid
  array-nulls (other t) h = absurd h

  kept_marks-length : (kept_marks c.valid ≡ []) ⊎ (length (kept_marks c.valid) ≡ n)
  kept_marks-length = ground arith

  normal-HasValues :
      (t : DataType) (vs : List Bool)
      → HasValues t c n
      → HasValues t (normal_values t c (empty_column c.name t vs)) n
  normal-HasValues boolean vs h = length-zeroed false c.boolean c.valid ∙ h
  normal-HasValues int64 vs h = length-zeroed 0 c.int64 c.valid ∙ h
  normal-HasValues float64 vs h = length-zeroed 0 c.float64 c.valid ∙ h
  normal-HasValues string vs h = length-zeroed "" c.string c.valid ∙ h
  normal-HasValues bytes vs h = length-zeroed [] c.bytes c.valid ∙ h
  normal-HasValues (other t) vs h = absurd h

  normal_fields :
      (t : DataType) (e : Column)
      → ((normal_values t c e).name ≡ e.name)
        × ((normal_values t c e).type ≡ e.type)
        × ((normal_values t c e).valid ≡ e.valid)
  normal_fields boolean e = (refl, refl, refl)
  normal_fields int64 e = (refl, refl, refl)
  normal_fields float64 e = (refl, refl, refl)
  normal_fields string e = (refl, refl, refl)
  normal_fields bytes e = (refl, refl, refl)
  normal_fields (other t) e = (refl, refl, refl)

-- A valid column becomes a valid column of the record, and a valid column again.
pub arrow_column-IsColumn : (n : ℕ) (c : Column) → Fits n c → IsColumn (pos n) (arrow_column c)
arrow_column-IsColumn n c f = record {
  named = f.named;
  filled = ap pos (sym (array-length n c f.named f.marked c.type f.filled));
  nulls = array-nulls n c f.named f.marked c.type f.filled;
  portable = array-IsPortable n c f.named f.marked c.type f.filled;
}

pub normal_column-Fits : (n : ℕ) (c : Column) → Fits n c → Fits n (normal_column c)
normal_column-Fits n c f =
    let e = empty_column c.name c.type (kept_marks c.valid) in
    let (a, b, d) = normal_fields n c f.named f.marked c.type e in
    record {
      named = rw a f.named;
      marked = rw d (kept_marks-length n c f.named f.marked);
      filled =
          subst (λ t. HasValues t (normal_column c) n) (sym b)
            (normal-HasValues n c f.named f.marked c.type (kept_marks c.valid) f.filled);
    }

pub normal_column-name : (c : Column) → (normal_column c).name ≡ c.name
normal_column-name c = name_kept c.type (empty_column c.name c.type (kept_marks c.valid))
  where
    name_kept : (t : DataType) (e : Column) → (normal_values t c e).name ≡ e.name
    name_kept boolean e = refl
    name_kept int64 e = refl
    name_kept float64 e = refl
    name_kept string e = refl
    name_kept bytes e = refl
    name_kept (other t) e = refl
