-- ===== src/Arrow/Convert/RoundTrip.antt =====
-- A batch through `BatchToArrow` and `ArrowToBatch`.
use nodima_sdk.Base.{
  ℕ, ◌^◌, ◌<◌, ◌%◌, ◌≡◌, ◌≢◌, refl, sym, ap, ◌∙◌, ◌⊎◌, inl, inr, some, List, [], ◌∷◌, map, length,
  not, is_empty, All, ok, arith,
}
use nodima_sdk.Base.Int.{pos}
use nodima_sdk.Batch.{
  DataType, boolean, int64, float64, string, bytes, other, Column, Batch, validate_batch,
}
use nodima_sdk.Batch.Valid.{Fits, HasValues, IsValid, names_of, validate_batch_iff}
use nodima_sdk.Arrow.{Arrow, array_length, validate_arrow_record}
use nodima_sdk.Arrow.Valid
use nodima_sdk.Arrow.Valid.{IsColumn, IsRecord, validate_arrow_record_iff}
use nodima_sdk.Arrow.Convert.{
  Field, ArrowType, arrow_type, make_fields, append_columns, batch_to_arrow, read_columns,
  arrow_to_batch,
}
use nodima_sdk.Arrow.Convert.Normal.{normal_column, normal}
use nodima_sdk.Arrow.Convert.Columns.{
  Builds, arrow_column, array-length, appends, reads, arrow_column-IsColumn, normal_column-Fits,
  normal_column-name,
}

type_known :
    (t : DataType) (c : Column) (n : ℕ) → HasValues t c n → (a : ArrowType) × (arrow_type t ≡ ok a)
unfolding arrow_type
type_known boolean c n h = (ArrowType.boolean, refl)
type_known int64 c n h = (ArrowType.int64, refl)
type_known float64 c n h = (ArrowType.float64, refl)
type_known string c n h = (ArrowType.string, refl)
type_known bytes c n h = (ArrowType.binary, refl)
type_known (other t) c n h = absurd h

module _ (arrow : Arrow) (law : Builds arrow) (n : ℕ) where
  built :
      (cs : List Column)
      → All (Fits n) cs
      → (fields : List Field) × (make_fields cs ≡ ok fields)
        × (append_columns arrow fields cs ≡ ok (map arrow_column cs))
  unfolding make_fields append_columns
  built [] h = ([], refl, refl)
  built (c ∷ cs) (f, fs) =
      let (a, e) = type_known c.type c n f.filled in
      let (fields, p, q) = built cs fs in
      let h = appends n c f.named f.marked arrow law c.type f.filled in
      (
        record { name = c.name; type = a; nullable = not (is_empty c.valid) } ∷ fields,
        rw (e, p) refl,
        rw (h, q) refl,
      )

  lengths :
      (cs : List Column)
      → All (Fits n) cs
      → All (λ c. array_length c.array ≡ n) (map arrow_column cs)
  lengths [] h = tt
  lengths (c ∷ cs) (f, fs) = (array-length n c f.named f.marked c.type f.filled, lengths cs fs)

  read_back :
      (cs : List Column)
      → All (Fits n) cs
      → read_columns (map arrow_column cs) ≡ ok (map normal_column cs)
  unfolding read_columns
  read_back [] h = refl
  read_back (c ∷ cs) (f, fs) = rw (reads n c f.named f.marked c.type f.filled, read_back cs fs) refl

columns_valid :
    (n : ℕ) (cs : List Column) → All (Fits n) cs → All (IsColumn (pos n)) (map arrow_column cs)
columns_valid n [] h = tt
columns_valid n (c ∷ cs) (f, fs) = (arrow_column-IsColumn n c f, columns_valid n cs fs)

normal_fit : (n : ℕ) (cs : List Column) → All (Fits n) cs → All (Fits n) (map normal_column cs)
normal_fit n [] h = tt
normal_fit n (c ∷ cs) (f, fs) = (normal_column-Fits n c f, normal_fit n cs fs)

arrow_names : (cs : List Column) → Valid.names_of (map arrow_column cs) ≡ names_of cs
arrow_names [] = refl
arrow_names (c ∷ cs) = ap (λ l. c.name ∷ l) (arrow_names cs)

normal_names : (cs : List Column) → names_of (map normal_column cs) ≡ names_of cs
normal_names [] = refl
normal_names (c ∷ cs) = cc (normal_column-name c, normal_names cs)

some_columns : (cs : List Column) → cs ≢ [] → map normal_column cs ≢ []
some_columns [] h = λ e. h refl
some_columns (c ∷ cs) h = λ e. cc e

pub normal-IsValid : (b : Batch) → IsValid b → IsValid (normal b)
unfolding normal
normal-IsValid b v = record {
  shaped = elim (v.shaped) [ inl e ↦ inl e | inr p ↦ inr (some_columns b.columns p) ];
  distinct = rw (normal_names b.columns) v.distinct;
  fit = normal_fit b.row_count b.columns v.fit;
}

module _ (arrow : Arrow) (law : Builds arrow) where
  -- The row count of the record that is built.
  rows_kept :
      (n : ℕ) (cs : List Column)
      → (n ≡ 0) ⊎ (cs ≢ [])
      → All (Fits n) cs
      → arrow.num_rows (arrow.new_record (map arrow_column cs)) ≡ pos n
  rows_kept n [] (inl e) f = law.no_rows ∙ ap pos (sym e)
  rows_kept n [] (inr p) f = absurd (p refl)
  rows_kept n (c ∷ cs) p f =
      law.same_rows n (arrow_column c) (map arrow_column cs) (lengths arrow law n (c ∷ cs) f)

  cols_kept :
      (n : ℕ) (cs : List Column)
      → (n ≡ 0) ⊎ (cs ≢ [])
      → (n ≡ 0) ⊎ (pos (length (map arrow_column cs)) ≢ pos 0)
  cols_kept n [] (inl e) = inl e
  cols_kept n [] (inr p) = absurd (p refl)
  cols_kept n (c ∷ cs) p = inr (λ e. cc e)

  record_valid :
      (b : Batch)
      → IsValid b
      → b.row_count < 2 ^ 32
      → validate_arrow_record arrow (some (arrow.new_record (map arrow_column b.columns))) ≡ ok tt
  record_valid b v small =
      let ns = lengths arrow law b.row_count b.columns v.fit in
      let whole : IsRecord (pos b.row_count) (pos (length (map arrow_column b.columns)))
          (map arrow_column b.columns) =
        (
          small,
          cols_kept b.row_count b.columns v.shaped,
          columns_valid b.row_count b.columns v.fit,
          rw (arrow_names b.columns) v.distinct,
        ) in
      (validate_arrow_record_iff arrow (arrow.new_record (map arrow_column b.columns))).1 (
        rw
          (
            rows_kept b.row_count b.columns v.shaped v.fit,
            law.same_cols b.row_count (map arrow_column b.columns) ns,
            law.same_columns b.row_count (map arrow_column b.columns) ns,
          )
          whole)

  -- A valid batch of less than 2 ^ 32 rows converts to a record, and the record to the normal form
  -- of the batch, which is valid too. The Arrow library is taken to build what it is given.
  pub arrow_to_batch-batch_to_arrow :
      (b : Batch)
      → validate_batch b ≡ ok tt
      → b.row_count < 2 ^ 32
      → (r : arrow.RecordBatch) × (batch_to_arrow arrow b ≡ ok r)
        × (validate_arrow_record arrow (some r) ≡ ok tt)
        × (arrow_to_batch arrow (some r) ≡ ok (normal b))
        × (validate_batch (normal b) ≡ ok tt)
  unfolding batch_to_arrow arrow_to_batch normal
  arrow_to_batch-batch_to_arrow b h small =
      let v = (validate_batch_iff b).0 h in
      let (fields, p, q) = built arrow law b.row_count b.columns v.fit in
      let n = (validate_batch_iff (normal b)).1 (normal-IsValid b v) in
      let ns = lengths arrow law b.row_count b.columns v.fit in
      let e : b.row_count % 2 ^ 32 ≡ b.row_count = omega arith in
      (
        arrow.new_record (map arrow_column b.columns),
        rw (h, p, q) refl,
        record_valid b v small,
        rw
            (
              record_valid b v small,
              law.same_columns b.row_count (map arrow_column b.columns) ns,
              read_back arrow law b.row_count b.columns v.fit,
              rows_kept b.row_count b.columns v.shaped v.fit,
              e,
            )
            (rw n refl),
        n,
      )
