-- ===== src/Batch/Valid.antt =====
-- When a batch is accepted.
use nodima_sdk.Base.{
  ℕ, ◌+◌, String, ◌≡◌, refl, ◌≢◌, ◌⊎◌, ◌↔◌, ok, List, [], ◌∷◌, map, All, length, arith, eq_iff,
  IsDistinct, IsFresh, IsFresh-iff,
}
use nodima_sdk.Batch.{
  Batch, Column, DataType, boolean, int64, float64, string, bytes, other, value_length,
  validate_values, validate_columns, validate_batch,
}

-- The number of values in the vector that the type selects.
abbrev pub HasValues : DataType → Column → ℕ → Type 0
HasValues boolean c n = length c.boolean ≡ n
HasValues int64 c n = length c.int64 ≡ n
HasValues float64 c n = length c.float64 ≡ n
HasValues string c n = length c.string ≡ n
HasValues bytes c n = length c.bytes ≡ n
HasValues (other t) c n = ⊥

-- A column of a batch with `n` rows: a name, a value for each row, and a validity mark for each
-- row or none at all.
pub record Fits (n : ℕ) (c : Column) : Type 0 where
  pub named : c.name ≢ ""
  pub marked : (c.valid ≡ []) ⊎ (length c.valid ≡ n)
  pub filled : HasValues c.type c n

abbrev pub names_of : List Column → List String
names_of = map (λ c. c.name)

pub record IsValid (b : Batch) : Type 0 where
  pub shaped : (b.row_count ≡ 0) ⊎ (b.columns ≢ [])
  pub distinct : IsDistinct (names_of b.columns)
  pub fit : All (Fits b.row_count) b.columns

values_Fits :
    (t : DataType) (n : ℕ) (c : Column)
    → c.type ≡ t
    → c.name ≢ ""
    → (validate_values n c ≡ ok tt) ↔ Fits n c
unfolding validate_values value_length
values_Fits boolean n c e h = ground arith
values_Fits int64 n c e h = ground arith
values_Fits float64 n c e h = ground arith
values_Fits string n c e h = ground arith
values_Fits bytes n c e h = ground arith
values_Fits (other t) n c e h = ground arith

columns_cons :
    (n i : ℕ) (seen : List String) (c : Column) (cs : List Column)
    → (validate_columns n (i + 1) (c.name ∷ seen) cs ≡ ok tt)
      ↔ (IsFresh (c.name ∷ seen) (names_of cs) × All (Fits n) cs)
    → (validate_columns n i seen (c ∷ cs) ≡ ok tt)
      ↔ (IsFresh seen (names_of (c ∷ cs)) × All (Fits n) (c ∷ cs))
unfolding validate_columns
columns_cons n i seen c cs rest = ground (arith, values_Fits c.type n c refl, eq_iff c.name "")

columns_iff :
    (n i : ℕ) (seen : List String) (cs : List Column)
    → (validate_columns n i seen cs ≡ ok tt) ↔ (IsFresh seen (names_of cs) × All (Fits n) cs)
unfolding validate_columns
columns_iff n i seen [] = ground arith
columns_iff n i seen (c ∷ cs) =
    columns_cons n i seen c cs (columns_iff n (i + 1) (c.name ∷ seen) cs)

-- A batch is accepted exactly when it is valid: it has a column or no rows, its column names are
-- pairwise different, and each column has a name, one value of its type for each row, and a
-- validity mark for each row or none at all.
pub validate_batch_iff : (b : Batch) → (validate_batch b ≡ ok tt) ↔ IsValid b
unfolding validate_batch
validate_batch_iff b =
    ground (arith, columns_iff b.row_count 0 [] b.columns, IsFresh-iff (names_of b.columns))
