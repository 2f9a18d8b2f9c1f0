-- ===== src/Arrow/Valid.antt =====
-- When a record batch is accepted.
use nodima_sdk.Base.{
  ℕ, ◌+◌, ◌^◌, ◌<◌, String, ◌≡◌, ◌≢◌, ◌⊎◌, ◌↔◌, true, some, List, [], ◌∷◌, map, All, ok, arith,
  eq_iff, IsDistinct, IsFresh, IsFresh-iff,
}
use nodima_sdk.Base.Int.{ℤ, pos, negsuc}
use nodima_sdk.Arrow.{
  Arrow, ArrowColumn, ArrowArray, other, array_length, null_count, validate_columns, validate_shape,
  validate_arrow_record,
}

abbrev pub IsPortable : ArrowArray → Type 0
IsPortable (other k rows null_rows) = ⊥
IsPortable _ = Unit

-- A column of `n` rows: named, of a portable type, and with nulls only if its field allows them.
pub record IsColumn (n : ℤ) (c : ArrowColumn) : Type 0 where
  pub named : c.name ≢ ""
  pub filled : n ≡ pos (array_length c.array)
  pub nulls : (c.nullable ≡ true) ⊎ (null_count c.array ≡ 0)
  pub portable : IsPortable c.array

abbrev pub names_of : List ArrowColumn → List String
names_of = map (λ c. c.name)

columns_iff :
    (n : ℤ) (i : ℕ) (seen : List String) (cs : List ArrowColumn)
    → (validate_columns n i seen cs ≡ ok tt) ↔ (All (IsColumn n) cs × IsFresh seen (names_of cs))
unfolding validate_columns
columns_iff n i seen [] = ground arith
columns_iff n i seen (c ∷ cs) =
    ground (arith, eq_iff c.name "", columns_iff n (i + 1) (c.name ∷ seen) cs)

-- A record batch of `rows` rows and `cols` columns.
abbrev pub IsRecord : ℤ → ℤ → List ArrowColumn → Type 0
IsRecord (negsuc n) cols cs = ⊥
IsRecord (pos n) cols cs =
    (n < 2 ^ 32) × ((n ≡ 0) ⊎ (cols ≢ pos 0)) × All (IsColumn (pos n)) cs × IsDistinct (names_of cs)

shape_iff :
    (rows cols : ℤ) (cs : List ArrowColumn)
    → (validate_shape rows cols cs ≡ ok tt) ↔ IsRecord rows cols cs
unfolding validate_shape
shape_iff (negsuc n) cols cs = ground arith
shape_iff (pos n) cols cs = ground (arith, columns_iff (pos n) 0 [] cs, IsFresh-iff (names_of cs))

-- A record batch is accepted exactly when its row count is not negative and fits 32 bits, it has a
-- column or no rows, its column names are present and pairwise different, and every column has a
-- value for each row, a portable type, and nulls only if its field allows them.
pub validate_arrow_record_iff :
    (arrow : Arrow) (r : arrow.RecordBatch)
    → (validate_arrow_record arrow (some r) ≡ ok tt)
      ↔ IsRecord (arrow.num_rows r) (arrow.num_cols r) (arrow.columns r)
unfolding validate_arrow_record
validate_arrow_record_iff arrow r =
    shape_iff (arrow.num_rows r) (arrow.num_cols r) (arrow.columns r)
