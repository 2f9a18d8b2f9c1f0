-- ===== src/Arrow.antt =====
-- The Apache Arrow library, which the transport calls and the repository does not hold, is a
-- parameter: its record batches, what the code reads of one, and its IPC streams.
-- runner/v1/arrow_batch.go: `ValidateArrowRecord`, over that interface.
pub mod Valid
pub mod Convert
use nodima_sdk.Base.{
  suc, length, ℕ, ◌^◌, String, Bool, not, Option, some, none, List, [], ◌∷◌, Check, Result, ok, err,
  Error, errorf, str, num, int, reject, ◌>>=◌, ◌>>◌, ◌==◌, ◌||◌, ◌&&◌, ltb, eqb, contains, ◌+◌, ◌-◌,
}
use nodima_sdk.Base.Int.{ℤ, pos, negsuc, below, above}

-- An array, as its methods show it: its dynamic type, and for each row what `Value` returns, or
-- none where `IsValid` is false; `other` is an array of a type that the type switches do not know,
-- with the type's name, `Len` and `NullN`.
pub data ArrowArray : Type 0 where
  boolean : List (Option Bool) → ArrowArray
  int64 : List (Option ℕ) → ArrowArray
  float64 : List (Option ℕ) → ArrowArray
  string : List (Option String) → ArrowArray
  binary : List (Option (List ℕ)) → ArrowArray
  other : String → ℕ → ℕ → ArrowArray

-- The rows that hold no value.
abbrev pub nulls {ℓ} : {A : Type ℓ} → List (Option A) → ℕ
nulls [] = 0
nulls (none ∷ cells) = suc (nulls cells)
nulls (some a ∷ cells) = nulls cells

-- `Len`
unfoldable pub array_length : ArrowArray → ℕ
array_length (boolean cells) = length cells
array_length (int64 cells) = length cells
array_length (float64 cells) = length cells
array_length (string cells) = length cells
array_length (binary cells) = length cells
array_length (other name rows null_rows) = rows

-- `NullN`
unfoldable pub null_count : ArrowArray → ℕ
null_count (boolean cells) = nulls cells
null_count (int64 cells) = nulls cells
null_count (float64 cells) = nulls cells
null_count (string cells) = nulls cells
null_count (binary cells) = nulls cells
null_count (other name rows null_rows) = null_rows

-- A field of the schema with its array.
pub record ArrowColumn : Type 0 where
  pub name : String
  pub nullable : Bool
  pub array : ArrowArray

pub record Arrow : Type 1 where
  pub RecordBatch : Type 0
  pub num_rows : RecordBatch → ℤ
  pub num_cols : RecordBatch → ℤ
  pub columns : RecordBatch → List ArrowColumn
  -- What a builder holds after `AppendValues` of values and validity marks.
  pub append_values : (A : Type 0) → List A → List Bool → List (Option A)
  -- What a record builder makes of its fields and the arrays of their builders.
  pub new_record : List ArrowColumn → RecordBatch
  -- The chunks that an IPC writer hands to its stream when it writes a record, one after the other
  -- until the stream fails, and a failure of its own behind them; the same when it is closed; and
  -- the error that it returns when the stream fails with one.
  pub write_chunks : RecordBatch → List (List ℕ)
  pub write_failure : RecordBatch → Option Error
  pub close_chunks : RecordBatch → List (List ℕ)
  pub close_failure : RecordBatch → Option Error
  pub report : Error → Error
  -- An IPC reader over the bytes: the error of `NewReader`, or the records that `Next` finds and
  -- what `Err` then returns.
  pub read_records : List ℕ → Result (List RecordBatch × Option Error)

validate_kind : ArrowColumn → ArrowArray → Check
validate_kind c (other k rows null_rows) =
    err (errorf "column %q has unsupported Arrow type %s" (str c.name ∷ str k ∷ []))
validate_kind c _ = ok tt

abbrev is_rows : ℤ → ℕ → Bool
is_rows (pos n) len = eqb len n
is_rows (negsuc n) len = Bool.false

-- The loop over the columns; `names` is the map of the names seen.
unfoldable pub validate_columns : ℤ → ℕ → List String → List ArrowColumn → Check
unfolding validate_kind
validate_columns rows index names [] = ok tt
validate_columns rows index names (c ∷ cs) = do
  reject (c.name == "") (errorf "Arrow column %d has no name" (num index ∷ []))
  reject (contains names c.name) (errorf "duplicate Arrow column name %q" (str c.name ∷ []))
  reject (not (is_rows rows (array_length c.array))) (
      errorf "Arrow column %q length is %d, want %d"
        (str c.name ∷ num (array_length c.array) ∷ int rows ∷ []))
  reject (not c.nullable && ltb 0 (null_count c.array))
      (errorf "non-nullable Arrow column %q contains nulls" (str c.name ∷ []))
  validate_kind c c.array
  validate_columns rows (index + 1) (c.name ∷ names) cs

abbrev is_zero : ℤ → Bool
is_zero (pos n) = eqb n 0
is_zero (negsuc n) = Bool.false

-- The checks on a record that is there: its row and column counts, and its columns.
unfoldable pub validate_shape : ℤ → ℤ → List ArrowColumn → Check
validate_shape rows cols cs = do
  reject (below rows 0 || above rows (2 ^ 32 - 1))
      (errorf "Arrow row count %d exceeds Nodima batch limits" (int rows ∷ []))
  reject (is_zero cols && above rows 0)
      (errorf "non-empty Arrow batch requires at least one column" [])
  validate_columns rows 0 [] cs

-- `ValidateArrowRecord`
unfoldable pub validate_arrow_record : (arrow : Arrow) → Option arrow.RecordBatch → Check
validate_arrow_record arrow none = err (errorf "Arrow record batch is nil" [])
validate_arrow_record arrow (some r) =
    validate_shape (arrow.num_rows r) (arrow.num_cols r) (arrow.columns r)
