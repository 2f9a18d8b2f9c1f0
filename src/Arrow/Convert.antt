-- ===== src/Arrow/Convert.antt =====
-- runner/v1/arrow_batch.go: `BatchToArrow` and `ArrowToBatch`.
pub mod Normal
pub mod Columns
pub mod RoundTrip
use nodima_sdk.Base.{
  ℕ, ◌-◌, ◌%◌, ◌^◌, String, Bool, Option, some, none, List, [], ◌∷◌, map, Result, ok, err, errorf,
  wrap, str, ltb, is_empty, not, is_some, if◌then◌else◌, ◌>>=◌, ◌>>◌,
}
use nodima_sdk.Base.Int.{ℤ, pos, negsuc}
use nodima_sdk.Batch.{DataType, Column, Batch, validate_batch}
use nodima_sdk.Arrow.{Arrow, ArrowArray, ArrowColumn, null_count, validate_arrow_record}

-- The Arrow types that `arrowType` names.
pub data ArrowType : Type 0 where
  boolean int64 float64 string binary : ArrowType

-- `arrowType`
unfoldable pub arrow_type : DataType → Result ArrowType
arrow_type DataType.boolean = ok boolean
arrow_type DataType.int64 = ok int64
arrow_type DataType.float64 = ok float64
arrow_type DataType.string = ok string
arrow_type DataType.bytes = ok binary
arrow_type (DataType.other t) = err (errorf "unsupported Nodima data type %q" (str t ∷ []))

-- `arrow.Field`
pub record Field : Type 0 where
  pub name : String
  pub type : ArrowType
  pub nullable : Bool

-- The loop that fills `fields`.
unfoldable pub make_fields : List Column → Result (List Field)
make_fields [] = ok []
make_fields (c ∷ cs) = do
  t ← wrap "column %q: %w" (str c.name ∷ []) (arrow_type c.type)
  fields ← make_fields cs
  ok (record { name = c.name; type = t; nullable = not (is_empty c.valid) } ∷ fields)

module _ (arrow : Arrow) where
  -- The switch on `column.Type`: the array of the column's builder.
  unfoldable pub append_column : DataType → Column → Result ArrowArray
  append_column DataType.boolean c =
      ok (ArrowArray.boolean (arrow.append_values Bool c.boolean c.valid))
  append_column DataType.int64 c = ok (ArrowArray.int64 (arrow.append_values ℕ c.int64 c.valid))
  append_column DataType.float64 c =
      ok (ArrowArray.float64 (arrow.append_values ℕ c.float64 c.valid))
  append_column DataType.string c =
      ok (ArrowArray.string (arrow.append_values String c.string c.valid))
  append_column DataType.bytes c =
      ok (ArrowArray.binary (arrow.append_values (List ℕ) c.bytes c.valid))
  append_column (DataType.other t) c =
      err (errorf "column %q has unsupported data type %q" (str c.name ∷ str t ∷ []))

  -- The loop that appends the columns; a field and its array are then a column of the record.
  unfoldable pub append_columns : List Field → List Column → Result (List ArrowColumn)
  append_columns (f ∷ fs) (c ∷ cs) = do
    array ← append_column c.type c
    columns ← append_columns fs cs
    ok (record { name = f.name; nullable = f.nullable; array = array } ∷ columns)
  append_columns fs cs = ok []

  -- `BatchToArrow`
  unfoldable pub batch_to_arrow : Batch → Result arrow.RecordBatch
  batch_to_arrow b = do
    validate_batch b
    fields ← make_fields b.columns
    columns ← append_columns fields b.columns
    ok (arrow.new_record columns)

-- `make` of as many zero values as there are rows, and the loop that sets those that are valid.
abbrev pub values_or {ℓ} : {A : Type ℓ} → A → List (Option A) → List A
values_or zero_value [] = []
values_or zero_value (none ∷ cells) = zero_value ∷ values_or zero_value cells
values_or zero_value (some a ∷ cells) = a ∷ values_or zero_value cells

-- `IsValid` of each row, if a row is null.
abbrev pub marks {ℓ} : {A : Type ℓ} → ℕ → List (Option A) → List Bool
marks null_rows cells = if ltb 0 null_rows then map is_some cells else []

abbrev pub empty_column : String → DataType → List Bool → Column
empty_column name type valid = record {
  name = name;
  type = type;
  valid = valid;
  boolean = [];
  int64 = [];
  float64 = [];
  string = [];
  bytes = [];
}

-- The type switch on the column's array.
unfoldable pub read_array : String → ℕ → ArrowArray → Result Column
read_array name n (ArrowArray.boolean cells) =
    ok (record (empty_column name DataType.boolean (marks n cells)) {
      boolean = values_or Bool.false cells;
    })
read_array name n (ArrowArray.int64 cells) =
    ok (record (empty_column name DataType.int64 (marks n cells)) { int64 = values_or 0 cells })
read_array name n (ArrowArray.float64 cells) =
    ok (record (empty_column name DataType.float64 (marks n cells)) { float64 = values_or 0 cells })
read_array name n (ArrowArray.string cells) =
    ok (record (empty_column name DataType.string (marks n cells)) { string = values_or "" cells })
read_array name n (ArrowArray.binary cells) =
    ok (record (empty_column name DataType.bytes (marks n cells)) { bytes = values_or [] cells })
read_array name n (ArrowArray.other t rows null_rows) =
    err (errorf "column %q has unsupported Arrow type %s" (str name ∷ str t ∷ []))

-- The loop over the fields.
unfoldable pub read_columns : List ArrowColumn → Result (List Column)
read_columns [] = ok []
read_columns (c ∷ cs) = do
  column ← read_array c.name (null_count c.array) c.array
  columns ← read_columns cs
  ok (column ∷ columns)

-- `uint32(record.NumRows())`
abbrev pub rows_of : ℤ → ℕ
rows_of (pos n) = n % 2 ^ 32
rows_of (negsuc n) = 2 ^ 32 - 1 - n % 2 ^ 32

-- `ArrowToBatch`
unfoldable pub arrow_to_batch : (arrow : Arrow) → Option arrow.RecordBatch → Result Batch
arrow_to_batch arrow none = err (errorf "Arrow record batch is nil" [])
arrow_to_batch arrow (some r) = do
  validate_arrow_record arrow (some r)
  columns ← read_columns (arrow.columns r)
  let result : Batch = record { row_count = rows_of (arrow.num_rows r); columns = columns }
  wrap "converted Arrow batch is invalid: %w" [] (validate_batch result)
  ok result
