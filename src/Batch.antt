-- ===== src/Batch.antt =====
-- runner/v1/message.go: the columnar batch and its validation. The program only moves 64-bit
-- integers and floats, so each is the number that its bit pattern spells.
pub mod Valid
mod Tests
use nodima_sdk.Base.{
  ℕ, suc, ◌+◌, String, Bool, not, List, [], ◌∷◌, length, Check, ok, err, errorf, wrap, str, num,
  reject, ◌>>=◌, ◌>>◌, ◌==◌, ◌&&◌, eqb, ltb, is_empty, contains, Result,
}

-- A Go string type with named constants; `other` is a text that is none of them.
pub data DataType : Type 0 where
  boolean int64 float64 string bytes : DataType
  other : String → DataType

pub record Column : Type 0 where
  pub name : String
  pub type : DataType
  pub valid : List Bool
  pub boolean : List Bool
  pub int64 : List ℕ
  pub float64 : List ℕ
  pub string : List String
  pub bytes : List (List ℕ)

pub record Batch : Type 0 where
  pub row_count : ℕ
  pub columns : List Column

length_by : DataType → Column → Result ℕ
length_by boolean c = ok (length c.boolean)
length_by int64 c = ok (length c.int64)
length_by float64 c = ok (length c.float64)
length_by string c = ok (length c.string)
length_by bytes c = ok (length c.bytes)
length_by (other t) c = err (errorf "unsupported data type %q" (str t ∷ []))

-- `Column.valueLength`
unfoldable pub value_length : Column → Result ℕ
unfolding length_by
value_length c = length_by c.type c

-- The part of the loop's body below the registration of the name.
unfoldable pub validate_values : ℕ → Column → Check
validate_values row_count c = do
  reject (not (is_empty c.valid) && not (eqb (length c.valid) row_count)) (
      errorf "column %q validity length is %d, want %d"
        (str c.name ∷ num (length c.valid) ∷ num row_count ∷ []))
  n ← wrap "column %q: %w" (str c.name ∷ []) (value_length c)
  reject (not (eqb n row_count))
      (errorf "column %q value length is %d, want %d" (str c.name ∷ num n ∷ num row_count ∷ []))

-- The loop over the columns; `names` is the map of the names seen.
unfoldable pub validate_columns : ℕ → ℕ → List String → List Column → Check
validate_columns row_count index names [] = ok tt
validate_columns row_count index names (c ∷ cs) = do
  reject (c.name == "") (errorf "column %d has no name" (num index ∷ []))
  reject (contains names c.name) (errorf "duplicate column name %q" (str c.name ∷ []))
  validate_values row_count c
  validate_columns row_count (index + 1) (c.name ∷ names) cs

-- `Batch.Validate`
unfoldable pub validate_batch : Batch → Check
validate_batch b = do
  reject (is_empty b.columns && ltb 0 b.row_count)
      (errorf "non-empty batch requires at least one column" [])
  validate_columns b.row_count 0 [] b.columns
