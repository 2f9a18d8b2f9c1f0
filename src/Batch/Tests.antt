-- ===== src/Batch/Tests.antt =====
-- runner/v1/message.go: validation of columnar batches, run on small inputs.
use nodima_sdk.Base.{
  String, true, false, [], ◌∷◌, ◌≡◌, ◌↔◌, refl, List, Bool, ok, err, errorf, str, contains,
}
use nodima_sdk.Batch.{
  Batch, Column, int64, string, validate_batch, validate_columns, validate_values, value_length,
}
use nodima_sdk.Batch.Valid.{IsValid, validate_batch_iff}

abbrev ids : Column
ids = record {
  name = "id";
  type = int64;
  valid = [];
  boolean = [];
  int64 = 7 ∷ (8 ∷ []);
  float64 = [];
  string = [];
  bytes = [];
}

abbrev names : List Bool → String → Column
names valid name = record {
  name = name;
  type = string;
  valid = valid;
  boolean = [];
  int64 = [];
  float64 = [];
  string = "a" ∷ ("b" ∷ []);
  bytes = [];
}

abbrev two_rows : Batch
two_rows = record { row_count = 2; columns = ids ∷ (names (true ∷ (false ∷ [])) "name" ∷ []) }

two_rows-accepted : validate_batch two_rows ≡ ok tt
unfolding validate_batch validate_columns validate_values value_length contains
two_rows-accepted = refl

repeated-refused :
    validate_batch (record { row_count = 2; columns = ids ∷ (names [] "id" ∷ []) })
    ≡ err (errorf "duplicate column name %q" (str "id" ∷ []))
unfolding validate_batch validate_columns validate_values value_length contains
repeated-refused = refl

validate_batch_iff_example : (validate_batch two_rows ≡ ok tt) ↔ IsValid two_rows
validate_batch_iff_example = validate_batch_iff two_rows
