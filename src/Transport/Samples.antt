-- ===== src/Transport/Samples.antt =====
-- Small messages, batches and libraries for the tests of the transport.
use nodima_sdk.Base.{
  some, none, true, false, [], ◌∷◌, refl, ok, eof, arith, List, length, contains, ◌==◌, eqb, ap,
  if◌then◌else◌,
}
use nodima_sdk.Base.Int.{ℤ, pos}
use nodima_sdk.Session.{abi_version}
use nodima_sdk.Message.{validate_message, validate_placement}
use nodima_sdk.Message.Types.{Message, ready, completed, output_batch, new_message}
use nodima_sdk.Message.Content.{validate_content}
use nodima_sdk.Metadata.{BatchMetadata, validate_metadata}
use nodima_sdk.Cbor.{Cbor}
use nodima_sdk.Arrow.{
  Arrow, ArrowArray, ArrowColumn, array_length, null_count, validate_arrow_record, validate_shape,
  validate_columns,
}
use nodima_sdk.Arrow.Convert.{empty_column}
use nodima_sdk.Arrow.Convert.Normal.{cells_of}
use nodima_sdk.Arrow.Convert.Columns.{Builds}
use nodima_sdk.Batch.{Batch, DataType}
use nodima_sdk.Wire.{Writer}
use nodima_sdk.Transport.Control
use nodima_sdk.Transport.Batches

abbrev pub hello : Message
hello = record (new_message ready) { execution_id = "run"; node_id = "n" }

abbrev pub done : Message
done = new_message completed

abbrev pub label : BatchMetadata
label = record {
  abi = abi_version;
  type = output_batch;
  execution_id = "run";
  node_id = "n";
  port_id = "out";
  edge_id = "";
  sequence = 1;
}

-- A coding of two messages and one metadata value in two or three bytes.
abbrev pub toy : Cbor
toy = record {
  marshal = λ m. if m.node_id == "n" then ok (7 ∷ (1 ∷ [])) else ok (7 ∷ (2 ∷ (2 ∷ [])));
  unmarshal = λ bytes. if eqb (length bytes) 2 then ok hello else ok done;
  marshal_metadata = λ m. ok (7 ∷ (3 ∷ []));
  unmarshal_metadata = λ bytes. ok label;
}

abbrev pub rows_in : List ArrowColumn → ℤ
rows_in [] = pos 0
rows_in (c ∷ cs) = pos (array_length c.array)

-- Two rows of one nullable integer column, the second of them null; and the batch.
abbrev pub ids : List ArrowColumn
ids = record { name = "id"; nullable = true; array = ArrowArray.int64 (some 4 ∷ (none ∷ [])) } ∷ []

abbrev pub two_rows : Batch
two_rows = record {
  row_count = 2;
  columns =
      record (empty_column "id" DataType.int64 (true ∷ (false ∷ []))) { int64 = 4 ∷ (6 ∷ []) } ∷ [];
}

-- Records that are their columns; a stream is three bytes, and holds the two rows.
abbrev pub rows : Arrow
rows = record {
  RecordBatch = List ArrowColumn;
  num_rows = rows_in;
  num_cols = λ r. pos (length r);
  columns = λ r. r;
  append_values = λ A xs vs. cells_of xs vs;
  new_record = λ cs. cs;
  write_chunks = λ r. (8 ∷ (9 ∷ [])) ∷ [];
  write_failure = λ r. none;
  close_chunks = λ r. (5 ∷ []) ∷ [];
  close_failure = λ r. none;
  report = λ e. e;
  read_records = λ bytes. ok (ids ∷ [], none);
}

pub rows-Builds : Builds rows
rows-Builds = record {
  appended = λ A xs vs h. refl;
  same_columns = λ n cs h. refl;
  no_rows = refl;
  same_rows = λ n c cs h. ap pos h.0;
  same_cols = λ n cs h. refl;
}

abbrev pub slow : Writer
slow = record { answers = record { count = pos 3; failure = some eof } ∷ []; sent = [] }

pub hello-Travels : Control.Travels toy 64 hello (7 ∷ (1 ∷ []))
unfolding validate_message validate_placement validate_content
hello-Travels = record {
  plain = refl;
  valid = refl;
  marshalled = refl;
  unmarshalled = refl;
  positive = omega arith;
  fits = omega arith;
}

pub done-Travels : Control.Travels toy 64 done (7 ∷ (2 ∷ (2 ∷ [])))
unfolding validate_message validate_placement validate_content
done-Travels = record {
  plain = refl;
  valid = refl;
  marshalled = refl;
  unmarshalled = refl;
  positive = omega arith;
  fits = omega arith;
}

pub label-Travels : Batches.Travels rows toy 64 label ids (7 ∷ (3 ∷ [])) (8 ∷ (9 ∷ (5 ∷ [])))
unfolding validate_metadata validate_arrow_record validate_shape validate_columns contains
    array_length null_count
label-Travels = record {
  valid_metadata = refl;
  valid_record = refl;
  marshalled = refl;
  unmarshalled = refl;
  written = refl;
  unfailing = (refl, refl);
  read = refl;
  some_bytes = omega arith;
  few_bytes = omega arith;
  some_stream = omega arith;
  fits = omega arith;
}
