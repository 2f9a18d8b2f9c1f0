-- ===== src/Transport/Messages/Tests.antt =====
-- runner/v1/transport.go: whole messages through the transport, run on small inputs.
use nodima_sdk.Base.{
  some, [], ◌∷◌, ◌++◌, ◌≡◌, refl, ok, eof, arith, List, contains, ap, map, All, subst,
}
use nodima_sdk.Message.{validate_message, validate_placement}
use nodima_sdk.Message.Types.{Message, output_batch, new_message}
use nodima_sdk.Message.Content.{validate_content, check_batch}
use nodima_sdk.Arrow.{validate_arrow_record}
use nodima_sdk.Arrow.Convert.{
  batch_to_arrow, arrow_to_batch, make_fields, arrow_type, append_columns, append_column,
}
use nodima_sdk.Arrow.Convert.Normal.{normal}
use nodima_sdk.Arrow.Convert.RoundTrip.{arrow_to_batch-batch_to_arrow}
use nodima_sdk.Batch.{validate_batch, validate_columns, validate_values, value_length}
use nodima_sdk.Transport.Messages.Accept.{decode_message-valid}
use nodima_sdk.Transport.Messages.RoundTrip.{decode_message-encode_message}
use nodima_sdk.Transport.Messages.Channel
use nodima_sdk.Transport.Frames.{frame}
use nodima_sdk.Transport.Batches
use nodima_sdk.Transport.Samples.{
  hello, label, toy, ids, two_rows, rows, rows-Builds, hello-Travels, label-Travels,
}

two_rows-valid : validate_batch two_rows ≡ ok tt
unfolding validate_batch validate_columns contains validate_values value_length
two_rows-valid = refl

arrow_to_batch-batch_to_arrow_example :
    (r : rows.RecordBatch) × (batch_to_arrow rows two_rows ≡ ok r)
    × (validate_arrow_record rows (some r) ≡ ok tt)
    × (arrow_to_batch rows (some r) ≡ ok (normal two_rows))
    × (validate_batch (normal two_rows) ≡ ok tt)
arrow_to_batch-batch_to_arrow_example =
    arrow_to_batch-batch_to_arrow rows rows-Builds two_rows two_rows-valid (omega arith)

abbrev loaded : Message
loaded = record (new_message output_batch) {
  execution_id = "run";
  node_id = "n";
  port_id = "out";
  sequence = 1;
  batch = some two_rows;
}

abbrev greeting : Channel.Parcel
greeting = Channel.plain hello (7 ∷ (1 ∷ []))

abbrev cargo : Channel.Parcel
cargo = Channel.loaded loaded two_rows (7 ∷ (3 ∷ [])) (8 ∷ (9 ∷ (5 ∷ [])))

two_rows-arrow : batch_to_arrow rows two_rows ≡ ok ids
unfolding batch_to_arrow validate_batch validate_columns contains validate_values value_length
    make_fields arrow_type append_columns append_column
two_rows-arrow = refl

loaded-valid : validate_message loaded ≡ ok tt
unfolding validate_message validate_placement validate_content check_batch validate_batch
    validate_columns contains validate_values value_length
loaded-valid = refl

cargo-IsCarried : Channel.IsCarried rows toy 64 100 cargo
cargo-IsCarried = (
  loaded-valid,
  refl,
  refl,
  omega arith,
  λ r e.
      subst (λ x. Batches.Travels rows toy 64 label x (7 ∷ (3 ∷ [])) (8 ∷ (9 ∷ (5 ∷ []))))
        (cc (e, two_rows-arrow)) label-Travels,
)

-- Two sends, a receive, a send, and four receives, the last of an empty pipe.
abbrev traffic : List Channel.Op
traffic =
    Channel.send cargo
    ∷ (Channel.send greeting
        ∷ (Channel.receive
            ∷ (Channel.send cargo
                ∷ (Channel.receive ∷ (Channel.receive ∷ (Channel.receive ∷ []))))))

pipe-refines_queue_example :
    (ps : List Channel.Parcel) × (Channel.run (Channel.pipe_step rows toy 64 100) traffic []
      ≡ ((Channel.run Channel.queue_step traffic []).0, Channel.wire_of ps))
    × ((Channel.run Channel.queue_step traffic []).1 ≡ map Channel.message_in ps)
    × All (Channel.IsCarried rows toy 64 100) ps
pipe-refines_queue_example =
    Channel.pipe-refines_queue rows toy 64 100 rows-Builds (omega arith) (omega arith) traffic []
      (cargo-IsCarried, (hello-Travels, (cargo-IsCarried, tt))) tt

decode_message-valid_example : validate_message hello ≡ ok tt
decode_message-valid_example =
    decode_message-valid rows toy 100
      (record { content = frame 1 (7 ∷ (1 ∷ [])) ++ (3 ∷ []); final = eof }) hello
      (ap (λ p. p.0)
        (decode_message-encode_message rows toy 64 hello (7 ∷ (1 ∷ [])) 100 [] (3 ∷ []) eof
          hello-Travels (omega arith) (omega arith)).1)
