-- ===== src/Wire/Tests.antt =====
-- runner/v1/codec.go: `writeAll`, run on a writer that takes little at a time.
use nodima_sdk.Base.{none, some, [], ◌∷◌, ◌≡◌, refl, err, external, arith}
use nodima_sdk.Base.Int.{pos}
use nodima_sdk.Wire.{Writer, write_all, write_rounds, write, advance}
use nodima_sdk.Wire.Writing.{Wrote, write_all-Wrote, write_rounds-enough}

-- Takes two bytes, then one, then fails.
abbrev slow : Writer
slow = record {
  answers =
      record { count = pos 2; failure = none }
      ∷ (record { count = pos 1; failure = none }
          ∷ (record { count = pos 0; failure = some (external "full") } ∷ []));
  sent = 9 ∷ [];
}

two_rounds : (write_all (1 ∷ (2 ∷ (3 ∷ []))) slow).1.sent ≡ 9 ∷ (1 ∷ (2 ∷ (3 ∷ [])))
unfolding write_all write_rounds write advance
two_rounds = refl

failed_round : (write_all (1 ∷ (2 ∷ (3 ∷ (4 ∷ [])))) slow).0 ≡ err (external "full")
unfolding write_all write_rounds write advance
failed_round = refl

write_all-Wrote_example :
    Wrote (1 ∷ (2 ∷ (3 ∷ (4 ∷ [])))) (9 ∷ []) (write_all (1 ∷ (2 ∷ (3 ∷ (4 ∷ [])))) slow)
write_all-Wrote_example = write_all-Wrote (1 ∷ (2 ∷ (3 ∷ (4 ∷ [])))) slow

write_rounds-enough_example :
    write_rounds 5 (1 ∷ (2 ∷ (3 ∷ []))) slow ≡ write_all (1 ∷ (2 ∷ (3 ∷ []))) slow
write_rounds-enough_example = write_rounds-enough 5 (1 ∷ (2 ∷ (3 ∷ []))) slow (omega arith)
