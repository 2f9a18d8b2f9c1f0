-- ===== src/Transport/Payload/Limited.antt =====
-- The limited writer passes exactly the streams that fit.
use nodima_sdk.Base.{
  ℕ, ◌-◌, ◌≡◌, List, [], ◌∷◌, ◌++◌, length, ok, err, errorf, leb, arith, length-append,
  if◌then◌else◌,
}
use nodima_sdk.Transport.Payload.{write_limited}
use mathlib.Core.List.{append_assoc, append-nil}

abbrev pub concat : List (List ℕ) → List ℕ
concat [] = []
concat (c ∷ cs) = c ++ concat cs

-- Chunks that fit the limit together are all written, in order, behind the buffer; chunks that do
-- not are refused.
pub write_limited_lem :
    (remaining : ℕ) (buffer : List ℕ) (chunks : List (List ℕ))
    → write_limited remaining buffer chunks ≡ (
        if leb (length (concat chunks)) remaining
        then ok (buffer ++ concat chunks)
        else err (errorf "Arrow IPC payload exceeds runner frame limit" []))
unfolding write_limited
write_limited_lem remaining buffer [] = ground (arith, append-nil buffer)
write_limited_lem remaining buffer (c ∷ cs) = ground (
  arith,
  length-append c (concat cs),
  append_assoc buffer c (concat cs),
  write_limited_lem (remaining - length c) (buffer ++ c) cs,
)
