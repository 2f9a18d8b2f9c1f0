-- ===== src/Wire.antt =====
-- What runner/v1/codec.go and runner/v1/transport.go take from Go's io and encoding/binary, and
-- `writeAll`. A byte is a number below 256.
--
-- A reader is the bytes that are still to come and the error that it reports behind them; how it
-- cuts them into reads does not show through `io.ReadFull`. A writer is the answers that it will
-- give to its next calls, and what it has taken so far; with no answer left it takes all.
pub mod Bytes
pub mod Writing
mod Tests
use nodima_sdk.Base.{
  ℕ, zero, suc, ◌+◌, ◌-◌, Option, some, none, List, [], ◌∷◌, ◌++◌, length, take, drop, Result, ok,
  err, Error, eof, unexpected_eof, no_progress, ◌||◌, ltb, leb, eqb, if◌then◌else◌, is_empty,
}
use nodima_sdk.Base.Int.{ℤ, pos, negsuc, below, above}
use nodima_sdk.Base.Action.{Action}

pub record Reader : Type 0 where
  pub content : List ℕ
  pub final : Error

-- The error of a read that ends early: `io.EOF` is unexpected once a byte was read.
abbrev pub short : List ℕ → Error → Error
short [] e = e
short (b ∷ bs) eof = unexpected_eof
short (b ∷ bs) e = e

-- `io.ReadFull` into a buffer of `n` bytes.
unfoldable pub read_full : ℕ → Action Reader (List ℕ)
read_full n r =
    if leb n (length r.content)
    then (ok (take n r.content), record r { content = drop n r.content })
    else (err (short r.content r.final), record r { content = [] })

-- What a call of `Write` returns.
pub record Answer : Type 0 where
  pub count : ℤ
  pub failure : Option Error

pub record Writer : Type 0 where
  pub answers : List Answer
  pub sent : List ℕ

abbrev pub taken : ℤ → ℕ
taken (pos n) = n
taken (negsuc n) = 0

-- `writer.Write(data)`: the answer, and the bytes that it says were taken.
write_by : List Answer → List ℕ → List ℕ → Answer × Writer
write_by [] payload sent = (
  record { count = pos (length payload); failure = none },
  record { answers = []; sent = sent ++ payload },
)
write_by (a ∷ rest) payload sent =
    (a, record { answers = rest; sent = sent ++ take (taken a.count) payload })

unfoldable pub write : List ℕ → Writer → Answer × Writer
unfolding write_by
write payload w = write_by w.answers payload w.sent

-- The checks of a round of `writeAll` on the answer; the result is the bytes that remain.
unfoldable pub advance : List ℕ → Answer → Result (List ℕ)
advance payload a = elim a.failure [
  | some e ↦ err e
  | none ↦
      if below a.count 1 || above a.count (length payload)
      then err no_progress
      else ok (drop (taken a.count) payload)
]

-- `writeAll`: each round takes a byte at least, so a round for each byte is enough fuel.
pub write_rounds : ℕ → List ℕ → Action Writer (Unit {0})
write_rounds fuel [] w = (ok tt, w)
write_rounds zero (b ∷ bs) w = (err no_progress, w)
write_rounds (suc fuel) (b ∷ bs) w =
    let (a, w') = write (b ∷ bs) w in
    elim (advance (b ∷ bs) a) [ err e ↦ (err e, w') | ok rest ↦ write_rounds fuel rest w' ]

pub write_all : List ℕ → Action Writer (Unit {0})
write_all payload = write_rounds (length payload) payload
