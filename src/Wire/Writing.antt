-- ===== src/Wire/Writing.antt =====
-- What `writeAll` leaves behind, whatever the writer answers.
use nodima_sdk.Base.{
  ℕ, zero, suc, ◌≤◌, ◌≡◌, refl, sym, ap, ◌∙◌, none, List, [], ◌∷◌, ◌++◌, length, take, drop, Result,
  Result-cases, ok, err, Error, arith, inl, inr, length-drop, take-append-drop,
}
use nodima_sdk.Base.Int.{pos}
use nodima_sdk.Wire.{Answer, Writer, taken, write, advance, write_rounds, write_all, write_by}
use mathlib.Core.List.{append_assoc, append-nil}

advance_lem :
    (payload : List ℕ) (a : Answer) (rest : List ℕ)
    → advance payload a ≡ ok rest
    → (1 ≤ taken a.count) × (taken a.count ≤ length payload) × (rest ≡ drop (taken a.count) payload)
unfolding advance
advance_lem payload a rest h = ground arith

take_all : (xs : List ℕ) → take (length xs) xs ≡ xs
take_all [] = refl
take_all (x ∷ xs) = ap (λ l. x ∷ l) (take_all xs)

by-sent :
    (answers : List Answer) (payload sent : List ℕ)
    → (write_by answers payload sent).1.sent
      ≡ sent ++ take (taken (write_by answers payload sent).0.count) payload
unfolding write_by
by-sent [] payload sent = ap (λ l. sent ++ l) (sym (take_all payload))
by-sent (a ∷ rest) payload sent = refl

write-sent :
    (payload : List ℕ) (w : Writer)
    → (write payload w).1.sent ≡ w.sent ++ take (taken (write payload w).0.count) payload
unfolding write
write-sent payload w = by-sent w.answers payload w.sent

-- After success everything was sent; after an error a part of it, from its start.
abbrev pub Wrote : List ℕ → List ℕ → Result (Unit {0}) × Writer → Type 0
Wrote payload sent (ok u, w) = w.sent ≡ sent ++ payload
Wrote payload sent (err e, w) =
    (front : List ℕ) × (back : List ℕ) × (front ++ back ≡ payload) × (w.sent ≡ sent ++ front)

-- A round that took `front`, before the rounds for the rest.
pub Wrote-append :
    (front rest payload sent sent' : List ℕ) (r : Result (Unit {0}) × Writer)
    → front ++ rest ≡ payload
    → sent' ≡ sent ++ front
    → Wrote rest sent' r
    → Wrote payload sent r
Wrote-append front rest payload sent sent' (ok u, w) e f h =
    rw (h, f, append_assoc) (ap (λ l. sent ++ l) e)
Wrote-append front rest payload sent sent' (err x, w) e f (before, after, g, h) = (
  front ++ before,
  after,
  append_assoc front before after ∙ ap (λ l. front ++ l) g ∙ e,
  h ∙ ap (λ l. l ++ before) f ∙ append_assoc sent front before,
)

module _ (payload : List ℕ) (w : Writer) where
  abbrev answer : Answer
  answer = (write payload w).0

  abbrev front : List ℕ
  front = take (taken answer.count) payload

  round_failed : (e : Error) → Wrote payload w.sent (err e, (write payload w).1)
  round_failed e = (
    front,
    drop (taken answer.count) payload,
    take-append-drop (taken answer.count) payload,
    write-sent payload w,
  )

  round_passed :
      (rest : List ℕ) (r : Result (Unit {0}) × Writer)
      → advance payload answer ≡ ok rest
      → Wrote rest (write payload w).1.sent r
      → Wrote payload w.sent r
  round_passed rest r e h =
      let (_, _, f) = advance_lem payload answer rest e in
      Wrote-append front rest payload w.sent (write payload w).1.sent r
        (ap (λ l. front ++ l) f ∙ take-append-drop (taken answer.count) payload)
        (write-sent payload w) h

  shorter : (rest : List ℕ) → advance payload answer ≡ ok rest → suc (length rest) ≤ length payload
  shorter rest e =
      let (a, b, f) = advance_lem payload answer rest e in
      omega (arith, ap length f, length-drop (taken answer.count) payload)

rounds_lem :
    (fuel : ℕ) (payload : List ℕ) (w : Writer)
    → length payload ≤ fuel
    → Wrote payload w.sent (write_rounds fuel payload w)
unfolding write_rounds
rounds_lem fuel [] w h = sym (append-nil w.sent)
rounds_lem zero (b ∷ bs) w h = absurd (omega arith)
rounds_lem (suc fuel) (b ∷ bs) w h = elim (Result-cases (advance (b ∷ bs) (answer (b ∷ bs) w))) [
  | inr (e, p) ↦ rw (p, write_rounds) (round_failed (b ∷ bs) w e)
  | inl (rest, p) ↦
      rw (p, write_rounds)
        (round_passed (b ∷ bs) w rest _ p
          (rounds_lem fuel rest (write (b ∷ bs) w).1 (omega (arith, shorter (b ∷ bs) w rest p))))
]

same_rounds :
    (f g : ℕ) (payload : List ℕ) (w : Writer)
    → length payload ≤ f
    → length payload ≤ g
    → write_rounds f payload w ≡ write_rounds g payload w
unfolding write_rounds
same_rounds f g [] w h k = refl
same_rounds zero g (b ∷ bs) w h k = absurd (omega arith)
same_rounds (suc f) zero (b ∷ bs) w h k = absurd (omega arith)
same_rounds (suc f) (suc g) (b ∷ bs) w h k =
    elim (Result-cases (advance (b ∷ bs) (answer (b ∷ bs) w))) [
      | inr (e, p) ↦ rw (p, write_rounds) refl
      | inl (rest, p) ↦
          rw (p, write_rounds)
            (same_rounds f g rest (write (b ∷ bs) w).1 (omega (arith, shorter (b ∷ bs) w rest p))
              (omega (arith, shorter (b ∷ bs) w rest p)))
    ]

-- However the writer answers its calls, `writeAll` without an error has sent the whole payload
-- behind what was sent before, and with an error a prefix of it.
pub write_all-Wrote : (payload : List ℕ) (w : Writer) → Wrote payload w.sent (write_all payload w)
unfolding write_all
write_all-Wrote payload w = rounds_lem (length payload) payload w (omega arith)

-- More rounds than bytes change nothing: the loop of `writeAll` has ended by itself.
pub write_rounds-enough :
    (fuel : ℕ) (payload : List ℕ) (w : Writer)
    → length payload ≤ fuel
    → write_rounds fuel payload w ≡ write_all payload w
unfolding write_all
write_rounds-enough fuel payload w h = same_rounds fuel (length payload) payload w h (omega arith)

drop_all : (xs : List ℕ) → drop (length xs) xs ≡ []
drop_all [] = refl
drop_all (x ∷ xs) = drop_all xs

advance_whole :
    (b : ℕ) (bs : List ℕ)
    → advance (b ∷ bs) (record { count = pos (suc (length bs)); failure = none }) ≡ ok []
unfolding advance
advance_whole b bs = ground (arith, drop_all bs)

-- A writer that has no answer of its own takes everything.
pub write_all_free :
    (payload sent : List ℕ)
    → write_all payload (record { answers = []; sent = sent })
      ≡ (ok tt, record { answers = []; sent = sent ++ payload })
unfolding write_all write_rounds write
write_all_free [] sent = rw append-nil refl
write_all_free (b ∷ bs) sent = rw (advance_whole b bs, write_rounds) refl
