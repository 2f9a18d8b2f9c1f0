-- ===== src/PackagePath/Names.antt =====
-- The elements of paths, and what `path.Clean` makes of them.
use nodima_sdk.Base.{
  ℕ, true, false, List, [], ◌∷◌, ◌++◌, ◌≡◌, ◌≢◌, refl, ap, ◌∙◌, ◌⊎◌, inl, inr, ◌↔◌, All, arith, eqb,
  is_empty, Bool-cases,
}
use mathlib.Core.List.{append-nil}
use nodima_sdk.PackagePath.{
  slash, dot, here, up, equal, has_byte, has_prefix, put_first, split, join, climb, keep, keep_all,
  turn, is_abs, clean,
}

pub equal_iff : (xs ys : List ℕ) → (equal xs ys ≡ true) ↔ (xs ≡ ys)
unfolding equal
equal_iff [] [] = ground arith
equal_iff [] (y ∷ ys) = ground arith
equal_iff (x ∷ xs) [] = ground arith
equal_iff (x ∷ xs) (y ∷ ys) = ground (arith, equal_iff xs ys)

-- The name of a file or a directory: not empty, with no slash, and neither `.` nor `..`.
pub record IsName (c : List ℕ) : Type 0 where
  pub present : c ≢ []
  pub whole : has_byte slash c ≡ false
  pub real : (c ≢ here) × (c ≢ up)

abbrev pub IsFlat : List ℕ → Type 0
IsFlat c = has_byte slash c ≡ false

put_first-IsFlat :
    (b : ℕ) (cs : List (List ℕ)) → eqb b slash ≡ false → All IsFlat cs → All IsFlat (put_first b cs)
unfolding has_byte
put_first-IsFlat b [] h a = ground arith
put_first-IsFlat b (c ∷ cs) h (p, a) = (ground arith, a)

pub split-IsFlat : (v : List ℕ) → All IsFlat (split v)
unfolding split has_byte
split-IsFlat [] = (refl, tt)
split-IsFlat (b ∷ bs) = elim (Bool-cases (eqb b slash)) [
  | inl p ↦ rw p (refl, split-IsFlat bs)
  | inr p ↦ rw p (put_first-IsFlat b (split bs) p (split-IsFlat bs))
]

-- What is kept, in reverse: names over a number of `..`.
abbrev pub IsKept : List (List ℕ) → Type 0
IsKept [] = Unit
IsKept (c ∷ cs) = (IsName c × IsKept cs) ⊎ ((c ≡ up) × All (λ d. d ≡ up) cs)

climb-IsKept : (cs : List (List ℕ)) → IsKept cs → IsKept (climb false cs)
unfolding climb
climb-IsKept [] k = inr (refl, tt)
climb-IsKept (c ∷ cs) (inr (e, a)) = rw ((equal_iff c up).1 e) (inr (refl, (e, a)))
climb-IsKept (c ∷ cs) (inl (n, k)) = elim (Bool-cases (equal c up)) [
  | inl p ↦ absurd (n.real.1 ((equal_iff c up).0 p))
  | inr p ↦ rw p k
]

keep-IsKept : (cs : List (List ℕ)) (c : List ℕ) → IsFlat c → IsKept cs → IsKept (keep false cs c)
unfolding keep
keep-IsKept cs [] f k = k
keep-IsKept cs (b ∷ bs) f k = elim (Bool-cases (equal (b ∷ bs) here)) [
  | inl p ↦ rw p k
  | inr p ↦ elim (Bool-cases (equal (b ∷ bs) up)) [
    | inl q ↦ rw (p, q) (climb-IsKept cs k)
    | inr q ↦
        let name : IsName (b ∷ bs) = record {
          present = λ e. cc e;
          whole = f;
          real = (
            λ e. cc (p, (equal_iff (b ∷ bs) here).1 e),
            λ e. cc (q, (equal_iff (b ∷ bs) up).1 e),
          );
        } in
        rw (p, q) (inl (name, k))
  ]
]

pub keep_all-IsKept :
    (kept cs : List (List ℕ)) → All IsFlat cs → IsKept kept → IsKept (keep_all false kept cs)
unfolding keep_all
keep_all-IsKept kept [] f k = k
keep_all-IsKept kept (c ∷ cs) (p, f) k =
    keep_all-IsKept (keep false kept c) cs f (keep-IsKept kept c p k)

-- In order: names alone, or `..` first.
abbrev pub IsTurned : List (List ℕ) → Type 0
IsTurned cs = All IsName cs ⊎ ((ds : List (List ℕ)) × (cs ≡ up ∷ ds))

turn_ups : (acc cs : List (List ℕ)) → All (λ d. d ≡ up) cs → IsTurned acc → IsTurned (turn acc cs)
unfolding turn
turn_ups acc [] a t = t
turn_ups acc (c ∷ cs) (e, a) t = turn_ups (c ∷ acc) cs a (inr (acc, ap (λ x. x ∷ acc) e))

pub turn-IsKept : (acc cs : List (List ℕ)) → IsKept cs → All IsName acc → IsTurned (turn acc cs)
unfolding turn
turn-IsKept acc [] k a = inl a
turn-IsKept acc (c ∷ cs) (inl (n, k)) a = turn-IsKept (c ∷ acc) cs k (n, a)
turn-IsKept acc (c ∷ cs) (inr (e, u)) a = turn_ups (c ∷ acc) cs u (inr (acc, ap (λ x. x ∷ acc) e))

-- Names are kept as they are.
keep_name : (kept : List (List ℕ)) (c : List ℕ) → IsName c → keep false kept c ≡ c ∷ kept
unfolding keep
keep_name kept [] n = absurd (n.present refl)
keep_name kept (b ∷ bs) n = elim (Bool-cases (equal (b ∷ bs) here)) [
  | inl p ↦ absurd (n.real.0 ((equal_iff (b ∷ bs) here).0 p))
  | inr p ↦ elim (Bool-cases (equal (b ∷ bs) up)) [
    | inl q ↦ absurd (n.real.1 ((equal_iff (b ∷ bs) up).0 q))
    | inr q ↦ rw (p, q) refl
  ]
]

keep_names :
    (kept acc cs : List (List ℕ))
    → All IsName cs
    → turn acc (keep_all false kept cs) ≡ turn (cs ++ acc) kept
unfolding keep_all turn
keep_names kept acc [] a = refl
keep_names kept acc (c ∷ cs) (n, a) = rw (keep_name kept c n) (keep_names (c ∷ kept) acc cs a)

split_flat : (c rest : List ℕ) → IsFlat c → split (c ++ (slash ∷ rest)) ≡ c ∷ split rest
unfolding split has_byte
split_flat [] rest f = refl
split_flat (b ∷ bs) rest f = ground (arith, split_flat bs rest)

split_one : (c : List ℕ) → IsFlat c → split c ≡ c ∷ []
unfolding split has_byte
split_one [] f = refl
split_one (b ∷ bs) f = ground (arith, split_one bs)

split-join :
    (c : List ℕ) (cs : List (List ℕ)) → All IsName (c ∷ cs) → split (join (c ∷ cs)) ≡ c ∷ cs
unfolding join
split-join c [] (n, a) = split_one c n.whole
split-join c (d ∷ ds) (n, a) =
    split_flat c (join (d ∷ ds)) n.whole ∙ ap (λ l. c ∷ l) (split-join d ds a)

-- A path of names cleans to itself.
pub clean_names :
    (c : List ℕ) (cs : List (List ℕ))
    → All IsName (c ∷ cs)
    → is_abs (join (c ∷ cs)) ≡ false
    → clean (join (c ∷ cs)) ≡ join (c ∷ cs)
unfolding clean turn
clean_names c cs a h =
    rw (h, split-join c cs a, keep_names [] [] (c ∷ cs) a) (ap (λ l. join (c ∷ l)) (append-nil cs))

not_here : (x : ℕ) → (x ∷ []) ≢ here → x ≢ dot
not_here x h e = h (ap (λ b. b ∷ []) e)

not_up : (x y : ℕ) → (x ∷ (y ∷ [])) ≢ up → ¬ ((x ≡ dot) × (y ≡ dot))
not_up x y h (e, f) = h (ap (λ b. b ∷ (y ∷ [])) e ∙ ap (λ b. dot ∷ (b ∷ [])) f)

-- What a path of names does not start with.
pub names_start :
    (c : List ℕ) (cs : List (List ℕ))
    → All IsName (c ∷ cs)
    → (is_empty (join (c ∷ cs)) ≡ false)
      × (is_abs (join (c ∷ cs)) ≡ false)
      × (equal (join (c ∷ cs)) here ≡ false)
      × (has_prefix (dot ∷ (dot ∷ (slash ∷ []))) (join (c ∷ cs)) ≡ false)
unfolding join is_abs has_prefix equal has_byte
names_start [] cs (n, a) = absurd (n.present refl)
names_start (x ∷ []) [] (n, a) = ground (arith, n.whole, not_here x n.real.0)
names_start (x ∷ []) (d ∷ ds) (n, a) = ground (arith, n.whole, not_here x n.real.0)
names_start (x ∷ (y ∷ [])) [] (n, a) = ground (arith, n.whole, not_up x y n.real.1)
names_start (x ∷ (y ∷ [])) (d ∷ ds) (n, a) = ground (arith, n.whole, not_up x y n.real.1)
names_start (x ∷ (y ∷ (z ∷ zs))) [] (n, a) = ground (arith, n.whole)
names_start (x ∷ (y ∷ (z ∷ zs))) (d ∷ ds) (n, a) = ground (arith, n.whole)
