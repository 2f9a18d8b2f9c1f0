-- ===== src/Base/Errors.antt =====
-- Go's `(value, error)`: a result with the value or the error, and the chain of early returns.
use Prim.Native.Nat.{ℕ}
use Prim.Native.String.{String}
use mathlib.Core.Path.{◌≡◌, refl, ap}
use mathlib.Core.Bool.{Bool, true, false}
use mathlib.Core.Logic.{◌↔◌, ◌⊎◌, inl, inr}
use mathlib.Core.List.{List}
use native.Mathlib.Omega.{arith}
use nodima_sdk.Base.Int.{ℤ}

-- What a format verb prints.
pub data Arg : Type 0 where
  str : String → Arg
  num : ℕ → Arg
  int : ℤ → Arg
  raw : List ℕ → Arg

-- `errors.New` and `fmt.Errorf` are the format and the values put into it; `wrapf` is an
-- `fmt.Errorf` whose last verb is `%w`. The others are the sentinel values of package io, and an
-- error that code outside the repository returned. `panic` is no Go error: the program ends by a
-- nil dereference.
pub data Error : Type 0 where
  errorf : String → List Arg → Error
  wrapf : String → List Arg → Error → Error
  eof unexpected_eof no_progress : Error
  external : String → Error
  panic : Error

pub data Result {ℓ} (A : Type ℓ) : Type ℓ where
  ok : A → Result A
  err : Error → Result A

-- The result of a function that returns only `error`; `ok tt` is nil.
abbrev pub Check : Type 0
Check = Result (Unit {0})

infixl 5 ◌>>=◌ ◌>>◌
abbrev pub ◌>>=◌ {ℓ κ} : {A : Type ℓ} {B : Type κ} → Result A → (A → Result B) → Result B
err e >>= next = err e
ok x >>= next = next x

-- Go on after a nil error.
abbrev pub ◌>>◌ {ℓ} : {B : Type ℓ} → Check → Result B → Result B
check >> rest = check >>= λ u. rest

-- `if b { return e }`
abbrev pub reject : Bool → Error → Check
reject true e = err e
reject false e = ok tt

-- `if err := r; err != nil { return fmt.Errorf(format, …, err) }`
abbrev pub wrap {ℓ} : {A : Type ℓ} → String → List Arg → Result A → Result A
wrap format args (ok a) = ok a
wrap format args (err e) = err (wrapf format args e)

-- A chain that succeeds has a first step that succeeds.
pub >>=-eq-ok {ℓ κ} :
    {A : Type ℓ} {B : Type κ} (first : Result A) (next : A → Result B) {last : B}
    → (first >>= next) ≡ ok last
    → (x : A) × (first ≡ ok x) × (next x ≡ ok last)
>>=-eq-ok (err e) next p = cc
>>=-eq-ok (ok x) next p = (x, refl, p)

pub >>-eq-ok {ℓ} :
    {B : Type ℓ} (m : Check) (k : Result B) {b : B} → (m >> k) ≡ ok b → (m ≡ ok tt) × (k ≡ ok b)
>>-eq-ok (ok tt) k h = (refl, h)
>>-eq-ok (err e) k h = cc

pub wrap-eq-ok {ℓ} :
    {A : Type ℓ} (format : String) (args : List Arg) (r : Result A) {a : A}
    → wrap format args r ≡ ok a
    → r ≡ ok a
wrap-eq-ok format args (ok b) h = h
wrap-eq-ok format args (err e) h = cc

pub reject-eq-ok : (b : Bool) (e : Error) → reject b e ≡ ok tt → b ≡ false
reject-eq-ok true e h = cc
reject-eq-ok false e h = refl

-- A chain of checks passes when each does: what each asks, side by side.
pub chain_iff {ℓ κ} :
    {P : Type ℓ} {Q : Type κ} {m k : Check}
    → ((m ≡ ok tt) ↔ P)
    → ((k ≡ ok tt) ↔ Q)
    → ((m >> k) ≡ ok tt) ↔ (P × Q)
chain_iff p q =
    (λ h. let (a, b) = >>-eq-ok _ _ h in (p.0 a, q.0 b), λ (a, b). both _ _ (p.1 a) (q.1 b))
  where
    both : (m k : Check) → m ≡ ok tt → k ≡ ok tt → (m >> k) ≡ ok tt
    both (ok u) k e f = f
    both (err x) k e f = cc e

pub reject_iff : (b : Bool) (e : Error) → (reject b e ≡ ok tt) ↔ (b ≡ false)
reject_iff b e = ground arith

pub wrap_iff {ℓ} :
    {P : Type ℓ} (format : String) (args : List Arg) {r : Check}
    → ((r ≡ ok tt) ↔ P)
    → (wrap format args r ≡ ok tt) ↔ P
wrap_iff format args {r} p = (λ h. p.0 (wrap-eq-ok format args r h), λ h. same r (p.1 h))
  where
    same : (r : Check) → r ≡ ok tt → wrap format args r ≡ ok tt
    same (ok u) e = refl
    same (err x) e = cc e

pub Result-cases {ℓ} :
    {A : Type ℓ} (r : Result A) → ((a : A) × (r ≡ ok a)) ⊎ ((e : Error) × (r ≡ err e))
Result-cases (ok a) = inl (a, refl)
Result-cases (err e) = inr (e, refl)

-- A computation whose only possible result is known either returns it or fails.
pub determined {ℓ κ} :
    {A : Type ℓ} {P : Type κ} (v : Result A) (c : A)
    → ((r : A) → (v ≡ ok r) ↔ (P × (r ≡ c)))
    → ((v ≡ ok c) × P) ⊎ ((e : Error) × (v ≡ err e) × ¬ P)
determined (ok a) c h = let (p, e) = (h a).0 refl in inl (ap ok e, p)
determined (err e) c h = inr (e, refl, λ p. cc ((h c).1 (p, refl)))
