-- ===== src/Base/Action.antt =====
-- Methods that change an object and may fail: what was done before a failure stays done.
use mathlib.Core.List.{List}
use Prim.Native.String.{String}
use nodima_sdk.Base.Errors.{Result, ok, err, Arg, wrap}

abbrev pub Action {ℓ} : Type ℓ → Type ℓ → Type ℓ
Action S A = S → Result A × S

abbrev pub lift {ℓ} : {S A : Type ℓ} → Result A → Action S A
lift r s = (r, s)

abbrev pub continue {ℓ} : {S A B : Type ℓ} → Result A → (A → Action S B) → Action S B
continue (ok a) f s = f a s
continue (err e) f s = (err e, s)

infixl 5 ◌>>=◌ ◌>>◌
abbrev pub ◌>>=◌ {ℓ} : {S A B : Type ℓ} → Action S A → (A → Action S B) → Action S B
◌>>=◌ m f s = let (r, s') = m s in continue r f s'

abbrev pub ◌>>◌ {ℓ} : {S A B : Type ℓ} → Action S A → Action S B → Action S B
m >> n = m >>= λ _. n

-- `if err := m(); err != nil { return fmt.Errorf(format, …, err) }`
abbrev pub wrapping {ℓ} : {S A : Type ℓ} → String → List Arg → Action S A → Action S A
wrapping format args m s = let (r, s') = m s in (wrap format args r, s')
