-- ===== src/Manifest/Digest.antt =====
-- runner/v1/manifest.go: `FileIntegrity.Validate`, with Go's encoding/hex.
use nodima_sdk.Base.{
  ℕ, ◌+◌, ◌-◌, ◌*◌, ◌<◌, Bool, true, false, not, ◌||◌, eqb, List, [], ◌∷◌, map, ◌≡◌, ◌↔◌, inl, inr,
  refl, Check, Result, Error, Result-cases, ok, err, errorf, num, reject, ◌>>=◌, ◌>>◌,
  if◌then◌else◌, length, All, len, codes, len_ascii, arith,
}
use nodima_sdk.Regex.{within, is_digit, is_upper}
use nodima_sdk.PackagePath.{equal}
use nodima_sdk.PackagePath.Names.{equal_iff}
use nodima_sdk.Manifest.Types.{FileIntegrity}

-- `strings.ToLower` on ASCII; a text with any other character is refused below with the same error.
abbrev pub to_lower : List ℕ → List ℕ
to_lower = map (λ c. if is_upper c then c + 32 else c)

-- The value of a hexadecimal digit.
unfoldable pub hex_digit : ℕ → Result ℕ
hex_digit c =
    if is_digit c
    then ok (c - 48)
    else if within 97 102 c
    then ok (c - 87)
    else if within 65 70 c
    then ok (c - 55)
    else err (errorf "encoding/hex: invalid byte: %#U" (num c ∷ []))

-- `hex.DecodeString`
unfoldable pub decode_hex : List ℕ → Result (List ℕ)
decode_hex [] = ok []
decode_hex (a ∷ []) = do x ← hex_digit a; err (errorf "encoding/hex: odd length hex string" [])
decode_hex (a ∷ (b ∷ rest)) = do
  x ← hex_digit a
  y ← hex_digit b
  bytes ← decode_hex rest
  ok ((x * 16 + y) ∷ bytes)

-- `if _, err := hex.DecodeString(s); err != nil { return errors.New(…) }`
abbrev pub check_hex : Result (List ℕ) → Check
check_hex (ok bytes) = ok tt
check_hex (err e) = err (errorf "sha256 must be 64 lowercase hexadecimal characters" [])

-- `FileIntegrity.Validate`
unfoldable pub validate_integrity : FileIntegrity → Check
validate_integrity i = do
  reject (not (eqb (len i.sha256) 64) || not (equal (to_lower (codes i.sha256)) (codes i.sha256)))
      (errorf "sha256 must be 64 lowercase hexadecimal characters" [])
  check_hex (decode_hex (codes i.sha256))

abbrev pub is_lower_hex : ℕ → Bool
is_lower_hex c = is_digit c || within 97 102 c

abbrev is_hex : ℕ → Bool
is_hex c = is_digit c || within 97 102 c || within 65 70 c

-- 64 lowercase hexadecimal digits.
abbrev pub IsDigest : FileIntegrity → Type 0
IsDigest i = (length (codes i.sha256) ≡ 64) × All (λ c. is_lower_hex c ≡ true) (codes i.sha256)

hex_digit-ok : (c x : ℕ) → hex_digit c ≡ ok x → is_hex c ≡ true
unfolding hex_digit
hex_digit-ok c x h = ground arith

hex_digit-err : (c : ℕ) (e : Error) → hex_digit c ≡ err e → is_hex c ≡ false
unfolding hex_digit
hex_digit-err c e h = ground arith

decode_hex-ok : (cs : List ℕ) → check_hex (decode_hex cs) ≡ ok tt → All (λ c. is_hex c ≡ true) cs
unfolding decode_hex
decode_hex-ok [] h = tt
decode_hex-ok (a ∷ []) h = elim (Result-cases (hex_digit a)) [
  | inl (x, p) ↦ cc (rw (p, decode_hex) at h)
  | inr (x, p) ↦ cc (rw (p, decode_hex) at h)
]
decode_hex-ok (a ∷ (b ∷ rest)) h =
    let ih = decode_hex-ok rest in
    elim (Result-cases (hex_digit a)) [
      | inr (x, p) ↦ cc (rw (p, decode_hex) at h)
      | inl (x, p) ↦ elim (Result-cases (hex_digit b)) [
        | inr (y, q) ↦ cc (rw (p, q, decode_hex) at h)
        | inl (y, q) ↦ elim (Result-cases (decode_hex rest)) [
          | inr (z, r) ↦ cc (rw (p, q, r, decode_hex) at h)
          | inl (z, r) ↦ (hex_digit-ok a x p, (hex_digit-ok b y q, ih (rw r refl)))
        ]
      ]
    ]

decode_hex-even :
    (cs : List ℕ) (n : ℕ)
    → length cs ≡ n + n
    → All (λ c. is_hex c ≡ true) cs
    → check_hex (decode_hex cs) ≡ ok tt
unfolding decode_hex
decode_hex-even [] n e a = refl
decode_hex-even (a ∷ []) n e h = absurd (omega (arith, e))
decode_hex-even (a ∷ (b ∷ rest)) n e (h, (k, hs)) =
    let ih = decode_hex-even rest (n - 1) (omega (arith, e)) hs in
    elim (Result-cases (hex_digit a)) [
      | inr (x, p) ↦ cc (h, hex_digit-err a x p)
      | inl (x, p) ↦ elim (Result-cases (hex_digit b)) [
        | inr (y, q) ↦ cc (k, hex_digit-err b y q)
        | inl (y, q) ↦ elim (Result-cases (decode_hex rest)) [
          | inr (z, r) ↦ cc (ih, r)
          | inl (z, r) ↦ rw (p, q, r) refl
        ]
      ]
    ]

lower_iff :
    (cs : List ℕ)
    → ((to_lower cs ≡ cs) × All (λ c. is_hex c ≡ true) cs) ↔ All (λ c. is_lower_hex c ≡ true) cs
lower_iff [] = ground arith
lower_iff (c ∷ cs) = let ih = lower_iff cs in ground (arith, ih)

hex_ascii : (cs : List ℕ) → All (λ c. is_hex c ≡ true) cs → All (λ c. c < 128) cs
hex_ascii [] a = tt
hex_ascii (c ∷ cs) (h, a) = (ground arith, hex_ascii cs a)

-- The integrity of a file is accepted exactly when it is 64 lowercase hexadecimal digits.
pub validate_integrity_iff : (i : FileIntegrity) → (validate_integrity i ≡ ok tt) ↔ IsDigest i
unfolding validate_integrity
validate_integrity_iff i = (
  λ h.
      let hex = decode_hex-ok cs (ground arith) in
      let n = len_ascii i.sha256 (hex_ascii cs hex) in
      (ground (arith, n), (lower_iff cs).0 (ground (arith, equal_iff (to_lower cs) cs), hex)),
  λ (n, a).
      let (low, hex) = (lower_iff cs).1 a in
      let m = len_ascii i.sha256 (hex_ascii cs hex) in
      let d = decode_hex-even cs 32 n hex in
      ground (arith, equal_iff (to_lower cs) cs, low, d, m, n),
)
  where
    cs : List ℕ
    cs = codes i.sha256
