-- ===== src/Session/Preview.antt =====
-- runner/v1/session.go: `SessionPreview.Validate`. Lengths are sums over one message in memory, so
-- Go's 64-bit counters do not wrap.
use nodima_sdk.Base.{
  ℕ, ◌+◌, ◌^◌, ◌≤◌, String, len, ◌≡◌, ◌≢◌, ◌↔◌, not, Option, some, none, List, [], ◌∷◌, map, length,
  All, Check, Result, ok, errorf, str, reject, ◌>>=◌, ◌>>◌, ◌==◌, ◌||◌, eqb, ltb, contains, arith,
  eq_iff, IsFresh, IsFresh-iff, IsDistinct, determined, inl, inr,
}
use nodima_sdk.Session.{SessionPreviewPort, SessionPreview, max_session_nodes}

-- The bytes of a row's values; a null has none.
abbrev value_bytes : Option String → ℕ
value_bytes none = 0
value_bytes (some v) = len v

abbrev add_values : ℕ → List (Option String) → ℕ
add_values total [] = total
add_values total (v ∷ vs) = add_values (total + value_bytes v) vs

-- The loop over the rows of a port; the result is `bytes`.
unfoldable pub count_rows : SessionPreviewPort → ℕ → List (List (Option String)) → Result ℕ
count_rows p total [] = ok total
count_rows p total (row ∷ rows) = do
  reject (not (eqb (length row) (length p.columns)))
      (errorf "session preview port %q row width does not match its columns" (str p.port_id ∷ []))
  count_rows p (add_values total row) rows

-- The loop over the ports; the result is `rows` and `bytes`.
unfoldable pub count_ports : List String → ℕ → ℕ → List SessionPreviewPort → Result (ℕ × ℕ)
count_ports ports rows total [] = ok (rows, total)
count_ports ports rows total (p ∷ ps) = do
  reject (p.port_id == "") (errorf "session preview port requires an ID" [])
  reject (contains ports p.port_id) (errorf "session preview repeats port %q" (str p.port_id ∷ []))
  reject (ltb 4096 (length p.columns))
      (errorf "session preview port %q has too many columns" (str p.port_id ∷ []))
  total' ← count_rows p total p.rows
  count_ports (p.port_id ∷ ports) (rows + length p.rows) total' ps

-- `SessionPreview.Validate`
unfoldable pub validate_preview : SessionPreview → Check
validate_preview p = do
  reject (ltb max_session_nodes (length p.ports)) (errorf "session preview has too many ports" [])
  (rows, total) ← count_ports [] 0 0 p.ports
  reject (ltb 1000 rows || ltb (2 ^ 20) total)
      (errorf "session preview exceeds its bounded snapshot limit" [])

abbrev row_bytes : List (Option String) → ℕ
row_bytes [] = 0
row_bytes (v ∷ vs) = value_bytes v + row_bytes vs

abbrev rows_bytes : List (List (Option String)) → ℕ
rows_bytes [] = 0
rows_bytes (r ∷ rs) = row_bytes r + rows_bytes rs

abbrev total_rows : List SessionPreviewPort → ℕ
total_rows [] = 0
total_rows (p ∷ ps) = length p.rows + total_rows ps

abbrev total_bytes : List SessionPreviewPort → ℕ
total_bytes [] = 0
total_bytes (p ∷ ps) = rows_bytes p.rows + total_bytes ps

abbrev ports_of : List SessionPreviewPort → List String
ports_of = map (λ p. p.port_id)

-- A rectangular table under a name.
pub record IsTable (p : SessionPreviewPort) : Type 0 where
  pub named : p.port_id ≢ ""
  pub narrow : length p.columns ≤ 4096
  pub rectangular : All (λ r. length r ≡ length p.columns) p.rows

pub record IsSnapshot (p : SessionPreview) : Type 0 where
  pub few_ports : length p.ports ≤ 256
  pub tables : All IsTable p.ports
  pub distinct : IsDistinct (ports_of p.ports)
  pub few_rows : total_rows p.ports ≤ 1000
  pub few_bytes : total_bytes p.ports ≤ 2 ^ 20

add_values_lem :
    (total : ℕ) (vs : List (Option String)) → add_values total vs ≡ total + row_bytes vs
add_values_lem total [] = omega arith
add_values_lem total (v ∷ vs) = omega (arith, add_values_lem (total + value_bytes v) vs)

rows_iff :
    (p : SessionPreviewPort) (total : ℕ) (rs : List (List (Option String))) (r : ℕ)
    → (count_rows p total rs ≡ ok r)
      ↔ (All (λ row. length row ≡ length p.columns) rs × (r ≡ total + rows_bytes rs))
unfolding count_rows
rows_iff p total [] r = ground arith
rows_iff p total (row ∷ rs) r =
    ground (arith, add_values_lem total row, rows_iff p (add_values total row) rs r)

ports_iff :
    (seen : List String) (rows total : ℕ) (ps : List SessionPreviewPort) (r : ℕ × ℕ)
    → (count_ports seen rows total ps ≡ ok r) ↔ (
        (All IsTable ps × IsFresh seen (ports_of ps))
        × (r ≡ (rows + total_rows ps, total + total_bytes ps)))
unfolding count_ports
ports_iff seen rows total [] r = ground arith
ports_iff seen rows total (p ∷ ps) r =
    elim (determined (count_rows p total p.rows) (total + rows_bytes p.rows)
      (rows_iff p total p.rows)) [
        | inr (x, e, bad) ↦ ground (arith, eq_iff p.port_id "")
        | inl (e, q) ↦ ground (
          arith,
          eq_iff p.port_id "",
          ports_iff (p.port_id ∷ seen) (rows + length p.rows) (total + rows_bytes p.rows) ps r,
        )
      ]

-- A preview is accepted exactly when it has at most 256 ports, each a rectangular table of at most
-- 4096 columns under a name of its own, at most 1000 rows in all and at most 1 MiB of values.
pub validate_preview_iff : (p : SessionPreview) → (validate_preview p ≡ ok tt) ↔ IsSnapshot p
unfolding validate_preview
validate_preview_iff p =
    elim (determined (count_ports [] 0 0 p.ports) (0 + total_rows p.ports, 0 + total_bytes p.ports)
      (ports_iff [] 0 0 p.ports)) [
        | inr (x, e, bad) ↦ ground (arith, IsFresh-iff (ports_of p.ports))
        | inl (e, q) ↦ ground (arith, IsFresh-iff (ports_of p.ports))
      ]
