-- ===== src/Ui/Valid.antt =====
-- When presentation metadata is accepted.
use nodima_sdk.Base.{
  ℕ, ◌≤◌, String, true, false, ◌||◌, Option, some, none, List, [], ◌∷◌, map, ◌≡◌, ◌≢◌, ◌↔◌, ◌⊎◌,
  refl, ok, length, len, All, Occurs, contains_iff, IsDistinct, IsFresh, IsFresh-iff, codes,
  is_space, all_spaces, arith, eq_iff,
}
use nodima_sdk.Base.Int.{ℤ, pos, negsuc, below, above}
use nodima_sdk.Regex.Language.{Matches, match_string_iff}
use nodima_sdk.Ui.{
  UiManifest, UiConfigField, UiConfigEditor, UiConfigOption, UiVisibleWhenRule, ui_format_version,
  ui_field_key_pattern, is_unfit, check_help, check_options, check_types, check_editor,
  check_values, check_rules, is_kind, check_field, check_fields, check_visibility, keys_of,
  validate_ui,
}

-- Some character shows.
abbrev pub IsShown : String → Type 0
IsShown s = ¬ All (λ c. is_space c ≡ true) (codes s)

abbrev pub IsText : ℕ → String → Type 0
IsText limit s = IsShown s × (len s ≤ limit)

abbrev pub IsOption : UiConfigOption → Type 0
IsOption o = (o.value ≢ "") × (len o.value ≤ 1000) × IsText 200 o.label

abbrev pub values_of : List UiConfigOption → List String
values_of = map (λ o. o.value)

-- No editor, or one for a text, of column schemas, with distinct types and one of them for default.
abbrev pub IsEditor : String → Option UiConfigEditor → Type 0
IsEditor kind none = Unit
IsEditor kind (some e) =
    (kind ≡ "text")
    × (e.kind ≡ "column-schema")
    × (e.types ≢ [])
    × (length e.types ≤ 100)
    × All (IsText 100) e.types
    × IsDistinct e.types
    × Occurs e.default_type e.types

abbrev pub IsValue : String → Type 0
IsValue value = (value ≢ "") × (len value ≤ 1000)

abbrev pub IsRule : List String → UiVisibleWhenRule → Type 0
IsRule keys r =
    Occurs r.key keys
    × (r.values ≢ [])
    × (length r.values ≤ 1000)
    × All IsValue r.values
    × IsDistinct r.values

abbrev pub IsKind : String → Type 0
IsKind k = (k ≡ "text") ⊎ (k ≡ "url") ⊎ (k ≡ "select") ⊎ (k ≡ "textarea")

abbrev pub controllers_of : List UiVisibleWhenRule → List String
controllers_of = map (λ r. r.key)

-- A field, but for its key and its rules.
pub record IsField (f : UiConfigField) : Type 0 where
  pub label : IsText 200 f.label
  pub placeholder : len f.placeholder ≤ 1000
  pub sizes : (length f.help ≤ 16) × (length f.options ≤ 1000) × (length f.visible_when ≤ 32)
  pub help : All (IsText 2000) f.help
  pub kind : IsKind f.kind
  pub options : All IsOption f.options × IsDistinct (values_of f.options)
  pub choices : (f.kind ≢ "select") ⊎ (f.options ≢ [])
  pub editor : IsEditor f.kind f.editor

abbrev pub HasRules : List String → UiConfigField → Type 0
HasRules keys f = All (IsRule keys) f.visible_when × IsDistinct (controllers_of f.visible_when)

abbrev pub IsKey : String → Type 0
IsKey key = Matches ui_field_key_pattern (codes key)

pub record IsUi (m : UiManifest) : Type 0 where
  pub format : m.format_version ≡ ui_format_version
  pub name : IsText 200 m.name
  pub group : IsText 100 m.group
  pub glyph : IsShown m.glyph × (length (codes m.glyph) ≤ 4)
  pub order : (n : ℕ) × (m.order ≡ pos n) × (n ≤ 1000000)
  pub size : length m.fields ≤ 1000
  pub keys : All IsKey (keys_of m.fields) × IsDistinct (keys_of m.fields)
  pub fields : All IsField m.fields
  pub rules : All (HasRules (keys_of m.fields)) m.fields

all_spaces_iff : (cs : List ℕ) → (all_spaces cs ≡ true) ↔ All (λ c. is_space c ≡ true) cs
unfolding all_spaces
all_spaces_iff [] = ground arith
all_spaces_iff (c ∷ cs) = ground (arith, all_spaces_iff cs)

IsShown-iff : (s : String) → (all_spaces (codes s) ≡ false) ↔ IsShown s
IsShown-iff s = ground (arith, all_spaces_iff (codes s))

fit_iff : (limit : ℕ) (s : String) → (is_unfit limit s ≡ false) ↔ IsText limit s
fit_iff limit s = ground (arith, IsShown-iff s)

module _ (key : String) where
  check_help_iff : (help : List String) → (check_help key help ≡ ok tt) ↔ All (IsText 2000) help
  unfolding check_help
  check_help_iff [] = ground arith
  check_help_iff (h ∷ hs) = ground (arith, fit_iff 2000 h, check_help_iff hs)

  check_options-IsFresh :
      (seen : List String) (os : List UiConfigOption)
      → (check_options key seen os ≡ ok tt) ↔ (All IsOption os × IsFresh seen (values_of os))
  unfolding check_options
  check_options-IsFresh seen [] = ground arith
  check_options-IsFresh seen (o ∷ os) =
      ground
        (arith, eq_iff o.value "", IsShown-iff o.label, check_options-IsFresh (o.value ∷ seen) os)

  check_types-IsFresh :
      (seen ts : List String)
      → (check_types key seen ts ≡ ok tt) ↔ (All (IsText 100) ts × IsFresh seen ts)
  unfolding check_types
  check_types-IsFresh seen [] = ground arith
  check_types-IsFresh seen (t ∷ ts) =
      ground (arith, fit_iff 100 t, check_types-IsFresh (t ∷ seen) ts)

  check_values-IsFresh :
      (seen vs : List String)
      → (check_values key seen vs ≡ ok tt) ↔ (All IsValue vs × IsFresh seen vs)
  unfolding check_values
  check_values-IsFresh seen [] = ground arith
  check_values-IsFresh seen (v ∷ vs) =
      ground (arith, eq_iff v "", check_values-IsFresh (v ∷ seen) vs)

  check_rules-IsFresh :
      (keys seen : List String) (rs : List UiVisibleWhenRule)
      → (check_rules key keys seen rs ≡ ok tt)
        ↔ (All (IsRule keys) rs × IsFresh seen (controllers_of rs))
  unfolding check_rules
  check_rules-IsFresh keys seen [] = ground arith
  check_rules-IsFresh keys seen (r ∷ rs) = ground (
    arith,
    contains_iff keys r.key,
    check_values-IsFresh [] r.values,
    IsFresh-iff r.values,
    check_rules-IsFresh keys (r.key ∷ seen) rs,
  )

  check_editor_iff :
      (kind : String) (e : Option UiConfigEditor)
      → (check_editor key kind e ≡ ok tt) ↔ IsEditor kind e
  unfolding check_editor
  check_editor_iff kind none = ground arith
  check_editor_iff kind (some e) = ground (
    arith,
    eq_iff kind "text",
    eq_iff e.kind "column-schema",
    check_types-IsFresh [] e.types,
    IsFresh-iff e.types,
    contains_iff e.types e.default_type,
  )

IsKind-iff : (k : String) → (is_kind k ≡ true) ↔ IsKind k
IsKind-iff k =
    ground (arith, eq_iff k "text", eq_iff k "url", eq_iff k "select", eq_iff k "textarea")

check_field_iff : (f : UiConfigField) → (check_field f ≡ ok tt) ↔ IsField f
unfolding check_field
check_field_iff f = ground (
  arith,
  fit_iff 200 f.label,
  check_help_iff f.key f.help,
  IsKind-iff f.kind,
  check_options-IsFresh f.key [] f.options,
  IsFresh-iff (values_of f.options),
  eq_iff f.kind "select",
  check_editor_iff f.key f.kind f.editor,
)

check_fields_iff :
    (seen : List String) (fs : List UiConfigField)
    → (check_fields seen fs ≡ ok tt)
      ↔ (All IsKey (keys_of fs) × IsFresh seen (keys_of fs) × All IsField fs)
unfolding check_fields
check_fields_iff seen [] = ground arith
check_fields_iff seen (f ∷ fs) = ground (
  arith,
  match_string_iff ui_field_key_pattern (codes f.key),
  check_field_iff f,
  check_fields_iff (f.key ∷ seen) fs,
)

check_visibility_iff :
    (keys : List String) (fs : List UiConfigField)
    → (check_visibility keys fs ≡ ok tt) ↔ All (HasRules keys) fs
unfolding check_visibility
check_visibility_iff keys [] = ground arith
check_visibility_iff keys (f ∷ fs) = ground (
  arith,
  check_rules-IsFresh f.key keys [] f.visible_when,
  IsFresh-iff (controllers_of f.visible_when),
  check_visibility_iff keys fs,
)

order_iff :
    (z : ℤ) → ((below z 0 || above z 1000000) ≡ false) ↔ ((n : ℕ) × (z ≡ pos n) × (n ≤ 1000000))
order_iff (pos n) = (λ h. (n, refl, ground arith), λ (k, e, le). small k e le)
  where
    small :
        (k : ℕ) → pos n ≡ pos k → k ≤ 1000000 → (below (pos n) 0 || above (pos n) 1000000) ≡ false
    small k e le = let same : n ≡ k = cc e in ground (arith, same)
order_iff (negsuc n) = (λ h. cc h, λ (k, e, le). cc e)

-- Presentation metadata is accepted exactly when it is of this format, its name, group and glyph
-- show and are not too long, its order is in range, and it has at most 1000 fields with distinct
-- keys in their pattern. Each field has a label and help that show, a known kind, a bounded
-- placeholder and bounded lists, options with distinct values, at least one when it is a choice, and
-- at most an editor of column schemas on a text, with distinct types that hold the default. The
-- visibility rules of a field name different fields, each with distinct values that are not empty.
pub validate_ui_iff : (m : UiManifest) → (validate_ui m ≡ ok tt) ↔ IsUi m
unfolding validate_ui
validate_ui_iff m = ground (
  arith,
  eq_iff m.format_version ui_format_version,
  fit_iff 200 m.name,
  fit_iff 100 m.group,
  IsShown-iff m.glyph,
  order_iff m.order,
  check_fields_iff [] m.fields,
  IsFresh-iff (keys_of m.fields),
  check_visibility_iff (keys_of m.fields) m.fields,
)
