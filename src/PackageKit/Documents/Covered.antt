-- ===== src/PackageKit/Documents/Covered.antt =====
-- Presentation metadata that `decodeUIManifest` accepts covers the configuration schema.
use nodima_sdk.Base.{
  ℕ, suc, ◌≡◌, ◌≢◌, ◌↔◌, ◌⊎◌, inl, inr, refl, ap, String, false, Option, some, none, List, [], ◌∷◌,
  map, length, All, Occurs, contains_iff, Result-cases, Error, ok, err, chain_iff, arith, eq_iff,
  ◌==◌, is_empty, Bool-cases,
}
use nodima_sdk.Base.Covering.{all_covered}
use nodima_sdk.Message.Valid.{Given}
use nodima_sdk.Ui.{
  UiManifest, UiConfigField, UiConfigOption, UiVisibleWhenRule, keys_of, validate_ui,
}
use nodima_sdk.Ui.Valid.{IsUi, validate_ui_iff}
use nodima_sdk.PackageKit.{Json, Property}
use nodima_sdk.PackageKit.Documents.{
  check_allowed, check_allowed_values, check_controller, check_controllers, check_property,
  check_properties, decode_ui_manifest, lookup,
}

-- A rule's values are allowed by the property that it names.
abbrev pub IsControlled : List (String × Property) → UiVisibleWhenRule → Type 0
IsControlled schema r =
    Given (λ p. All (λ value. Occurs value p.enum) r.values) (lookup r.key schema)

-- A field presents the property of its key, a string, with options that the property allows, and a
-- choice with as many options as it has values.
abbrev pub IsPresented : List (String × Property) → UiConfigField → Property → Type 0
IsPresented schema f p =
    (p.type ≡ "string")
    × All (λ o. Occurs o.value p.enum) f.options
    × ((f.kind ≢ "select") ⊎ (length f.options ≡ length p.enum))
    × All (IsControlled schema) f.visible_when

abbrev pub Presents : List (String × Property) → UiConfigField → Type 0
Presents schema f = Given (IsPresented schema f) (lookup f.key schema)

abbrev pub properties_of : List (String × Property) → List String
properties_of = map (λ p. p.0)

some_enum : (enum : List String) (value : String) → Occurs value enum → is_empty enum ≡ false
some_enum [] value o = absurd o
some_enum (x ∷ xs) value o = refl

check_allowed_iff :
    (key : String) (enum : List String) (os : List UiConfigOption)
    → (check_allowed key enum os ≡ ok tt) ↔ All (λ o. Occurs o.value enum) os
unfolding check_allowed
check_allowed_iff key enum [] = ground arith
check_allowed_iff key enum (o ∷ os) =
    ground (arith, contains_iff enum o.value, some_enum enum o.value, check_allowed_iff key enum os)

check_allowed_values_iff :
    (key : String) (enum vs : List String)
    → (check_allowed_values key enum vs ≡ ok tt) ↔ All (λ v. Occurs v enum) vs
unfolding check_allowed_values
check_allowed_values_iff key enum [] = ground arith
check_allowed_values_iff key enum (v ∷ vs) =
    ground (arith, contains_iff enum v, check_allowed_values_iff key enum vs)

check_controller_iff :
    (r : UiVisibleWhenRule) (found : Option Property)
    → (check_controller r found ≡ ok tt) ↔ Given (λ p. All (λ v. Occurs v p.enum) r.values) found
unfolding check_controller
check_controller_iff r none = ground arith
check_controller_iff r (some p) = check_allowed_values_iff r.key p.enum r.values

check_controllers_iff :
    (schema : List (String × Property)) (rs : List UiVisibleWhenRule)
    → (check_controllers schema rs ≡ ok tt) ↔ All (IsControlled schema) rs
unfolding check_controllers
check_controllers_iff schema [] = ground arith
check_controllers_iff schema (r ∷ rs) =
    chain_iff (check_controller_iff r (lookup r.key schema)) (check_controllers_iff schema rs)

check_property_iff :
    (schema : List (String × Property)) (f : UiConfigField) (found : Option Property)
    → (check_property schema f found ≡ ok tt) ↔ Given (IsPresented schema f) found
unfolding check_property
check_property_iff schema f none = ground arith
check_property_iff schema f (some p) = ground (
  arith,
  eq_iff p.type "string",
  check_allowed_iff f.key p.enum f.options,
  eq_iff f.kind "select",
  check_controllers_iff schema f.visible_when,
)

check_properties_iff :
    (schema : List (String × Property)) (fs : List UiConfigField)
    → (check_properties schema fs ≡ ok tt) ↔ All (Presents schema) fs
unfolding check_properties
check_properties_iff schema [] = ground arith
check_properties_iff schema (f ∷ fs) =
    chain_iff (check_property_iff schema f (lookup f.key schema)) (check_properties_iff schema fs)

lookup-Occurs :
    (key : String) (schema : List (String × Property)) (P : Property → Type 0)
    → Given P (lookup key schema)
    → Occurs key (properties_of schema)
unfolding lookup
lookup-Occurs key [] P g = absurd g
lookup-Occurs key ((k, p) ∷ rest) P g = elim (Bool-cases (k == key)) [
  | inl e ↦ inl ((eq_iff k key).0 e)
  | inr e ↦ inr (lookup-Occurs key rest P (rw (e, lookup) at g))
]

presented_keys :
    (schema : List (String × Property)) (fs : List UiConfigField)
    → All (Presents schema) fs
    → All (λ key. Occurs key (properties_of schema)) (keys_of fs)
presented_keys schema [] a = tt
presented_keys schema (f ∷ fs) (p, a) =
    (lookup-Occurs f.key schema (IsPresented schema f) p, presented_keys schema fs a)

length-keys_of : (fs : List UiConfigField) → length (keys_of fs) ≡ length fs
length-keys_of [] = refl
length-keys_of (f ∷ fs) = ap suc (length-keys_of fs)

length-properties_of :
    (schema : List (String × Property)) → length (properties_of schema) ≡ length schema
length-properties_of [] = refl
length-properties_of (p ∷ schema) = ap suc (length-properties_of schema)

-- The metadata is valid, each field presents a property of the schema, and each property of the
-- schema is presented by a field.
pub record Covers (schema : List (String × Property)) (ui : UiManifest) : Type 0 where
  pub valid : IsUi ui
  pub presented : All (Presents schema) ui.fields
  pub complete : All (λ key. Occurs key (keys_of ui.fields)) (properties_of schema)

covers :
    (schema : List (String × Property)) (ui : UiManifest)
    → validate_ui ui ≡ ok tt
    → check_properties schema ui.fields ≡ ok tt
    → length ui.fields ≡ length schema
    → Covers schema ui
covers schema ui v c n =
    let valid = (validate_ui_iff ui).0 v in
    let presented = (check_properties_iff schema ui.fields).0 c in
    let same : length (keys_of ui.fields) ≡ length (properties_of schema) =
      omega (arith, n, length-keys_of ui.fields, length-properties_of schema) in
    record {
      valid = valid;
      presented = presented;
      complete =
          all_covered (keys_of ui.fields) (properties_of schema) valid.keys.1 same
            (presented_keys schema ui.fields presented);
    }

module _ (json : Json) (bytes schema_bytes : List ℕ) (ui : UiManifest) where
  no_schema :
      (x : Error)
      → decode_ui_manifest json bytes schema_bytes ≡ ok ui
      → json.unmarshal_schema schema_bytes ≡ err x
      → ⊥
  unfolding decode_ui_manifest
  no_schema x h q = ground arith

  checked :
      (schema : List (String × Property))
      → decode_ui_manifest json bytes schema_bytes ≡ ok ui
      → json.unmarshal_schema schema_bytes ≡ ok schema
      → (validate_ui ui ≡ ok tt)
        × (check_properties schema ui.fields ≡ ok tt)
        × (length ui.fields ≡ length schema)
  unfolding decode_ui_manifest
  checked schema h q = ground arith

-- Whatever the files hold, presentation metadata that is accepted is valid and presents every
-- property of the configuration schema, with options and visibility values that it allows.
pub decode_ui_manifest-Covers :
    (json : Json) (bytes schema_bytes : List ℕ) (ui : UiManifest)
    → decode_ui_manifest json bytes schema_bytes ≡ ok ui
    → (schema : List (String × Property)) × (json.unmarshal_schema schema_bytes ≡ ok schema)
      × Covers schema ui
unfolding decode_ui_manifest
decode_ui_manifest-Covers json bytes schema_bytes ui h =
    elim (Result-cases (json.decode_ui bytes)) [
      | inr (x, p) ↦ cc (rw (p, decode_ui_manifest) at h)
      | inl ((u, rest), p) ↦ elim (Result-cases (json.unmarshal_schema schema_bytes)) [
        | inr (x, q) ↦ absurd (no_schema json bytes schema_bytes ui x h q)
        | inl (schema, q) ↦
            let (v, c, n) = checked json bytes schema_bytes ui schema h q in
            (schema, q, covers schema ui v c n)
      ]
    ]
