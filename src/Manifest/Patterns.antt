-- ===== src/Manifest/Patterns.antt =====
-- runner/v1/manifest.go: the regular expressions, `ValidatePackageID` and `ValidateSemanticVersion`.
use nodima_sdk.Base.{
  ℕ, String, Bool, not, ◌||◌, eqb, [], ◌∷◌, ◌≡◌, ◌↔◌, Check, ok, errorf, str, reject, codes, arith,
}
use nodima_sdk.Regex.{
  Regex, class, seq, alt, star, one, within, plus, optional, is_lower, is_upper, is_digit,
  match_string,
}
use nodima_sdk.Regex.Language.{Matches, match_string_iff}

-- `[a-z0-9]`, `[a-z0-9-]` and `[0-9A-Za-z-]`; 45 is the hyphen, 46 the dot, 43 the plus sign and 95
-- the underscore.
abbrev pub is_alnum : ℕ → Bool
is_alnum c = is_lower c || is_digit c

abbrev pub is_label_part : ℕ → Bool
is_label_part c = is_alnum c || eqb c 45

abbrev pub is_identifier_part : ℕ → Bool
is_identifier_part c = is_digit c || is_upper c || is_lower c || eqb c 45

abbrev label : Regex
label = seq (class is_lower) (optional (seq (star (class is_label_part)) (class is_alnum)))

-- `packageIDPattern`
unfoldable pub package_id_pattern : Regex
package_id_pattern = seq label (plus (seq (one 46) label))

abbrev number : Regex
number = alt (one 48) (seq (class (within 49 57)) (star (class is_digit)))

abbrev identifier : Regex
identifier = alt number (
    seq (star (class is_digit))
      (seq (class (λ c. is_upper c || is_lower c || eqb c 45)) (star (class is_identifier_part))))

abbrev dotted : Regex → Regex
dotted r = seq r (star (seq (one 46) r))

-- `semanticVersionPattern`
unfoldable pub semantic_version_pattern : Regex
semantic_version_pattern = seq number (
    seq (one 46) (
      seq number (
        seq (one 46) (
          seq number (
            seq (optional (seq (one 45) (dotted identifier)))
              (optional (seq (one 43) (dotted (plus (class is_identifier_part))))))))))

-- `portIDPattern`
unfoldable pub port_id_pattern : Regex
port_id_pattern = seq (class is_lower) (star (class (λ c. is_label_part c || eqb c 95)))

-- `ValidatePackageID`
unfoldable pub validate_package_id : String → Check
validate_package_id value =
    reject (not (match_string package_id_pattern (codes value)))
      (errorf "invalid runner package ID %q" (str value ∷ []))

-- `ValidateSemanticVersion`
unfoldable pub validate_semantic_version : String → Check
validate_semantic_version value =
    reject (not (match_string semantic_version_pattern (codes value)))
      (errorf "invalid semantic version %q" (str value ∷ []))

pub validate_package_id_iff :
    (value : String)
    → (validate_package_id value ≡ ok tt) ↔ Matches package_id_pattern (codes value)
unfolding validate_package_id
validate_package_id_iff value = ground (arith, match_string_iff package_id_pattern (codes value))

pub validate_semantic_version_iff :
    (value : String)
    → (validate_semantic_version value ≡ ok tt) ↔ Matches semantic_version_pattern (codes value)
unfolding validate_semantic_version
validate_semantic_version_iff value =
    ground (arith, match_string_iff semantic_version_pattern (codes value))
