-- ===== src/Session/Limits.antt =====
-- runner/v1/session.go: `SpillLimits`, its defaults and its validation.
use nodima_sdk.Base.{
  ℕ, ◌*◌, ◌^◌, ◌≤◌, ◌<◌, ◌≡◌, ◌≢◌, ◌↔◌, ◌⊎◌, [], Check, ok, errorf, reject, ◌>>◌, ◌||◌, eqb, ltb,
  if◌then◌else◌, arith,
}
use nodima_sdk.Session.{SpillLimits}

unfoldable pub default_spill_limits : SpillLimits
default_spill_limits = record {
  memory_bytes = 32 * 2 ^ 20;
  scratch_bytes = 2 * 2 ^ 30;
  scratch_files = 128;
  frame_bytes = 2 ^ 20;
  merge_fan_in = 8;
}

-- `if value == 0 { value = fallback }`
abbrev or_default : ℕ → ℕ → ℕ
or_default value fallback = if eqb value 0 then fallback else value

-- `SpillLimits.WithDefaults`
unfoldable pub with_defaults : SpillLimits → SpillLimits
unfolding default_spill_limits
with_defaults l =
    let d = default_spill_limits in
    record {
      memory_bytes = or_default l.memory_bytes d.memory_bytes;
      scratch_bytes = or_default l.scratch_bytes d.scratch_bytes;
      scratch_files = or_default l.scratch_files d.scratch_files;
      frame_bytes = or_default l.frame_bytes d.frame_bytes;
      merge_fan_in = or_default l.merge_fan_in d.merge_fan_in;
    }

validate_effective : SpillLimits → Check
validate_effective l = do
  reject (ltb l.scratch_files 4) (errorf "spilling requires at least four scratch files" [])
  reject (eqb l.memory_bytes 0 || (eqb l.scratch_bytes 0 || eqb l.frame_bytes 0))
      (errorf "spilling limits must be positive" [])
  reject (ltb l.merge_fan_in 2 || ltb 8 l.merge_fan_in)
      (errorf "spill merge fan-in must be between 2 and 8" [])

-- `SpillLimits.Validate`
unfoldable pub validate_spill_limits : SpillLimits → Check
unfolding validate_effective with_defaults
validate_spill_limits l = validate_effective (with_defaults l)

-- Limits that a spilling node can run under.
pub record IsUsable (l : SpillLimits) : Type 0 where
  pub memory : 0 < l.memory_bytes
  pub scratch : 0 < l.scratch_bytes
  pub frame : 0 < l.frame_bytes
  pub files : 4 ≤ l.scratch_files
  pub fan_in : (2 ≤ l.merge_fan_in) × (l.merge_fan_in ≤ 8)

-- Limits are accepted exactly when, with the defaults put in, they are usable: every byte limit
-- positive, at least four scratch files and a fan-in of 2 to 8.
pub validate_spill_limits_iff :
    (l : SpillLimits) → (validate_spill_limits l ≡ ok tt) ↔ IsUsable (with_defaults l)
unfolding validate_spill_limits
validate_spill_limits_iff l = ground arith

-- Filling in the defaults a second time changes nothing.
with_defaults_idem : (l : SpillLimits) → with_defaults (with_defaults l) ≡ with_defaults l
unfolding with_defaults
with_defaults_idem l = ground arith

-- The only limits that are refused are given ones: a file limit of 1 to 3, a fan-in of 1, or one
-- above 8.
pub validate_spill_limits-refuses :
    (l : SpillLimits)
    → (validate_spill_limits l ≢ ok tt) ↔ (
        ((0 < l.scratch_files) × (l.scratch_files < 4))
        ⊎ ((l.merge_fan_in ≡ 1) ⊎ (8 < l.merge_fan_in)))
unfolding validate_spill_limits
validate_spill_limits-refuses l = ground arith
