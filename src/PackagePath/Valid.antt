-- ===== src/PackagePath/Valid.antt =====
-- Which paths `ValidatePackagePath` accepts.
use nodima_sdk.Base.{
  ℕ, false, List, [], ◌∷◌, ok, ◌≡◌, refl, sym, ◌⊎◌, inl, inr, ◌↔◌, All, arith, subst,
}
use nodima_sdk.PackagePath.{
  slash, dot, here, up, equal, has_byte, has_prefix, split, join, climb, keep, keep_all, turn,
  is_abs, spell, clean, validate_package_path,
}
use nodima_sdk.PackagePath.Names.{
  IsName, IsTurned, equal_iff, split-IsFlat, keep_all-IsKept, turn-IsKept, clean_names, names_start,
}

-- The bytes of `../`.
abbrev leaving : List ℕ
leaving = dot ∷ (dot ∷ (slash ∷ []))

-- The path of one or more names, or `..`.
abbrev IsShape : List ℕ → Type 0
IsShape v =
    (v ≡ up) ⊎ ((c : List ℕ) × (cs : List (List ℕ)) × (v ≡ join (c ∷ cs)) × All IsName (c ∷ cs))

up-IsShape :
    (ds : List (List ℕ))
    → has_prefix leaving (spell false (up ∷ ds)) ≡ false
    → IsShape (spell false (up ∷ ds))
unfolding join has_prefix
up-IsShape [] h = inl refl
up-IsShape (d ∷ ds) h = cc h

turned-IsShape :
    (l : List (List ℕ))
    → IsTurned l
    → equal (spell false l) here ≡ false
    → has_prefix leaving (spell false l) ≡ false
    → IsShape (spell false l)
unfolding equal
turned-IsShape [] t h p = cc h
turned-IsShape (c ∷ cs) (inl a) h p = inr (c, cs, refl, a)
turned-IsShape (c ∷ cs) (inr (ds, e)) h p =
    subst (λ l. has_prefix leaving (spell false l) ≡ false → IsShape (spell false l)) (sym e)
      (up-IsShape ds) p

path_checks :
    (v : List ℕ)
    → validate_package_path v ≡ ok tt
    → (has_byte 92 v ≡ false)
      × (has_byte 58 v ≡ false)
      × (is_abs v ≡ false)
      × (equal (clean v) here ≡ false)
      × (clean v ≡ v)
      × (has_prefix leaving (clean v) ≡ false)
unfolding validate_package_path
path_checks v h = ground (arith, equal_iff (clean v) v)

clean-IsShape :
    (v : List ℕ)
    → is_abs v ≡ false
    → equal (clean v) here ≡ false
    → has_prefix leaving (clean v) ≡ false
    → IsShape (clean v)
unfolding clean
clean-IsShape v a h p =
    let l = turn [] (keep_all false [] (split v)) in
    let e : clean v ≡ spell false l = rw (clean, a) refl in
    subst IsShape (sym e) (
      turned-IsShape l
        (turn-IsKept [] (keep_all false [] (split v))
          (keep_all-IsKept [] (split v) (split-IsFlat v) tt) tt)
        (rw e at h) (rw e at p))

names_accepted :
    (c : List ℕ) (cs : List (List ℕ))
    → All IsName (c ∷ cs)
    → has_byte 92 (join (c ∷ cs)) ≡ false
    → has_byte 58 (join (c ∷ cs)) ≡ false
    → validate_package_path (join (c ∷ cs)) ≡ ok tt
unfolding validate_package_path
names_accepted c cs a s d =
    let (filled, relative, real, inside) = names_start c cs a in
    let same = (equal_iff (join (c ∷ cs)) (join (c ∷ cs))).1 refl in
    rw (filled, s, d, relative, clean_names c cs a relative, real, same, inside) refl

up_accepted : validate_package_path up ≡ ok tt
unfolding validate_package_path has_byte is_abs clean keep_all keep climb turn split join equal
    has_prefix
up_accepted = refl

abbrev pub IsPackagePath : List ℕ → Type 0
IsPackagePath v = (has_byte 92 v ≡ false) × (has_byte 58 v ≡ false) × IsShape v

-- A path is accepted exactly when it has no backslash and no colon, and is either one or more names
-- joined by slashes (each not empty, with no slash, and neither `.` nor `..`) or the path `..`.
pub validate_package_path_iff : (v : List ℕ) → (validate_package_path v ≡ ok tt) ↔ IsPackagePath v
validate_package_path_iff v = (accepted, passed)
  where
    accepted : validate_package_path v ≡ ok tt → IsPackagePath v
    accepted h =
        let (s, d, a, real, same, inside) = path_checks v h in
        (s, d, subst IsShape same (clean-IsShape v a real inside))

    passed : IsPackagePath v → validate_package_path v ≡ ok tt
    passed (s, d, inl e) = subst (λ w. validate_package_path w ≡ ok tt) (sym e) up_accepted
    passed (s, d, inr (c, cs, e, a)) =
        subst (λ w. validate_package_path w ≡ ok tt) (sym e)
          (names_accepted c cs a (rw e at s) (rw e at d))
