-- ===== src/PackagePath.antt =====
-- runner/v1/manifest.go: `ValidatePackagePath`, on the code points of a path (all that it looks for is ASCII), and Go's `path.Clean`,
-- `path.IsAbs` and `strings.HasPrefix` that it calls.
pub mod Names
pub mod Valid
mod Tests
use nodima_sdk.Base.{
  ℕ, Bool, true, false, List, [], ◌∷◌, ◌++◌, Check, ok, errorf, reject, ◌>>=◌, ◌>>◌, eqb, is_empty,
  ◌&&◌, ◌||◌, not, if◌then◌else◌,
}

abbrev pub slash : ℕ
slash = 47

abbrev pub dot : ℕ
dot = 46

-- The path `.` and the element `..`.
abbrev pub here : List ℕ
here = dot ∷ []

abbrev pub up : List ℕ
up = dot ∷ (dot ∷ [])

unfoldable pub equal : List ℕ → List ℕ → Bool
equal [] [] = true
equal (x ∷ xs) (y ∷ ys) = eqb x y && equal xs ys
equal _ _ = false

unfoldable pub has_byte : ℕ → List ℕ → Bool
has_byte b [] = false
has_byte b (x ∷ xs) = eqb x b || has_byte b xs

-- `strings.HasPrefix`
unfoldable pub has_prefix : List ℕ → List ℕ → Bool
has_prefix [] s = true
has_prefix (p ∷ ps) [] = false
has_prefix (p ∷ ps) (x ∷ xs) = eqb x p && has_prefix ps xs

-- The elements between the slashes.
abbrev pub put_first : ℕ → List (List ℕ) → List (List ℕ)
put_first b [] = (b ∷ []) ∷ []
put_first b (c ∷ cs) = (b ∷ c) ∷ cs

unfoldable pub split : List ℕ → List (List ℕ)
split [] = [] ∷ []
split (b ∷ bs) = let rest = split bs in if eqb b slash then [] ∷ rest else put_first b rest

unfoldable pub join : List (List ℕ) → List ℕ
join [] = []
join (c ∷ []) = c
join (c ∷ (d ∷ ds)) = c ++ (slash ∷ join (d ∷ ds))

-- `..` takes the element before it away, but not another `..`; before the first it stays, unless
-- the path is rooted. The elements kept so far are in reverse.
unfoldable pub climb : Bool → List (List ℕ) → List (List ℕ)
climb rooted [] = if rooted then [] else up ∷ []
climb rooted (c ∷ cs) = if equal c up then up ∷ (c ∷ cs) else cs

unfoldable pub keep : Bool → List (List ℕ) → List ℕ → List (List ℕ)
keep rooted kept c =
    if is_empty c || equal c here then kept else if equal c up then climb rooted kept else c ∷ kept

unfoldable pub keep_all : Bool → List (List ℕ) → List (List ℕ) → List (List ℕ)
keep_all rooted kept [] = kept
keep_all rooted kept (c ∷ cs) = keep_all rooted (keep rooted kept c) cs

unfoldable pub turn : List (List ℕ) → List (List ℕ) → List (List ℕ)
turn acc [] = acc
turn acc (c ∷ cs) = turn (c ∷ acc) cs

-- `path.IsAbs`
unfoldable pub is_abs : List ℕ → Bool
is_abs [] = false
is_abs (b ∷ bs) = eqb b slash

abbrev pub spell : Bool → List (List ℕ) → List ℕ
spell true cs = slash ∷ join cs
spell false [] = here
spell false (c ∷ cs) = join (c ∷ cs)

-- `path.Clean`
unfoldable pub clean : List ℕ → List ℕ
clean value = spell (is_abs value) (turn [] (keep_all (is_abs value) [] (split value)))

-- `ValidatePackagePath`; 92 is the backslash and 58 the colon.
unfoldable pub validate_package_path : List ℕ → Check
validate_package_path value = do
  reject (is_empty value) (errorf "path cannot be empty" [])
  reject (has_byte 92 value || has_byte 58 value)
      (errorf "path must use portable forward-slash syntax" [])
  reject (is_abs value) (errorf "path must be relative" [])
  let cleaned = clean value
  reject
      (equal cleaned here
        || (not (equal cleaned value) || has_prefix (dot ∷ (dot ∷ (slash ∷ []))) cleaned))
      (errorf "path must be normalized and remain inside the package" [])
