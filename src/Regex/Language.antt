-- ===== src/Regex/Language.antt =====
-- The language of an expression, and that the matcher decides it.
use nodima_sdk.Base.{
  ℕ, Bool, if◌then◌else◌, true, List, [], ◌∷◌, ◌++◌, ◌≡◌, ◌↔◌, ◌⊎◌, inl, inr, refl, sym, ap, ◌∙◌,
  subst, All, arith, Bool-cases,
}
use nodima_sdk.Regex.{Regex, nothing, nil, class, seq, alt, star, nullable, after, match_string}

unfoldable pub joined : List (List ℕ) → List ℕ
joined [] = []
joined (part ∷ parts) = part ++ joined parts

-- The texts that an expression stands for.
unfoldable pub Matches : Regex → List ℕ → Type 0
Matches nothing s = ⊥
Matches nil s = s ≡ []
Matches (class p) s = (c : ℕ) × (p c ≡ true) × (s ≡ c ∷ [])
Matches (seq r q) s = (a b : List ℕ) × (s ≡ a ++ b) × Matches r a × Matches q b
Matches (alt r q) s = Matches r s ⊎ Matches q s
Matches (star r) s = (parts : List (List ℕ)) × (s ≡ joined parts) × All (Matches r) parts

append_empty : (a b : List ℕ) → [] ≡ a ++ b → (a ≡ []) × (b ≡ [])
append_empty [] b e = (refl, sym e)
append_empty (x ∷ a) b e = cc e

-- Two texts, one for each expression, make the empty text when both are empty.
seq_empty : (r q : Regex) → Matches (seq r q) [] ↔ (Matches r [] × Matches q [])
unfolding Matches
seq_empty r q = (
  λ (a, b, e, m, n).
      let (f, g) = append_empty a b e in (subst (Matches r) f m, subst (Matches q) g n),
  λ (m, n). ([], [], refl, m, n),
)

nullable_iff : (r : Regex) → (nullable r ≡ true) ↔ Matches r []
unfolding nullable Matches joined
nullable_iff nothing = ground arith
nullable_iff nil = ground arith
nullable_iff (class p) = (λ h. cc h, λ (c, h, e). cc e)
nullable_iff (seq r q) = ground (arith, seq_empty r q, nullable_iff r, nullable_iff q)
nullable_iff (alt r q) = ground (arith, nullable_iff r, nullable_iff q)
nullable_iff (star r) = (λ h. ([], refl, tt), λ h. refl)

-- A text of two parts that starts with `c`: the first part does, or it is empty and the second does.
seq_starts :
    (c : ℕ) (r q d : Regex) (s : List ℕ)
    → ((t : List ℕ) → Matches d t ↔ Matches r (c ∷ t))
    → Matches (seq r q) (c ∷ s) ↔ (Matches (seq d q) s ⊎ (Matches r [] × Matches q (c ∷ s)))
unfolding Matches
seq_starts c r q d s ih = (split, join)
  where
    cut :
        (a b : List ℕ)
        → (c ∷ s) ≡ a ++ b
        → Matches r a
        → Matches q b
        → Matches (seq d q) s ⊎ (Matches r [] × Matches q (c ∷ s))
    cut [] b e m n = inr (m, subst (Matches q) (sym e) n)
    cut (x ∷ a) b e m n =
        let same : x ≡ c = cc e in
        inl (a, b, cc e, (ih a).1 (subst (λ y. Matches r (y ∷ a)) same m), n)

    split : Matches (seq r q) (c ∷ s) → Matches (seq d q) s ⊎ (Matches r [] × Matches q (c ∷ s))
    split (a, b, e, m, n) = cut a b e m n

    join : Matches (seq d q) s ⊎ (Matches r [] × Matches q (c ∷ s)) → Matches (seq r q) (c ∷ s)
    join (inl (a, b, e, m, n)) = (c ∷ a, b, ap (λ l. c ∷ l) e, (ih a).0 m, n)
    join (inr (m, n)) = ([], c ∷ s, refl, m, n)

alt_choice : (r q : Regex) (s : List ℕ) → Matches (alt r q) s ↔ (Matches r s ⊎ Matches q s)
unfolding Matches
alt_choice r q s = (λ m. m, λ m. m)

-- The same as a choice between the two.
seq_after :
    (c : ℕ) (r q d e : Regex) (s : List ℕ)
    → ((t : List ℕ) → Matches d t ↔ Matches r (c ∷ t))
    → ((t : List ℕ) → Matches e t ↔ Matches q (c ∷ t))
    → Matches (if nullable r then alt (seq d q) e else seq d q) s ↔ Matches (seq r q) (c ∷ s)
seq_after c r q d e s f g = elim (Bool-cases (nullable r)) [
  | inl h ↦
      rw h (ground (arith, alt_choice (seq d q) e s, seq_starts c r q d s f, nullable_iff r, g s))
  | inr h ↦ rw h (ground (arith, seq_starts c r q d s f, nullable_iff r))
]

star_starts :
    (c : ℕ) (r d : Regex) (s : List ℕ)
    → ((t : List ℕ) → Matches d t ↔ Matches r (c ∷ t))
    → Matches (seq d (star r)) s ↔ Matches (star r) (c ∷ s)
unfolding Matches joined
star_starts c r d s ih = (join, λ (parts, e, a). cut parts e a)
  where
    join : Matches (seq d (star r)) s → Matches (star r) (c ∷ s)
    join (a, b, e, m, (parts, f, all)) =
        ((c ∷ a) ∷ parts, ap (λ l. c ∷ l) (e ∙ ap (λ l. a ++ l) f), ((ih a).0 m, all))

    cut :
        (parts : List (List ℕ))
        → (c ∷ s) ≡ joined parts
        → All (Matches r) parts
        → Matches (seq d (star r)) s
    cut [] e a = cc e
    cut ([] ∷ parts) e (m, a) = cut parts e a
    cut ((x ∷ p) ∷ parts) e (m, a) =
        let same : x ≡ c = cc e in
        (p, joined parts, cc e, (ih p).1 (subst (λ y. Matches r (y ∷ p)) same m), (parts, refl, a))

class_starts :
    (c : ℕ) (p : ℕ → Bool) (s : List ℕ)
    → Matches (if p c then nil else nothing) s ↔ Matches (class p) (c ∷ s)
unfolding Matches
class_starts c p s = elim (Bool-cases (p c)) [
  | inl h ↦ rw h (λ e. (c, h, ap (λ l. c ∷ l) e), λ (x, k, e). cc e)
  | inr h ↦ rw h (λ e. absurd e, λ (x, k, e). let same : p c ≡ p x = ap p (cc e) in cc (same, h, k))
]

after_iff : (c : ℕ) (r : Regex) (s : List ℕ) → Matches (after c r) s ↔ Matches r (c ∷ s)
unfolding after Matches
after_iff c nothing s = ground arith
after_iff c nil s = (λ e. absurd e, λ e. cc e)
after_iff c (class p) s = class_starts c p s
after_iff c (seq r q) s = seq_after c r q (after c r) (after c q) s (after_iff c r) (after_iff c q)
after_iff c (alt r q) s = ground (arith, after_iff c r s, after_iff c q s)
after_iff c (star r) s = star_starts c r (after c r) s (after_iff c r)

-- The matcher accepts exactly the texts that the expression stands for.
pub match_string_iff : (r : Regex) (s : List ℕ) → (match_string r s ≡ true) ↔ Matches r s
unfolding match_string
match_string_iff r [] = nullable_iff r
match_string_iff r (c ∷ cs) = ground (arith, match_string_iff (after c r) cs, after_iff c r cs)
