-- ===== src/Audit/Domain/Labels.antt =====
-- The labels that ExtractSecondLevelDomain keeps, counted by the dots between them.
use native.Mathlib.Numerals.{add-one}
use pp.Prelude.{
  ℕ, zero, suc, ◌+◌, ◌≤◌, ◌<◌, ◌≡◌, refl, ap, ◌⊎◌, inl, inr, List, [], ◌∷◌, ◌++◌, Option, none,
  some, arith, ◌==◌, if◌then◌else◌, length, get_or, drop, take,
}
use pp.Audit.Domain.{last_dot_below, extract_second_level_domain}

abbrev pub is_dot : ℕ → ℕ
is_dot c = if c == b'.' then 1 else 0

-- The dots of a name.
abbrev pub dots : List ℕ → ℕ
dots [] = 0
dots (c ∷ cs) = is_dot c + dots cs

-- The dots at the positions below `n`.
dots_below : List ℕ → ℕ → ℕ
dots_below domain zero = 0
dots_below domain (suc i) = dots_below domain i + is_dot (get_or domain i 0)

dots_below-cons :
    (c : ℕ) (cs : List ℕ) (i : ℕ) → dots_below (c ∷ cs) (suc i) ≡ is_dot c + dots_below cs i
unfolding dots_below
dots_below-cons c cs zero = omega arith
dots_below-cons c cs (suc i) = omega (arith, dots_below-cons c cs i)

dots_below-drop :
    (cs : List ℕ) (n : ℕ) → n ≤ length cs → dots_below cs n + dots (drop n cs) ≡ dots cs
unfolding dots_below
dots_below-drop cs zero h = omega arith
dots_below-drop [] (suc n) h = absurd (omega arith)
dots_below-drop (c ∷ cs) (suc n) h =
    omega (arith, dots_below-cons c cs n, dots_below-drop cs n (omega arith))

-- What the scan says of the dots that it passed.
abbrev Scan : List ℕ → ℕ → Option ℕ → Type 0
Scan domain n none = dots_below domain n ≡ 0
Scan domain n (some k) =
    (k < n) × (get_or domain k 0 ≡ b'.') × (dots_below domain n ≡ dots_below domain k + 1)

last_dot_below-Scan : (domain : List ℕ) (n : ℕ) → Scan domain n (last_dot_below domain n)
unfolding last_dot_below dots_below
last_dot_below-Scan domain zero = refl
last_dot_below-Scan domain (suc i) = ground (arith, last_dot_below-Scan domain i)

-- A name splits at each position where a dot stands.
split_at_dot :
    (cs : List ℕ) (k : ℕ)
    → k < length cs
    → get_or cs k 0 ≡ b'.'
    → cs ≡ take k cs ++ b'.' ∷ drop (suc k) cs
split_at_dot [] k h e = absurd (omega arith)
split_at_dot (c ∷ cs) zero h e = cc
split_at_dot (c ∷ cs) (suc k) h e = ap (◌∷◌ c) (split_at_dot cs k (omega arith) e)

-- A name with two labels at most is kept whole.
abbrev pub Whole : List ℕ → List ℕ → Type 0
Whole domain result = (dots domain ≤ 1) × (result ≡ domain)

-- Of a longer one the last two labels are kept, with the dot before them cut off.
abbrev pub LastTwo : List ℕ → List ℕ → Type 0
LastTwo domain result =
    (2 ≤ dots domain) × (dots result ≡ 1) × ((front : List ℕ) × (domain ≡ front ++ b'.' ∷ result))

dots_below-length : (cs : List ℕ) → dots_below cs (length cs) ≡ dots cs
unfolding dots_below
dots_below-length [] = refl
dots_below-length (c ∷ cs) = omega (arith, dots_below-cons c cs (length cs), dots_below-length cs)

cut :
    (domain : List ℕ) (last k : ℕ)
    → last < length domain
    → dots_below domain last + 1 ≡ dots domain
    → Scan domain last (some k)
    → LastTwo domain (drop (k + 1) domain)
unfolding dots_below
cut domain last k h e s = (
  omega (arith, s.2),
  rw add-one (ground (arith, dots_below-drop domain (suc k) (omega (arith, s.0)))),
  (take k domain, rw add-one (split_at_dot domain k (omega (arith, s.0)) s.1)),
)

-- ExtractSecondLevelDomain returns a name of at most one dot whole, and the last two labels of
-- any other: the result has one dot, and a dot stands before it in the name.
pub extract-Whole-or-LastTwo :
    (domain : List ℕ)
    → Whole domain (extract_second_level_domain domain)
      ⊎ LastTwo domain (extract_second_level_domain domain)
unfolding extract_second_level_domain
extract-Whole-or-LastTwo domain =
    from_last (last_dot_below domain (length domain)) (last_dot_below-Scan domain (length domain))
  where
    Result : List ℕ → Type 0
    Result r = Whole domain r ⊎ LastTwo domain r

    from_second :
        (last : ℕ) (o : Option ℕ)
        → last < length domain
        → dots_below domain last + 1 ≡ dots domain
        → Scan domain last o
        → Result (elim o [ none ↦ domain | some k ↦ drop (k + 1) domain ])
    from_second last none h e s = inl (omega arith, refl)
    from_second last (some k) h e s = inr (cut domain last k h e s)

    from_last :
        (o : Option ℕ)
        → Scan domain (length domain) o
        → Result (elim o [
          | none ↦ domain
          | some last ↦ elim (last_dot_below domain last) [
            | none ↦ domain
            | some k ↦ drop (k + 1) domain
          ]
        ])
    from_last none s = inl (omega (arith, dots_below-length domain), refl)
    from_last (some last) s =
        from_second last (last_dot_below domain last) s.0
          (omega (arith, s.2, dots_below-length domain)) (last_dot_below-Scan domain last)
