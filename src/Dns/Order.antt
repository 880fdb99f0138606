-- ===== src/Dns/Order.antt =====
-- Lists of nodes in the order of their times.
use pp.Prelude.{ℕ, ◌≤◌, ◌<◌, ◌≡◌, List, [], ◌∷◌, ◌++◌, arith, ◌==◌, Bool-cases, inl, inr}
use pp.Xel.NodeList.{without}
use pp.Auth.References.{occurrences}

-- The times of the nodes of a list do not fall, and lie between two bounds.
abbrev pub Ascending : (ℕ → ℕ) → ℕ → List ℕ → ℕ → Type 0
Ascending time lo [] hi = lo ≤ hi
Ascending time lo (k ∷ ks) hi = (lo ≤ time k) × Ascending time (time k) ks hi

module _ (time : ℕ → ℕ) where
  Ascending-le :
      (lo lo' : ℕ) (ks : List ℕ) (hi : ℕ)
      → lo' ≤ lo
      → Ascending time lo ks hi
      → Ascending time lo' ks hi
  Ascending-le lo lo' [] hi h v = omega (arith, h, v)
  Ascending-le lo lo' (k ∷ ks) hi h v = (omega (arith, h, v), v.1)

  pub Ascending-tail :
      (lo k : ℕ) (ks : List ℕ) (hi : ℕ) → Ascending time lo (k ∷ ks) hi → Ascending time lo ks hi
  Ascending-tail lo k ks hi v = Ascending-le (time k) lo ks hi v.0 v.1

  pub Ascending-later :
      (lo : ℕ) (ks : List ℕ) (hi hi' : ℕ)
      → hi ≤ hi'
      → Ascending time lo ks hi
      → Ascending time lo ks hi'
  Ascending-later lo [] hi hi' h v = omega (arith, h, v)
  Ascending-later lo (k ∷ ks) hi hi' h v = (v.0, Ascending-later (time k) ks hi hi' h v.1)

  pub Ascending-without :
      (i lo : ℕ) (ks : List ℕ) (hi : ℕ)
      → Ascending time lo ks hi
      → Ascending time lo (without i ks) hi
  Ascending-without i lo [] hi v = v
  Ascending-without i lo (k ∷ ks) hi v = elim (Bool-cases (k == i)) [
    | inl same ↦ rw same (Ascending-without i lo ks hi (Ascending-le (time k) lo ks hi v.0 v.1))
    | inr other ↦ rw other (v.0, Ascending-without i (time k) ks hi v.1)
  ]

  pub Ascending-append :
      (lo : ℕ) (ks : List ℕ) (hi k : ℕ)
      → time k ≡ hi
      → Ascending time lo ks hi
      → Ascending time lo (ks ++ k ∷ []) hi
  Ascending-append lo [] hi k e v = (omega (arith, e, v), omega (arith, e))
  Ascending-append lo (j ∷ ks) hi k e v = (v.0, Ascending-append (time j) ks hi k e v.1)

-- No node of a list is older than the bound before it.
pub Ascending-member :
    (time : ℕ → ℕ) (lo k : ℕ) (ks : List ℕ) (hi : ℕ)
    → Ascending time lo ks hi
    → 0 < occurrences k ks
    → lo ≤ time k
Ascending-member time lo k [] hi v h = absurd (omega (arith, h))
Ascending-member time lo k (j ∷ ks) hi v h = elim (Bool-cases (j == k)) [
  | inl same ↦ ground (arith, v.0, same)
  | inr other ↦
      omega (arith, v.0, Ascending-member time (time j) k ks hi v.1 (ground (arith, h, other)))
]

-- The times of other nodes do not matter.
pub Ascending-same :
    (time time' : ℕ → ℕ) (lo : ℕ) (ks : List ℕ) (hi : ℕ)
    → ((k : ℕ) → 0 < occurrences k ks → time' k ≡ time k)
    → Ascending time lo ks hi
    → Ascending time' lo ks hi
Ascending-same time time' lo [] hi h v = v
Ascending-same time time' lo (k ∷ ks) hi h v =
    let e : time' k ≡ time k = h k (ground arith) in
    rw e (v.0, Ascending-same time time' (time k) ks hi (λ j p. h j (omega (arith, p))) v.1)

pub Ascending-span :
    (time : ℕ → ℕ) (lo : ℕ) (ks : List ℕ) (hi : ℕ) → Ascending time lo ks hi → lo ≤ hi
Ascending-span time lo [] hi v = v
Ascending-span time lo (k ∷ ks) hi v = omega (arith, v.0, Ascending-span time (time k) ks hi v.1)
