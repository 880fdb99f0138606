-- ===== src/Xel/Storage.antt =====
-- xel::xIndexedStorage: objects under identifiers that are never 0. A pool gives out an identifier
-- that is not in use, or 0 where it is full.
use pp.Prelude.{ℕ, ◌≡◌, ◌≢◌, Option, none, some, ◌==◌, if◌then◌else◌}

pub record Storage (T : Type 0) : Type 1 where
  pub Pool : Type 0
  -- What an acquired object holds at first: the initial values of its members.
  pub initial : T
  pub check_and_get : Pool → ℕ → Option T
  pub acquire : Pool → ℕ × Pool
  -- An assignment through the reference that `operator[]` or CheckAndGet gives.
  pub write : Pool → ℕ → T → Pool
  pub release : Pool → ℕ → Pool
  pub get-zero : (p : Pool) → check_and_get p 0 ≡ none
  pub acquire_fresh : (p : Pool) → check_and_get p (acquire p).0 ≡ none
  pub get-acquire :
      (p : Pool) (j : ℕ)
      → (acquire p).0 ≢ 0
      → check_and_get (acquire p).1 j
        ≡ (if (acquire p).0 == j then some initial else check_and_get p j)
  pub get-acquire_full :
      (p : Pool) (j : ℕ) → (acquire p).0 ≡ 0 → check_and_get (acquire p).1 j ≡ check_and_get p j
  pub get-write :
      (p : Pool) (i : ℕ) (t u : T) (j : ℕ)
      → check_and_get p i ≡ some u
      → check_and_get (write p i t) j ≡ (if i == j then some t else check_and_get p j)
  pub get-release :
      (p : Pool) (i j : ℕ)
      → check_and_get (release p i) j ≡ (if i == j then none else check_and_get p j)
