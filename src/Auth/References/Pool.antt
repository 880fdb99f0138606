-- ===== src/Auth/References/Pool.antt =====
-- The loop over a replaced map takes one reference from each node for each record that holds it.
use pp.Prelude.{
  ℕ, ◌+◌, ◌≤◌, ◌≡◌, ◌≢◌, List, [], ◌∷◌, ◌++◌, none, some, arith, ◌==◌, if◌then◌else◌, sub64,
  Option-cases, inl, inr, Bool-cases, bytes_eq,
}
use pp.Xel.Storage.{Storage}
use pp.Auth.Types.{AuditNode, LocalRecord, AuthMap, Key}
use pp.Auth.Service.{drop_reference, drop_map, find_record, write_record}
use pp.Auth.References.{holders, occurrences, bit}

-- The write of a record moves its entry from one holder to another.
pub holders-write_record :
    {Address : Type 0} (i : ℕ) (k : Key) (r r' : LocalRecord Address) (m : AuthMap Address)
    → find_record k m ≡ some r
    → holders i (write_record k r' m) + bit (r.local_auth_id == i)
      ≡ holders i m + bit (r'.local_auth_id == i)
holders-write_record i k r r' [] h = cc
holders-write_record i k r r' ((j, q) ∷ m) h = elim (Bool-cases (bytes_eq j k)) [
  | inl e ↦ ground (arith, e)
  | inr e ↦ ground (arith, e, holders-write_record i k r r' m (ground (arith, e)))
]

pub find-write_record :
    {Address : Type 0} (k : Key) (r r' : LocalRecord Address) (m : AuthMap Address)
    → find_record k m ≡ some r
    → find_record k (write_record k r' m) ≡ some r'
find-write_record k r r' [] h = cc
find-write_record k r r' ((j, q) ∷ m) h = elim (Bool-cases (bytes_eq j k)) [
  | inl e ↦ ground (arith, e)
  | inr e ↦ ground (arith, e, find-write_record k r r' m (ground (arith, e)))
]

pub occurrences-append :
    (i : ℕ) (xs : List ℕ) (n : ℕ) → occurrences i (xs ++ n ∷ []) ≡ occurrences i xs + bit (n == i)
occurrences-append i [] n = omega arith
occurrences-append i (x ∷ xs) n = omega (arith, occurrences-append i xs n)

pub holders-find_record :
    {Address : Type 0} (k : Key) (r : LocalRecord Address) (m : AuthMap Address)
    → find_record k m ≡ some r
    → 1 ≤ holders r.local_auth_id m
holders-find_record k r [] h = cc
holders-find_record k r ((j, q) ∷ m) h = elim (Bool-cases (bytes_eq j k)) [
  | inl e ↦ ground (arith, e)
  | inr e ↦ ground (arith, e, holders-find_record k r m (ground (arith, e)))
]

module _ (S : Storage AuditNode) where
  open S use {Pool, check_and_get, write, get-write}

  -- A node with `c` references less.
  abbrev pub without : ℕ → AuditNode → AuditNode
  without c n = record n { reference_count = sub64 n.reference_count c }

  get-drop_reference :
      (i j : ℕ) (p : Pool)
      → check_and_get (drop_reference S i p) j ≡ elim (check_and_get p j) [
        | none ↦ none
        | some n ↦ some (if i == j then without 1 n else n)
      ]
  unfolding drop_reference
  get-drop_reference i j p = elim (Option-cases (check_and_get p i)) [
    | inl e ↦ rw (e, drop_reference) (ground (arith, e))
    | inr (n, e) ↦ ground (arith, e, get-write p i (without 1 n) n j e)
  ]

  pub get-drop_map :
      {Address : Type 0} (m : AuthMap Address) (j : ℕ) (p : Pool)
      → j ≢ 0
      → check_and_get (drop_map S m p) j ≡ elim (check_and_get p j) [
        | none ↦ none
        | some n ↦ some (if holders j m == 0 then n else without (holders j m) n)
      ]
  unfolding drop_map
  get-drop_map [] j p h = elim (Option-cases (check_and_get p j)) [
    | inl e ↦ ground (arith, e)
    | inr (n, e) ↦ ground (arith, e)
  ]
  get-drop_map ((k, r) ∷ m) j p h = elim (Bool-cases (r.local_auth_id == 0)) [
    | inl unset ↦ rw unset (ground (arith, get-drop_map m j p h))
    | inr holds ↦ rw holds (
        ground (
          arith,
          get-drop_map m j (drop_reference S r.local_auth_id p) h,
          get-drop_reference r.local_auth_id j p,
        ))
  ]
