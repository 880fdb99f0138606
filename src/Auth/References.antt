-- ===== src/Auth/References.antt =====
-- Who holds an audit node: the records of the map, and the clients that have not released it.
pub mod Pool
pub mod Acquire
pub mod Answer
pub mod Report
pub mod Round
pub mod Tick
use pp.Prelude.{
  ℕ, ◌+◌, ◌%◌, ◌^◌, ◌≤◌, ◌<◌, ◌≡◌, ◌≢◌, Bool, true, false, List, [], ◌∷◌, Option, none, some, ◌==◌,
  if◌then◌else◌,
}
use pp.Xel.Storage.{Storage}
use pp.Xel.NodeList.{NodeList}
use pp.Auth.Types.{Build, AuditNode, LocalRecord, AuthMap}
use pp.Auth.Service.{AuthService}

abbrev pub bit : Bool → ℕ
bit true = 1
bit false = 0

-- How often an identifier stands in a list.
abbrev pub occurrences : ℕ → List ℕ → ℕ
occurrences i [] = 0
occurrences i (j ∷ js) = bit (j == i) + occurrences i js

-- How many records of a map have it.
abbrev pub holders : {Address : Type 0} → ℕ → AuthMap Address → ℕ
holders i [] = 0
holders i ((k, r) ∷ m) = bit (r.local_auth_id == i) + holders i m

abbrev pub is_some : {A : Type 0} → Option A → Bool
is_some none = false
is_some (some a) = true

module _ (Address : Type 0) (build : Build) (S : Storage AuditNode) (X : NodeList) where
  abbrev pub refs : ℕ → AuthService Address build S X → List ℕ → ℕ
  refs i s clients = holders i s.auth_local_map + occurrences i clients

  -- `clients` are the identifiers that were given out and not released. A node counts its holders,
  -- whoever holds a node holds one that is in use, and the nodes in use are linked once each.
  pub record Inv (s : AuthService Address build S X) (clients : List ℕ) : Type 0 where
    pub counted :
        (i : ℕ) (n : AuditNode)
        → S.check_and_get s.pool i ≡ some n
        → (n.local_auth_id ≡ i) × (n.reference_count ≡ refs i s clients % 2 ^ 64)
    pub live : (i : ℕ) → i ≢ 0 → 1 ≤ refs i s clients → is_some (S.check_and_get s.pool i) ≡ true
    pub listed :
        (i : ℕ) → occurrences i (X.nodes s.timeout_list) ≡ bit (is_some (S.check_and_get s.pool i))
    pub given : occurrences 0 clients ≡ 0
    -- The records of a map that the reload thread has loaded have no node yet.
    pub unset : (m : AuthMap Address) → s.new_map ≡ some m → (i : ℕ) → i ≢ 0 → holders i m ≡ 0
