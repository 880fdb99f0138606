-- ===== src/Auth/References/Report.antt =====
-- ReleaseAuthInfo keeps the counts.
use pp.Prelude.{
  ℕ, ◌+◌, ◌≤◌, ◌≡◌, ◌≢◌, List, [], ◌∷◌, some, arith, ◌==◌, if◌then◌else◌, Option-cases, inl, inr,
  sub64,
}
use pp.Xel.Storage.{Storage}
use pp.Xel.NodeList.{NodeList}
use pp.Auth.Types.{Build, AuditNode, LocalUsage}
use pp.Auth.Service.{AuthService}
use pp.Auth.Reporting.{add_usage, release_auth_info}
use pp.Auth.References.{occurrences, bit, refs, Inv}

-- The clients without one that has released its node.
abbrev pub remove_one : ℕ → List ℕ → List ℕ
remove_one i [] = []
remove_one i (j ∷ js) = if j == i then js else j ∷ remove_one i js

occurrences-remove_one :
    (i j : ℕ) (xs : List ℕ)
    → 1 ≤ occurrences i xs
    → occurrences j (remove_one i xs) + bit (i == j) ≡ occurrences j xs
occurrences-remove_one i j [] h = absurd (omega arith)
occurrences-remove_one i j (x ∷ xs) h = ground (arith, occurrences-remove_one i j xs)

module _ (Address : Type 0) (build : Build) (S : Storage AuditNode) (X : NodeList) where
  open S use {Pool, check_and_get}

  abbrev State : Type 0
  State = AuthService Address build S X

  abbrev Counts : State → List ℕ → Type 0
  Counts = Inv Address build S X

  abbrev holding : ℕ → State → List ℕ → ℕ
  holding = refs Address build S X

  -- A node that a client holds can be released: the assertions of ReleaseAuthInfo hold.
  pub release-Inv :
      (i : ℕ) (u : LocalUsage) (s : State) (clients : List ℕ)
      → Counts s clients
      → 1 ≤ occurrences i clients
      → (t : State) × (release_auth_info Address build S X i u s ≡ some t)
        × Counts t (remove_one i clients)
  unfolding release_auth_info
  release-Inv i u s clients v h = elim (Option-cases (check_and_get s.pool i)) [
    | inl dead ↦ absurd (ground (arith, dead, v.live i nonzero))
    | inr (n, own) ↦
        let n' : AuditNode = record n {
          audit = add_usage n.audit u;
          reference_count = sub64 n.reference_count 1;
        } in
        let t : State = record s { pool = S.write s.pool i n' } in
        (
          t,
          ground (arith, own, v.counted i n own),
          record {
            counted = λ j m e. ground (
              arith,
              own,
              S.get-write s.pool i n' n j own,
              v.counted j m,
              v.counted i n own,
              occurrences-remove_one i j clients h,
            );
            live = λ j z r. ground (
              arith,
              S.get-write s.pool i n' n j own,
              v.live j z,
              occurrences-remove_one i j clients h,
            );
            listed = λ j. ground (arith, own, S.get-write s.pool i n' n j own, v.listed j);
            given = omega (arith, v.given, occurrences-remove_one i 0 clients h);
            unset = v.unset;
          },
        )
  ]
    where
      nonzero : i ≢ 0
      nonzero z = ground (arith, v.given, z)
