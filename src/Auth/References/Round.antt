-- ===== src/Auth/References/Round.antt =====
-- One round of CheckAndReportLocalAudit, on a node that is due.
use pp.Prelude.{
  ℕ, ◌+◌, ◌^◌, ◌≤◌, ◌<◌, ◌≡◌, ap, true, List, [], ◌∷◌, ◌++◌, some, arith, ◌==◌, if◌then◌else◌, inl,
  inr, Bool-cases, refl, sub64, length,
}
use pp.Xel.Storage.{Storage}
use pp.Xel.NodeList.{NodeList}
use pp.Auth.Types.{Build, local_audit_node_idle_timeout_ms, debug, release, AuditNode}
use pp.Auth.Service.{AuthService}
use pp.Auth.Reporting.{cleared, report_node, is_due}
use pp.Auth.References.{bit, refs, Inv}
use pp.Auth.References.Pool.{occurrences-append}

module _ (Address : Type 0) (build : Build) (S : Storage AuditNode) (X : NodeList) where
  open S use {Pool, check_and_get}
  open X use {Links, nodes}

  abbrev pub State : Type 0
  State = AuthService Address build S X

  abbrev pub Counts : State → List ℕ → Type 0
  Counts = Inv Address build S X

  abbrev pub idle : ℕ
  idle = local_audit_node_idle_timeout_ms build

  -- How many nodes of a list are due.
  abbrev pub dues : ℕ → Pool → List ℕ → ℕ
  dues now p [] = 0
  dues now p (i ∷ is') = bit (is_due Address build S X now p i) + dues now p is'

  dues-append :
      (now : ℕ) (p : Pool) (xs : List ℕ) (i : ℕ)
      → dues now p (xs ++ i ∷ []) ≡ dues now p xs + bit (is_due Address build S X now p i)
  dues-append now p [] i = omega arith
  dues-append now p (x ∷ xs) i = omega (arith, dues-append now p xs i)

  dues_mono :
      (now : ℕ) (p q : Pool)
      → ((i : ℕ) → bit (is_due Address build S X now q i) ≤ bit (is_due Address build S X now p i))
      → (xs : List ℕ) → dues now q xs ≤ dues now p xs
  dues_mono now p q h [] = omega arith
  dues_mono now p q h (x ∷ xs) = omega (arith, h x, dues_mono now p q h xs)

  pub dues-le : (now : ℕ) (p : Pool) (xs : List ℕ) → dues now p xs ≤ length xs
  dues-le now p [] = omega arith
  dues-le now p (x ∷ xs) = ground (arith, dues-le now p xs)

  pub idle-bounds : (1 ≤ idle) × (idle < 2 ^ 64)
  idle-bounds =
      elim build
        as (λ b.
          (1 ≤ local_audit_node_idle_timeout_ms b)
          × (local_audit_node_idle_timeout_ms b < 2 ^ 64)) [
            | debug ↦ omega arith
            | release ↦ omega arith
          ]

  -- How many nodes the loop still has to look at.
  abbrev pub left : State → ℕ
  left s = dues s.now s.pool (nodes s.timeout_list)

  -- What a round leaves: the counts, the map and the time, with one due node less.
  abbrev pub Round : State → State → List ℕ → Type 0
  Round s t clients =
      Counts t clients × (t.auth_local_map ≡ s.auth_local_map) × (t.now ≡ s.now) × (left t < left s)

  module _ (s : State) (clients : List ℕ) (v : Counts s clients) (i : ℕ) (n : AuditNode)
      (rest : Links) (head : nodes s.timeout_list ≡ i ∷ nodes rest)
      (due : is_due Address build S X s.now s.pool i ≡ true)
      (own : check_and_get s.pool i ≡ some n) where
    fewer-released : dues s.now (S.release s.pool i) (nodes rest) < left s
    fewer-released = omega (
      arith,
      ap (dues s.now s.pool) head,
      ap bit due,
      dues_mono s.now s.pool (S.release s.pool i) (λ j. ground (arith, S.get-release s.pool i j))
          (nodes rest),
    )

    fewer-kept :
        (n' : AuditNode)
        → n'.last_report_timestamp_ms ≡ s.now
        → idle ≤ s.now
        → s.now < 2 ^ 64
        → dues s.now (S.write s.pool i n') (nodes (X.add_tail rest i)) < left s
    fewer-kept n' e h1 h2 = omega (
      arith,
      ap (dues s.now s.pool) head,
      ap bit due,
      ap (dues s.now (S.write s.pool i n')) (X.nodes-add_tail rest i),
      dues-append s.now (S.write s.pool i n') (nodes rest) i,
      not_due,
      dues_mono s.now s.pool (S.write s.pool i n') still (nodes rest),
    )
      where
        not_due : bit (is_due Address build S X s.now (S.write s.pool i n') i) ≡ 0
        not_due = ground (arith, S.get-write s.pool i n' n i own, idle-bounds)

        still :
            (j : ℕ)
            → bit (is_due Address build S X s.now (S.write s.pool i n') j)
              ≤ bit (is_due Address build S X s.now s.pool j)
        still j = elim (Bool-cases (i == j)) [
          | inl eq ↦ ground (arith, due, eq, not_due)
          | inr ne ↦ ground (arith, S.get-write s.pool i n' n j own, ne)
        ]

    released-Round :
        refs Address build S X i s clients ≡ 0
        → Round s
            (record s {
              pool = S.release s.pool i;
              timeout_list = rest;
              un_released_auth_info_count = sub64 s.un_released_auth_info_count 1;
            })
            clients
    released-Round z = (
      record {
        counted = λ j m h. ground (arith, S.get-release s.pool i j, v.counted j m);
        live = λ j nz h. ground (arith, S.get-release s.pool i j, v.live j nz, z);
        listed = λ j. ground (arith, S.get-release s.pool i j, v.listed j, head, own);
        given = v.given;
        unset = v.unset;
      },
      refl,
      refl,
      fewer-released,
    )

    kept-Round :
        (n' : AuditNode)
        → n'.local_auth_id ≡ n.local_auth_id
        → n'.reference_count ≡ n.reference_count
        → n'.last_report_timestamp_ms ≡ s.now
        → idle ≤ s.now
        → s.now < 2 ^ 64
        → Round s
            (record s { pool = S.write s.pool i n'; timeout_list = X.add_tail rest i })
            clients
    kept-Round n' e1 e2 e3 h1 h2 = (
      record {
        counted = λ j m h. ground (arith, at_pool j, v.counted j m, v.counted i n own);
        live = λ j nz h. ground (arith, at_pool j, v.live j nz);
        listed = λ j. ground (
          arith,
          at_pool j,
          v.listed j,
          head,
          own,
          X.nodes-add_tail rest i,
          occurrences-append j (nodes rest) i,
        );
        given = v.given;
        unset = v.unset;
      },
      refl,
      refl,
      fewer-kept n' e3 h1 h2,
    )
      where
        at_pool :
            (j : ℕ)
            → check_and_get (S.write s.pool i n') j
              ≡ (if i == j then some n' else check_and_get s.pool j)
        at_pool j = S.get-write s.pool i n' n j own

    pub report_node-Round :
        refs Address build S X i s clients < 2 ^ 64
        → idle ≤ s.now
        → s.now < 2 ^ 64
        → Round s (report_node Address build S X i n (record s { timeout_list = rest })).0 clients
    unfolding report_node cleared
    report_node-Round b h1 h2 = elim (Bool-cases (n.reference_count == 0)) [
      | inl z ↦ rw (z, report_node) (released-Round (ground (arith, v.counted i n own, z)))
      | inr nz ↦ rw (nz, report_node) (kept-Round _ (ground arith) (ground arith) refl h1 h2)
    ]
