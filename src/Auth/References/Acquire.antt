-- ===== src/Auth/References/Acquire.antt =====
-- AcquireAuthInfo keeps the counts: the exchange of the map, the node of a record, the answer.
use pp.Prelude.{
  ℕ, ◌+◌, ◌%◌, ◌^◌, ◌≡◌, ◌≢◌, List, Option, none, some, arith, ◌==◌, if◌then◌else◌, Option-cases,
  inl, inr, Bool-cases, refl, ◌∙◌, sym,
}
use native.Mathlib.Decide.{ℕ_discrete}
use pp.Xel.Storage.{Storage}
use pp.Xel.NodeList.{NodeList}
use pp.Auth.Types.{Build, AuditNode, LocalRecord, AuthMap, Key}
use pp.Auth.Service.{
  AuthService, drop_map, take_new_map, check_and_set_local_auth_id, find_record, write_record,
}
use pp.Auth.References.{occurrences, bit, is_some, refs, Inv}
use pp.Auth.References.Pool.{
  get-drop_map, holders-write_record, holders-find_record, find-write_record, occurrences-append,
}

module _ (Address : Type 0) (build : Build) (S : Storage AuditNode) (X : NodeList) where
  open S use {Pool, check_and_get}

  abbrev pub State : Type 0
  State = AuthService Address build S X

  abbrev pub Counts : State → List ℕ → Type 0
  Counts = Inv Address build S X

  -- The state after the exchange of the old map for `m`.
  exchanged-Inv :
      (s t : State) (m : AuthMap Address) (clients : List ℕ)
      → s.new_map ≡ some m
      → t.auth_local_map ≡ m
      → t.pool ≡ drop_map S s.auth_local_map s.pool
      → t.timeout_list ≡ s.timeout_list
      → t.new_map ≡ none
      → Counts s clients
      → Counts t clients
  exchanged-Inv s t m clients em e1 e2 e3 e4 v = record {
    counted = λ i n h. counted i n h;
    live = λ i z h.
        ground
          (arith, e1, e2, v.live i z, v.unset m em i z, get-drop_map S s.auth_local_map i s.pool z);
    listed = λ i. listed i;
    given = v.given;
    unset = λ m' h i z. cc;
  }
    where
      counted :
          (i : ℕ) (n : AuditNode)
          → check_and_get t.pool i ≡ some n
          → (n.local_auth_id ≡ i)
            × (n.reference_count ≡ refs Address build S X i t clients % 2 ^ 64)
      counted i n h = elim (ℕ_discrete i 0) [
        | yes z ↦ absurd (ground (arith, z, S.get-zero t.pool))
        | no z ↦ elim (Option-cases (check_and_get s.pool i)) [
          | inl e ↦ absurd (ground (arith, e, get-drop_map S s.auth_local_map i s.pool z))
          | inr (n', e) ↦ ground (
            arith,
            e,
            v.counted i n' e,
            v.unset m em i z,
            get-drop_map S s.auth_local_map i s.pool z,
          )
        ]
      ]

      listed :
          (i : ℕ) → occurrences i (X.nodes t.timeout_list) ≡ bit (is_some (check_and_get t.pool i))
      listed i = elim (ℕ_discrete i 0) [
        | yes z ↦ ground (arith, z, e3, v.listed i, S.get-zero t.pool, S.get-zero s.pool)
        | no z ↦ ground (arith, e2, e3, v.listed i, get-drop_map S s.auth_local_map i s.pool z)
      ]

  pub take_new_map-Inv :
      (s : State) (clients : List ℕ)
      → Counts s clients
      → Counts (take_new_map Address build S X s) clients
  unfolding take_new_map
  take_new_map-Inv s clients v = elim (Option-cases s.new_map) [
    | inl e ↦ rw (e, take_new_map) v
    | inr (m, e) ↦
        exchanged-Inv s _ m clients e (ground (arith, e)) (ground (arith, e)) (ground (arith, e))
          (ground (arith, e)) v
  ]

  -- The pool gave out no identifier: the abort of X_RUNTIME_ASSERT.
  abbrev pub Full : State → Type 0
  Full s = (S.acquire s.pool).0 ≡ 0

  -- What CheckAndSetLocalAuthId leaves: the counts hold, and the record in the map has a node.
  abbrev pub Set : Key → State → List ℕ → Option (LocalRecord Address × State) → Type 0
  Set k s clients none = Full s
  Set k s clients (some (r, t)) =
      Counts t clients × (find_record k t.auth_local_map ≡ some r) × (r.local_auth_id ≢ 0)

  -- The state in which the record has been given the node `i`.
  module _ (k : Key) (r r' : LocalRecord Address) (s t : State) (clients : List ℕ) (i : ℕ)
      (node : AuditNode) (found : find_record k s.auth_local_map ≡ some r)
      (unset : r.local_auth_id ≡ 0) (id : r'.local_auth_id ≡ i) (given : i ≡ (S.acquire s.pool).0)
      (nonzero : i ≢ 0) (own : node.local_auth_id ≡ i) (one : node.reference_count ≡ 1)
      (e1 : t.auth_local_map ≡ write_record k r' s.auth_local_map)
      (e2 : t.pool ≡ S.write (S.acquire s.pool).1 i node)
      (e3 : t.timeout_list ≡ X.add_tail s.timeout_list i) (e4 : t.new_map ≡ s.new_map)
      (v : Counts s clients) where
    at_pool :
        (j : ℕ) → check_and_get t.pool j ≡ (if i == j then some node else check_and_get s.pool j)
    at_pool j = ground (
      arith,
      e2,
      S.get-acquire s.pool i,
      S.get-acquire s.pool j,
      S.get-write (S.acquire s.pool).1 i node S.initial j,
    )

    no_refs : refs Address build S X i s clients ≡ 0
    no_refs = ground (arith, v.live i nonzero, S.acquire_fresh s.pool)

    moved :
        (j : ℕ)
        → j ≢ 0
        → refs Address build S X j t clients ≡ refs Address build S X j s clients + bit (i == j)
    moved j z = ground (arith, e1, holders-write_record j k r r' s.auth_local_map found)

    given_node-Inv : Counts t clients
    given_node-Inv = record {
      counted = λ j n h. ground (
        arith,
        at_pool j,
        v.counted j n,
        moved j (λ z. ground (arith, z, S.get-zero t.pool)),
        no_refs,
      );
      live = λ j z h. ground (arith, at_pool j, v.live j z, moved j z);
      listed = λ j. ground (
        arith,
        at_pool j,
        e3,
        X.nodes-add_tail s.timeout_list i,
        occurrences-append j (X.nodes s.timeout_list) i,
        v.listed j,
        S.acquire_fresh s.pool,
      );
      given = v.given;
      unset = λ m h j z. v.unset m (e4' ∙ h) j z;
    }
      where
        e4' : s.new_map ≡ t.new_map
        e4' = sym e4

  pub set-Set :
      (k : Key) (r : LocalRecord Address) (s : State) (clients : List ℕ)
      → find_record k s.auth_local_map ≡ some r
      → Counts s clients
      → Set k s clients (check_and_set_local_auth_id Address build S X k r s)
  unfolding check_and_set_local_auth_id
  set-Set k r s clients found v = elim (Bool-cases (r.local_auth_id == 0)) [
    | inr has ↦ elim (Option-cases (check_and_get s.pool r.local_auth_id)) [
      | inl dead ↦ absurd (
          ground (
            arith,
            dead,
            v.live r.local_auth_id (ground (arith, has)),
            holders-find_record k r s.auth_local_map found,
          ))
      | inr (node, own) ↦ rw (has, own) (v, found, ground arith)
    ]
    | inl unset ↦ elim (Bool-cases ((S.acquire s.pool).0 == 0)) [
      | inl full ↦ rw (unset, full) (ground arith)
      | inr room ↦
          rw (unset, room)
            (
              given_node-Inv k r _ s _ clients (S.acquire s.pool).0 _ found (ground arith) refl refl
                  (ground arith) refl refl refl refl refl refl v,
              find-write_record k r _ s.auth_local_map found,
              ground arith,
            )
    ]
  ]
