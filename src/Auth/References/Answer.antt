-- ===== src/Auth/References/Answer.antt =====
-- AcquireAuthInfo keeps the counts: the answer, and the whole call.
use pp.Prelude.{
  ℕ, ◌≡◌, ◌≢◌, List, ◌∷◌, Option, none, some, arith, ◌==◌, if◌then◌else◌, Option-cases, inl, inr,
  refl, ◌∙◌, sym, add64,
}
use pp.Xel.Storage.{Storage}
use pp.Xel.NodeList.{NodeList}
use pp.Auth.Types.{Build, AuditNode, LocalRecord, Key}
use pp.Auth.Service.{
  AuthService, Answer, lift_block, exceeded, to_result, answer_record, find_record, write_record,
  take_new_map, check_and_set_local_auth_id, acquire_from_map, acquire_auth_info,
}
use pp.Auth.References.{holders, Inv}
use pp.Auth.References.Pool.{holders-write_record}
use pp.Auth.References.Acquire.{Full, Set, set-Set, take_new_map-Inv}

module _ (Address : Type 0) (build : Build) (S : Storage AuditNode) (X : NodeList) where
  open S use {Pool, check_and_get}

  abbrev State : Type 0
  State = AuthService Address build S X

  abbrev Counts : State → List ℕ → Type 0
  Counts = Inv Address build S X

  -- The clients after an answer: one more if it grants the account.
  abbrev pub granted : Answer Address → List ℕ → List ℕ
  granted a clients = elim a.result [ none ↦ clients | some r ↦ r.local_auth_id ∷ clients ]

  -- A record that is written keeps its node, and the node gets one reference for a client, or none.
  written-Inv :
      (k : Key) (r r' : LocalRecord Address) (s t : State) (clients : List ℕ)
      → find_record k s.auth_local_map ≡ some r
      → r'.local_auth_id ≡ r.local_auth_id
      → t.auth_local_map ≡ write_record k r' s.auth_local_map
      → t.pool ≡ s.pool
      → t.timeout_list ≡ s.timeout_list
      → t.new_map ≡ s.new_map
      → Counts s clients
      → Counts t clients
  written-Inv k r r' s t clients found id e1 e2 e3 e4 v = record {
    counted = λ j n h. ground (arith, v.counted j n, same j);
    live = λ j z h. ground (arith, v.live j z, same j);
    listed = λ j. ground (arith, v.listed j, e3);
    given = v.given;
    unset = λ m h j z. v.unset m (sym e4 ∙ h) j z;
  }
    where
      same : (j : ℕ) → holders j t.auth_local_map ≡ holders j s.auth_local_map
      same j = ground (arith, e1, holders-write_record j k r r' s.auth_local_map found)

  referenced-Inv :
      (i c : ℕ) (node : AuditNode) (s t : State) (clients : List ℕ)
      → c ≡ i
      → i ≢ 0
      → check_and_get s.pool i ≡ some node
      → t.auth_local_map ≡ s.auth_local_map
      → t.pool ≡ S.write s.pool i (record node { reference_count = add64 node.reference_count 1 })
      → t.timeout_list ≡ s.timeout_list
      → t.new_map ≡ s.new_map
      → Counts s clients
      → Counts t (c ∷ clients)
  referenced-Inv i c node s t clients ec z own e1 e2 e3 e4 v = record {
    counted = λ j n h. ground (arith, at_pool j, v.counted j n, v.counted i node own, e1);
    live = λ j z' h. ground (arith, at_pool j, v.live j z', e1);
    listed = λ j. ground (arith, at_pool j, v.listed j, e3);
    given = ground (arith, v.given);
    unset = λ m h j z'. v.unset m (sym e4 ∙ h) j z';
  }
    where
      at_pool :
          (j : ℕ)
          → check_and_get t.pool j ≡ (
              if i == j
              then some (record node { reference_count = add64 node.reference_count 1 })
              else check_and_get s.pool j)
      at_pool j = ground (
        arith,
        e2,
        S.get-write s.pool i (record node { reference_count = add64 node.reference_count 1 }) node j
            own,
      )

  lift_block-id :
      (now : ℕ) (r r' : LocalRecord Address)
      → lift_block build now r ≡ some r'
      → r'.local_auth_id ≡ r.local_auth_id
  unfolding lift_block
  lift_block-id now r r' h = ground arith

  answer-Inv :
      (k : Key) (r : LocalRecord Address) (s : State) (clients : List ℕ)
      → Counts s clients
      → find_record k s.auth_local_map ≡ some r
      → r.local_auth_id ≢ 0
      → let (t, a) = answer_record Address build S X k r s in Counts t (granted a clients)
  unfolding answer_record to_result
  answer-Inv k r s clients v found z = elim (Option-cases (check_and_get s.pool r.local_auth_id)) [
    | inl dead ↦ rw (dead, answer_record) v
    | inr (node, own) ↦ elim (Option-cases (lift_block build s.now r)) [
      | inl blocked ↦ rw (own, answer_record, blocked) v
      | inr (r', lifted) ↦ elim (Option-cases (exceeded build s.now r' node.audit)) [
        | inr (report, over) ↦
            rw (own, answer_record, lifted, over)
              (written-Inv k r _ s _ clients found (lift_block-id s.now r r' lifted) refl refl refl
                refl v)
        | inl under ↦
            rw (own, answer_record, lifted, under)
              (referenced-Inv r.local_auth_id r'.local_auth_id node
                (record s { auth_local_map = write_record k r' s.auth_local_map }) _ clients
                (lift_block-id s.now r r' lifted) z own refl refl refl refl
                (written-Inv k r r' s _ clients found (lift_block-id s.now r r' lifted) refl refl
                  refl refl v))
      ]
    ]
  ]

  -- The counts after the call; it aborts only if the pool is full.
  abbrev pub Acquired : State → List ℕ → Option (State × Answer Address) → Type 0
  Acquired s clients none = Full Address build S X s
  Acquired s clients (some (t, a)) = Counts t (granted a clients)

  acquire_from_map-Inv :
      (k : Key) (s : State) (clients : List ℕ)
      → Counts s clients
      → Acquired s clients (acquire_from_map Address build S X k s)
  unfolding acquire_from_map
  acquire_from_map-Inv k s clients v = elim (Option-cases (find_record k s.auth_local_map)) [
    | inl missing ↦ rw (missing, acquire_from_map) v
    | inr (r, found) ↦
        rw (found, acquire_from_map)
          (finish (check_and_set_local_auth_id Address build S X k r s)
            (set-Set Address build S X k r s clients found v))
  ]
    where
      finish :
          (o : Option (LocalRecord Address × State))
          → Set Address build S X k s clients o
          → Acquired s clients (elim o [
            | none ↦ none
            | some (r', s') ↦ some (answer_record Address build S X k r' s')
          ])
      finish none h = h
      finish (some (r', s')) h = answer-Inv k r' s' clients h.0 h.1 h.2

  -- AcquireAuthInfo keeps every count of holders, with one client more if it grants the account.
  pub acquire-Acquired :
      (k : Key) (s : State) (clients : List ℕ)
      → Counts s clients
      → Acquired
          (take_new_map Address build S X s)
          clients
          (acquire_auth_info Address build S X k s)
  unfolding acquire_auth_info
  acquire-Acquired k s clients v =
      acquire_from_map-Inv k (take_new_map Address build S X s) clients
        (take_new_map-Inv Address build S X s clients v)
