-- ===== src/Auth/Blocking.antt =====
-- An account that exceeds a limit is refused until its block runs out.
use pp.Prelude.{
  ℕ, ◌+◌, ◌^◌, ◌<◌, ◌≡◌, ◌≢◌, List, Option, none, some, arith, Option-cases, inl, inr, refl, ◌∙◌,
  sym, subst,
}
use pp.Audit.Usage.{AuditBlockAccount}
use pp.Xel.Storage.{Storage}
use pp.Xel.NodeList.{NodeList}
use pp.Auth.Types.{Build, account_block_timeout_ms, AuditNode, LocalRecord, Key}
use pp.Auth.Service.{
  AuthService, Answer, refused, lift_block, exceeded, answer_record, find_record,
  check_and_set_local_auth_id, acquire_from_map,
}
use pp.Auth.References.{Inv}
use pp.Auth.References.Pool.{find-write_record}
use pp.Auth.References.Acquire.{Set, set-Set}

module _ (Address : Type 0) (build : Build) (S : Storage AuditNode) (X : NodeList) where
  open S use {Pool, check_and_get}

  abbrev State : Type 0
  State = AuthService Address build S X

  abbrev timeout : ℕ
  timeout = account_block_timeout_ms build

  -- A record of the map is blocked since a time, and has a node.
  pub record BlockedSince (k : Key) (since : ℕ) (s : State) : Type 0 where
    pub entry : LocalRecord Address
    pub node : AuditNode
    pub found : find_record k s.auth_local_map ≡ some entry
    pub since_is : entry.block_start_timestamp_ms ≡ since
    pub has_id : entry.local_auth_id ≢ 0
    pub own : check_and_get s.pool entry.local_auth_id ≡ some node

  lift_block-same :
      (now : ℕ) (r r' : LocalRecord Address)
      → lift_block build now r ≡ some r'
      → r'.local_auth_id ≡ r.local_auth_id
  unfolding lift_block
  lift_block-same now r r' h = ground arith

  -- An answer that reports a block leaves the account blocked since now.
  answer_record-blocks :
      (k : Key) (r : LocalRecord Address) (s : State) (b : AuditBlockAccount)
      → find_record k s.auth_local_map ≡ some r
      → r.local_auth_id ≢ 0
      → (answer_record Address build S X k r s).1.reported ≡ some b
      → BlockedSince k s.now (answer_record Address build S X k r s).0
  unfolding answer_record
  answer_record-blocks k r s b found z h =
      elim (Option-cases (check_and_get s.pool r.local_auth_id)) [
        | inl dead ↦ absurd (ground (arith, dead, h))
        | inr (node, own) ↦ elim (Option-cases (lift_block build s.now r)) [
          | inl blocked ↦ absurd (ground (arith, own, blocked, h))
          | inr (r', lifted) ↦ elim (Option-cases (exceeded build s.now r' node.audit)) [
            | inl under ↦ absurd (ground (arith, own, lifted, under, h))
            | inr (report, over) ↦
                rw (own, answer_record, lifted, over)
                  (record {
                    entry = record r' { block_start_timestamp_ms = s.now };
                    node = node;
                    found =
                        find-write_record k r (record r' { block_start_timestamp_ms = s.now })
                          s.auth_local_map found;
                    since_is = refl;
                    has_id = λ e. z (sym (lift_block-same s.now r r' lifted) ∙ e);
                    own =
                        subst (λ i. check_and_get s.pool i ≡ some node)
                          (sym (lift_block-same s.now r r' lifted)) own;
                  })
          ]
        ]
      ]

  -- Before the block runs out, a call answers with nothing and changes nothing.
  blocked-refused :
      (k : Key) (since : ℕ) (s : State)
      → BlockedSince k since s
      → since ≢ 0
      → s.now < since + timeout
      → since + timeout < 2 ^ 64
      → acquire_from_map Address build S X k s ≡ some (s, refused)
  unfolding acquire_from_map check_and_set_local_auth_id answer_record lift_block
  blocked-refused k since s v z h fits =
      ground (arith, v.found, v.since_is, v.has_id, v.own, z, h, fits)

  set-now :
      (k : Key) (r r' : LocalRecord Address) (s s' : State)
      → check_and_set_local_auth_id Address build S X k r s ≡ some (r', s')
      → s'.now ≡ s.now
  unfolding check_and_set_local_auth_id
  set-now k r r' s s' h = ground (arith, h)

  -- Where a call reports a block, the account is blocked since its time.
  abbrev Reports : Key → ℕ → Option (State × Answer Address) → Type 0
  Reports k now none = Unit {0}
  Reports k now (some (t, a)) = (b : AuditBlockAccount) → a.reported ≡ some b → BlockedSince k now t

  acquire-Reports :
      (k : Key) (s : State) (clients : List ℕ)
      → Inv Address build S X s clients
      → Reports k s.now (acquire_from_map Address build S X k s)
  unfolding acquire_from_map
  acquire-Reports k s clients v = elim (Option-cases (find_record k s.auth_local_map)) [
    | inl missing ↦ rw (missing, acquire_from_map) (λ b h. absurd cc)
    | inr (r, found) ↦ elim (Option-cases (check_and_set_local_auth_id Address build S X k r s)) [
      | inl full ↦ rw (found, acquire_from_map, full) tt
      | inr ((r', s'), set) ↦
          let post : Set Address build S X k s clients (some (r', s')) =
            subst (Set Address build S X k s clients) set
              (set-Set Address build S X k r s clients found v) in
          rw (found, acquire_from_map, set)
            (λ b h.
              subst (λ n. BlockedSince k n (answer_record Address build S X k r' s').0)
                (set-now k r r' s s' set) (answer_record-blocks k r' s' b post.1 post.2 h))
    ]
  ]

  later :
      (k : Key) (since now : ℕ) (t : State)
      → BlockedSince k since t
      → BlockedSince k since (record t { now = now })
  later k since now t v = record {
    entry = v.entry;
    node = v.node;
    found = v.found;
    since_is = v.since_is;
    has_id = v.has_id;
    own = v.own;
  }

  -- If a call of AcquireAuthInfo reports a block at a time other than 0, every call for the account
  -- on the state it leaves, at a time before the timeout of the block has passed, is answered with
  -- nothing, reports nothing and changes nothing. The times do not wrap, and no new map has come.
  pub acquire-stays_blocked :
      (k : Key) (s t : State) (a : Answer Address) (b : AuditBlockAccount) (clients : List ℕ)
      (now : ℕ)
      → Inv Address build S X s clients
      → acquire_from_map Address build S X k s ≡ some (t, a)
      → a.reported ≡ some b
      → s.now ≢ 0
      → now < s.now + timeout
      → s.now + timeout < 2 ^ 64
      → acquire_from_map Address build S X k (record t { now = now })
        ≡ some (record t { now = now }, refused)
  acquire-stays_blocked k s t a b clients now v call reported z h fits =
      blocked-refused k s.now (record t { now = now })
        (later k s.now now t
          (subst (Reports k s.now) call (acquire-Reports k s clients v) b reported))
        z h fits
