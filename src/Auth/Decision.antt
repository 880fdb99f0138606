-- ===== src/Auth/Decision.antt =====
-- Who is granted an account.
use pp.Prelude.{
  ℕ, ◌<◌, ◌≡◌, ◌≢◌, ◌⊎◌, none, some, arith, Option-cases, inl, inr, refl, ◌∙◌, ap, add64,
}
use pp.Audit.Usage.{AuditBlockAccount}
use pp.Xel.Storage.{Storage}
use pp.Xel.NodeList.{NodeList}
use pp.Auth.Types.{Build, account_block_timeout_ms, AuditNode, LocalRecord, LocalUsage, Key}
use pp.Auth.Service.{
  AuthService, Answer, refused, lift_block, exceeded, to_result, total_consumed, answer_record,
}

module _ (Address : Type 0) (build : Build) (S : Storage AuditNode) (X : NodeList) where
  -- The record is blocked, and the block has not run out.
  abbrev pub IsBlocked : ℕ → LocalRecord Address → Type 0
  IsBlocked now r =
      (r.block_start_timestamp_ms ≢ 0)
      × (now < add64 r.block_start_timestamp_ms (account_block_timeout_ms build))

  -- The usage is above a limit that is set.
  abbrev pub IsOver : LocalRecord Address → LocalUsage → Type 0
  IsOver r u =
      ((r.bandwidth_limit ≢ 0) × (r.bandwidth_limit < total_consumed u))
      ⊎ ((r.connection_limit ≢ 0) × (r.connection_limit < u.total_tcp_connections))

  -- What the answer has to be, for the record and the usage of its node.
  abbrev pub Decided : ℕ → LocalRecord Address → LocalUsage → Answer Address → Type 0
  Decided now r u a =
      (IsBlocked now r × (a ≡ refused))
      ⊎ ((¬ IsBlocked now r)
          × IsOver r u
          × (a.result ≡ none)
          × ((b : AuditBlockAccount) × (a.reported ≡ some b)
              × (b.auth_id ≡ r.global_auth_id)
              × (b.start_timestamp_ms ≡ now)))
      ⊎ ((¬ IsBlocked now r)
          × (¬ IsOver r u)
          × (a ≡ record { result = some (to_result r); reported = none }))

  lifted-block :
      (now : ℕ) (r r' : LocalRecord Address)
      → lift_block build now r ≡ some r'
      → (¬ IsBlocked now r)
        × (r'.bandwidth_limit ≡ r.bandwidth_limit)
        × (r'.connection_limit ≡ r.connection_limit)
        × (r'.global_auth_id ≡ r.global_auth_id)
        × (to_result r' ≡ to_result r)
  unfolding lift_block to_result
  lifted-block now r r' h = (
    (λ k. ground (arith, h, k)),
    ground (arith, h),
    ground (arith, h),
    ground (arith, h),
    ground (arith, h),
  )

  lift_block-IsBlocked :
      (now : ℕ) (r : LocalRecord Address) → lift_block build now r ≡ none → IsBlocked now r
  unfolding lift_block
  lift_block-IsBlocked now r h = ground (arith, h)

  exceeded-IsOver :
      (now : ℕ) (r : LocalRecord Address) (u : LocalUsage) (b : AuditBlockAccount)
      → exceeded build now r u ≡ some b
      → IsOver r u × (b.auth_id ≡ r.global_auth_id) × (b.start_timestamp_ms ≡ now)
  unfolding exceeded
  exceeded-IsOver now r u b h = ground (arith, h)

  exceeded-none :
      (now : ℕ) (r : LocalRecord Address) (u : LocalUsage)
      → exceeded build now r u ≡ none
      → ¬ IsOver r u
  unfolding exceeded
  exceeded-none now r u h o = ground (arith, h, o)

  -- What AcquireAuthInfo answers for a record whose node is in use: nothing while a block lasts;
  -- nothing, and the report of a new block of the account, where the usage since the last report is
  -- above a limit that is set; and otherwise the account, with no report.
  pub answer_record-Decided :
      (k : Key) (r : LocalRecord Address) (s : AuthService Address build S X) (node : AuditNode)
      → S.check_and_get s.pool r.local_auth_id ≡ some node
      → Decided s.now r node.audit (answer_record Address build S X k r s).1
  unfolding answer_record
  answer_record-Decided k r s node own = elim (Option-cases (lift_block build s.now r)) [
    | inl blocked ↦
        rw (own, answer_record, blocked) (inl (lift_block-IsBlocked s.now r blocked, refl))
    | inr (r', lifted) ↦
        let l = lifted-block s.now r r' lifted in
        elim (Option-cases (exceeded build s.now r' node.audit)) [
          | inr (b, over) ↦
              let o = exceeded-IsOver s.now r' node.audit b over in
              rw (own, answer_record, lifted, over)
                (inr (inl (l.0, ground (arith, o.0, l.1, l.2), refl, (b, refl, o.1 ∙ l.3, o.2))))
          | inl under ↦
              rw (own, answer_record, lifted, under)
                (inr (
                  inr (
                    l.0,
                    (λ o. exceeded-none s.now r' node.audit under (ground (arith, o, l.1, l.2))),
                    ap (λ x. record { result = some x; reported = none }) l.4,
                  )))
        ]
  ]
