-- ===== src/Audit/Collectors.antt =====
-- The audit collectors of ppp/lib_component/audit_service/audit_service.cpp: their list, the
-- connection to each, and the reports that go to one of them.
pub mod Sync
pub mod Update
pub mod Reports
pub mod Kept
use pp.Prelude.{
  ℕ, ◌%◌, true, false, List, [], ◌∷◌, Option, none, some, ◌==◌, ltb, Eq, length, get_elem?,
  if◌then◌else◌, add64,
}
use pp.Audit.Usage.{
  AuditUsage, AuditBlockAccount, Report, audit_report, block_account_report, to_audit_collect,
  to_block_account,
}
use pp.Xel.ClientPool.{ClientPool}

-- `xServerInfo`
pub record ServerInfo (Address : Type 0) : Type 0 where
  pub server_id : ℕ
  pub address : Address

-- One row of `AuditServerList.Container` and of `ConnectionIdList`.
pub record Row (Address : Type 0) : Type 0 where
  pub info : ServerInfo Address
  pub open info use *
  pub connection_id : ℕ

abbrev pub st_target_collector : ℕ
st_target_collector = 1

abbrev pub st_audit_collector : ℕ
st_audit_collector = 2

-- Row `I` is `ServerList[I]` with `TempConnectionIdList[I]`.
abbrev pub rows : {Address : Type 0} → List (ServerInfo Address) → List ℕ → List (Row Address)
rows [] ids = []
rows (s ∷ servers) [] = []
rows (s ∷ servers) (c ∷ ids) = record { info = s; connection_id = c } ∷ rows servers ids

module _ {Address : Type 0} (P : ClientPool Address) where
  open P use {Pool, add_server, remove_server}

  -- The loop over the old rows that are left when the new list has ended.
  pub remove_rest : List (Row Address) → Pool → Pool
  remove_rest [] pool = pool
  remove_rest (old ∷ olds) pool = remove_rest olds (remove_server pool old.connection_id)

  -- An identifier written at the cursor, before those that the rest of the loop writes.
  pub keep_then : ℕ → Option (List ℕ × Pool) → Option (List ℕ × Pool)
  keep_then c none = none
  keep_then c (some (ids, pool)) = some (c ∷ ids, pool)

  -- `RuntimeAssert(Temp[Cursor++] = AddServer(Address))`; `none` is the abort.
  pub add_then : Pool → Address → (Pool → Option (List ℕ × Pool)) → Option (List ℕ × Pool)
  unfolding keep_then
  add_then pool address rest =
      if (add_server pool address).0 == 0
      then none
      else keep_then (add_server pool address).0 (rest (add_server pool address).1)

  -- The loop over the new servers that are left when the old list has ended.
  pub add_rest : List (ServerInfo Address) → Pool → Option (List ℕ × Pool)
  unfolding add_then
  add_rest [] pool = some ([], pool)
  add_rest (new ∷ news) pool = add_then pool new.address (λ q. add_rest news q)

  -- `AuditServerList` and `ConnectionIdList` up to its size, `TcpReporter`, and the counter.
  pub record Collectors : Type 0 where
    pub list : List (Row Address)
    pub reporter : Pool
    pub no_server_report : ℕ

  -- The connection that an account's reports go to: `ConnectionIdList[AuthId % Size]`.
  pub selected_connection : Collectors → ℕ → Option ℕ
  selected_connection state auth_id =
      if length state.list == 0
      then none
      else elim (get_elem? state.list (auth_id % length state.list)) [
        | none ↦ none
        | some row ↦ some row.connection_id
      ]

  -- A report is posted on the selected connection; with no collector it is counted and lost.
  pub post_report : Collectors → ℕ → Report → Collectors × Option (ℕ × Report)
  unfolding selected_connection
  post_report state auth_id report = elim (selected_connection state auth_id) [
    | none ↦ (record state { no_server_report = add64 state.no_server_report 1 }, none)
    | some c ↦ (state, some (c, report))
  ]

  pub report_usage : Collectors → AuditUsage → Collectors × Option (ℕ × Report)
  unfolding post_report to_audit_collect
  report_usage state u = post_report state u.auth_id (audit_report (to_audit_collect u))

  pub report_block_account : Collectors → AuditBlockAccount → Collectors × Option (ℕ × Report)
  unfolding post_report to_block_account
  report_block_account state b =
      post_report state b.auth_id (block_account_report (to_block_account b))

module _ {Address : Type 0} ⦃e : Eq Address⦄ (P : ClientPool Address) where
  open P use {Pool, remove_server}

  -- The `while (true)` of OnServerListUpdated: the identifiers written from the cursor on.
  pub merge : List (Row Address) → List (ServerInfo Address) → Pool → Option (List ℕ × Pool)
  unfolding remove_rest add_rest add_then
  merge olds [] pool = some ([], remove_rest P olds pool)
  merge [] (new ∷ news) pool = add_rest P (new ∷ news) pool
  merge (old ∷ olds) (new ∷ news) pool = elim (old.server_id == new.server_id) [
    | true ↦ elim (e.beq old.address new.address) [
      | true ↦ keep_then P old.connection_id (merge olds news pool)
      | false ↦
          add_then P (remove_server pool old.connection_id) new.address (λ q. merge olds news q)
    ]
    | false ↦ elim (ltb old.server_id new.server_id) [
      | true ↦ merge olds (new ∷ news) (remove_server pool old.connection_id)
      | false ↦ add_then P pool new.address (λ q. merge (old ∷ olds) news q)
    ]
  ]

  -- OnServerListUpdated for the group ST_AUDIT_COLLECTOR, and for the others, which it leaves.
  pub on_server_list_updated : ℕ → List (ServerInfo Address) → Collectors P → Option (Collectors P)
  unfolding merge
  on_server_list_updated group servers state =
      if group == st_audit_collector
      then elim (merge state.list servers state.reporter) [
        | none ↦ none
        | some (ids, pool) ↦ some (record state { list = rows servers ids; reporter = pool })
      ]
      else some state
