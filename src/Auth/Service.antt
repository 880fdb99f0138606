-- ===== src/Auth/Service.antt =====
-- AcquireAuthInfo, ReleaseAuthInfo and Tick of ppp/lib_component/auth_local_service.cpp.
use pp.Prelude.{
  ℕ, [], ◌∷◌, Option, none, some, ◌==◌, ◌&&◌, leb, ltb, if◌then◌else◌, add64, sub64, length,
  bytes_eq,
}
use pp.Audit.Usage.{AuditBlockAccount, bandwidth_limit, connection_limit}
use pp.Xel.Storage.{Storage}
use pp.Xel.NodeList.{NodeList}
use pp.Auth.Types.{
  Build, account_block_timeout_ms, Key, LocalUsage, AuditNode, LocalRecord, AuthResult, AuthMap,
}

module _ {Address : Type 0} where
  abbrev pub find_record : Key → AuthMap Address → Option (LocalRecord Address)
  find_record k [] = none
  find_record k ((j, r) ∷ m) = if bytes_eq j k then some r else find_record k m

  -- An assignment to the record of an entry.
  abbrev pub write_record : Key → LocalRecord Address → AuthMap Address → AuthMap Address
  write_record k r [] = []
  write_record k r ((j, q) ∷ m) = if bytes_eq j k then (j, r) ∷ m else (j, q) ∷ write_record k r m

-- The bytes that count against the bandwidth limit.
unfoldable pub total_consumed : LocalUsage → ℕ
total_consumed u =
    add64
      (add64 (add64 u.total_tcp_bytes_from_client u.total_tcp_bytes_to_client)
        u.total_udp_bytes_from_client)
      u.total_udp_bytes_to_client

module _ {Address : Type 0} (build : Build) (now : ℕ) where
  -- A record that is not blocked, or whose block has run out and is lifted.
  unfoldable pub lift_block : LocalRecord Address → Option (LocalRecord Address)
  lift_block r =
      if r.block_start_timestamp_ms == 0
      then some r
      else if leb (add64 r.block_start_timestamp_ms (account_block_timeout_ms build)) now
      then some (record r { block_start_timestamp_ms = 0 })
      else none

  -- The limit that the usage since the last report exceeds: bandwidth first, then connections.
  unfoldable pub exceeded : LocalRecord Address → LocalUsage → Option AuditBlockAccount
  unfolding total_consumed
  exceeded r u =
      if ltb 0 r.bandwidth_limit && ltb r.bandwidth_limit (total_consumed u)
      then some (record {
        auth_id = r.global_auth_id;
        start_timestamp_ms = now;
        period_ms = account_block_timeout_ms build;
        reason = bandwidth_limit;
        threshold = r.bandwidth_limit;
        trigger_value = total_consumed u;
      })
      else if ltb 0 r.connection_limit && ltb r.connection_limit u.total_tcp_connections
      then some (record {
        auth_id = r.global_auth_id;
        start_timestamp_ms = now;
        period_ms = account_block_timeout_ms build;
        reason = connection_limit;
        threshold = r.connection_limit;
        trigger_value = u.total_tcp_connections;
      })
      else none

unfoldable pub to_result : {Address : Type 0} → LocalRecord Address → AuthResult Address
to_result r = record {
  local_auth_id = r.local_auth_id;
  global_auth_id = r.global_auth_id;
  proxy_access_address = r.proxy_client_address;
  export_address = r.static_export_address;
  enable_tcp = r.enable_tcp;
  enable_udp = r.enable_udp;
}

-- What AcquireAuthInfo leaves in the future, and the block that it reports.
pub record Answer (Address : Type 0) : Type 0 where
  pub result : Option (AuthResult Address)
  pub reported : Option AuditBlockAccount

abbrev pub refused : {Address : Type 0} → Answer Address
refused = record { result = none; reported = none }

module _ (S : Storage AuditNode) where
  open S use {Pool, check_and_get, write}

  unfoldable pub drop_reference : ℕ → Pool → Pool
  drop_reference i p = elim (check_and_get p i) [
    | none ↦ p
    | some n ↦ write p i (record n { reference_count = sub64 n.reference_count 1 })
  ]

  -- The loop over the entries of the map that is replaced.
  unfoldable pub drop_map : {Address : Type 0} → AuthMap Address → Pool → Pool
  unfolding drop_reference
  drop_map [] p = p
  drop_map ((k, r) ∷ m) p =
      drop_map m (if r.local_auth_id == 0 then p else drop_reference r.local_auth_id p)

module _ (Address : Type 0) (build : Build) (S : Storage AuditNode) (X : NodeList) where
  open S use {Pool, check_and_get, acquire, write, release}
  open X use {Links, add_tail, pop_head_if}

  pub record AuthService : Type 0 where
    pub now : ℕ  -- LocalTicker()
    pub auth_local_map : AuthMap Address
    pub pool : Pool
    pub timeout_list : Links
    pub new_map : Option (AuthMap Address)  -- LastReloadInfo.AuthMap
    pub un_released_auth_info_count : ℕ
    pub cached_auth_info_count : ℕ
    pub cached_auth_info_map_version : ℕ

  -- The exchange of the map that the reload thread has left.
  unfoldable pub take_new_map : AuthService → AuthService
  unfolding drop_map
  take_new_map s = elim s.new_map [
    | none ↦ s
    | some m ↦ record s {
      auth_local_map = m;
      pool = drop_map S s.auth_local_map s.pool;
      new_map = none;
      cached_auth_info_count = length m;
      cached_auth_info_map_version = add64 s.cached_auth_info_map_version 1;
    }
  ]

  -- CheckAndSetLocalAuthId; `none` is the failure of an assertion, on a full pool or on a node
  -- that is not in use.
  unfoldable pub check_and_set_local_auth_id :
      Key → LocalRecord Address → AuthService → Option (LocalRecord Address × AuthService)
  check_and_set_local_auth_id k r s =
      if r.local_auth_id == 0
      then (let (i, p) = acquire s.pool in
          if i == 0
          then none
          else (let r' : LocalRecord Address = record r { local_auth_id = i } in
              some (
                r',
                record s {
                  auth_local_map = write_record k r' s.auth_local_map;
                  pool = write p i (record {
                    local_auth_id = i;
                    global_auth_id = r.global_auth_id;
                    reference_count = 1;
                    last_report_timestamp_ms = s.now;
                    audit = S.initial.audit;
                  });
                  timeout_list = add_tail s.timeout_list i;
                  un_released_auth_info_count = add64 s.un_released_auth_info_count 1;
                },
              )))
      else elim (check_and_get s.pool r.local_auth_id) [ none ↦ none | some node ↦ some (r, s) ]

  -- The part of AcquireAuthInfo behind CheckAndSetLocalAuthId, on the record and its node, which
  -- that call has found.
  unfoldable pub answer_record :
      Key → LocalRecord Address → AuthService → AuthService × Answer Address
  unfolding lift_block exceeded to_result
  answer_record k r s = elim (check_and_get s.pool r.local_auth_id) [
    | none ↦ (s, refused)
    | some node ↦ elim (lift_block build s.now r) [
      | none ↦ (s, refused)
      | some r' ↦ elim (exceeded build s.now r' node.audit) [
        | some report ↦ (
          record s {
            auth_local_map =
                write_record k (record r' { block_start_timestamp_ms = s.now }) s.auth_local_map;
          },
          record { result = none; reported = some report },
        )
        | none ↦ (
          record s {
            auth_local_map = write_record k r' s.auth_local_map;
            pool =
                write s.pool r.local_auth_id
                  (record node { reference_count = add64 node.reference_count 1 });
          },
          record { result = some (to_result r'); reported = none },
        )
      ]
    ]
  ]

  -- AcquireAuthInfo, behind the exchange of the map.
  unfoldable pub acquire_from_map : Key → AuthService → Option (AuthService × Answer Address)
  unfolding check_and_set_local_auth_id answer_record
  acquire_from_map k s = elim (find_record k s.auth_local_map) [
    | none ↦ some (s, refused)
    | some r ↦ elim (check_and_set_local_auth_id k r s) [
      | none ↦ none
      | some (r', s') ↦ some (answer_record k r' s')
    ]
  ]

  -- AcquireAuthInfo. The future is set ready whatever it holds.
  unfoldable pub acquire_auth_info : Key → AuthService → Option (AuthService × Answer Address)
  unfolding take_new_map acquire_from_map
  acquire_auth_info k s = acquire_from_map k (take_new_map s)
