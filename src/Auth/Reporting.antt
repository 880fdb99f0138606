-- ===== src/Auth/Reporting.antt =====
-- ReleaseAuthInfo, CheckAndReportLocalAudit and Tick of
-- ppp/lib_component/auth_local_service.cpp.
use pp.Prelude.{
  ℕ, zero, suc, Bool, true, false, List, [], ◌∷◌, Option, none, some, ◌==◌, leb, if◌then◌else◌,
  add64, sub64, length,
}
use pp.Audit.Usage.{AuditUsage}
use pp.Xel.Storage.{Storage}
use pp.Xel.NodeList.{NodeList}
use pp.Auth.Types.{Build, local_audit_node_idle_timeout_ms, LocalUsage, no_usage, AuditNode}
use pp.Auth.Service.{AuthService}

unfoldable pub add_usage : LocalUsage → LocalUsage → LocalUsage
add_usage a u = record {
  dirty = true;
  total_tcp_connections = add64 a.total_tcp_connections u.total_tcp_connections;
  total_tcp_bytes_from_client = add64 a.total_tcp_bytes_from_client u.total_tcp_bytes_from_client;
  total_tcp_bytes_to_client = add64 a.total_tcp_bytes_to_client u.total_tcp_bytes_to_client;
  total_udp_channels = add64 a.total_udp_channels u.total_udp_channels;
  total_udp_bytes_from_client = add64 a.total_udp_bytes_from_client u.total_udp_bytes_from_client;
  total_udp_bytes_to_client = add64 a.total_udp_bytes_to_client u.total_udp_bytes_to_client;
}

-- The report that a node makes at `now`, if it is dirty, and the node without what it reported.
unfoldable pub usage_report : ℕ → AuditNode → Option AuditUsage
usage_report now n =
    if n.audit.dirty
    then some (record {
      auth_id = n.global_auth_id;
      start_timestamp_ms = n.last_report_timestamp_ms;
      period_ms = sub64 now n.last_report_timestamp_ms;
      total_tcp_connections = n.audit.total_tcp_connections;
      total_tcp_bytes_from_client = n.audit.total_tcp_bytes_from_client;
      total_tcp_bytes_to_client = n.audit.total_tcp_bytes_to_client;
      total_udp_channels = n.audit.total_udp_channels;
      total_udp_bytes_from_client = n.audit.total_udp_bytes_from_client;
      total_udp_bytes_to_client = n.audit.total_udp_bytes_to_client;
    })
    else none

unfoldable pub cleared : AuditNode → AuditNode
cleared n = if n.audit.dirty then record n { audit = no_usage } else n

module _ (Address : Type 0) (build : Build) (S : Storage AuditNode) (X : NodeList) where
  open S use {Pool, check_and_get, write, release}
  open X use {add_tail, pop_head_if}

  -- ReleaseAuthInfo; `none` is the failure of its assertions.
  unfoldable pub release_auth_info :
      ℕ → LocalUsage → AuthService Address build S X → Option (AuthService Address build S X)
  unfolding add_usage
  release_auth_info i u s = elim (check_and_get s.pool i) [
    | none ↦ none
    | some n ↦
        if n.local_auth_id == i
        then some (record s {
          pool = write s.pool i (record n {
            audit = add_usage n.audit u;
            reference_count = sub64 n.reference_count 1;
          });
        })
        else none
  ]

  -- One round of the loop of CheckAndReportLocalAudit, on the node that was popped.
  unfoldable pub report_node :
      ℕ
      → AuditNode
      → AuthService Address build S X
      → AuthService Address build S X × Option AuditUsage
  unfolding usage_report cleared
  report_node i n s =
      if n.reference_count == 0
      then (
        record s {
          pool = release s.pool i;
          un_released_auth_info_count = sub64 s.un_released_auth_info_count 1;
        },
        usage_report s.now n,
      )
      else (
        record s {
          pool = write s.pool i (record (cleared n) { last_report_timestamp_ms = s.now });
          timeout_list = add_tail s.timeout_list i;
        },
        usage_report s.now n,
      )

  -- `N.LastReportTimestampMS <= AuditTimepoint`, of the node with an identifier.
  abbrev pub is_due : ℕ → Pool → ℕ → Bool
  is_due now p i = elim (check_and_get p i) [
    | none ↦ false
    | some n ↦ leb n.last_report_timestamp_ms (sub64 now (local_audit_node_idle_timeout_ms build))
  ]

  unfoldable pub add_report :
      Option AuditUsage
      → Option (AuthService Address build S X × List AuditUsage)
      → Option (AuthService Address build S X × List AuditUsage)
  add_report none r = r
  add_report (some u) none = none
  add_report (some u) (some (s, us)) = some (s, u ∷ us)

  -- CheckAndReportLocalAudit with fuel, and the reports that it makes; `none`: out of fuel.
  unfoldable pub check_and_report_local_audit :
      ℕ → AuthService Address build S X → Option (AuthService Address build S X × List AuditUsage)
  unfolding report_node add_report
  check_and_report_local_audit zero s = none
  check_and_report_local_audit (suc fuel) s =
      elim (pop_head_if s.timeout_list (is_due s.now s.pool)) [
        | none ↦ some (s, [])
        | some (i, rest) ↦ elim (check_and_get s.pool i) [
          | none ↦ some (s, [])
          | some n ↦
              let (s', report) = report_node i n (record s { timeout_list = rest }) in
              add_report report (check_and_report_local_audit fuel s')
        ]
      ]

  -- Tick; one round for each node of the list is enough fuel, and one for the end.
  unfoldable pub tick :
      ℕ → AuthService Address build S X → Option (AuthService Address build S X × List AuditUsage)
  unfolding check_and_report_local_audit
  tick now s =
      check_and_report_local_audit (suc (length (X.nodes s.timeout_list))) (record s { now = now })
