-- ===== src/Audit/Usage.antt =====
-- ppp/abstract/audit_abstract.hpp: the records that the audit service is handed, and the messages
-- of ppp/pp_protocol that it makes of them.
use pp.Prelude.{ℕ, ◌%◌, ◌^◌}

-- `eBlockAccountReason`
pub data BlockReason : Type 0 where
  bandwidth_limit connection_limit black_list_limit : BlockReason

-- `xAuditUsage`
pub record AuditUsage : Type 0 where
  pub auth_id : ℕ
  pub start_timestamp_ms : ℕ
  pub period_ms : ℕ
  pub total_tcp_connections : ℕ
  pub total_tcp_bytes_from_client : ℕ
  pub total_tcp_bytes_to_client : ℕ
  pub total_udp_channels : ℕ
  pub total_udp_bytes_from_client : ℕ
  pub total_udp_bytes_to_client : ℕ

-- `xAuditBlockAccount`
pub record AuditBlockAccount : Type 0 where
  pub auth_id : ℕ
  pub start_timestamp_ms : ℕ
  pub period_ms : ℕ
  pub reason : BlockReason
  pub threshold : ℕ
  pub trigger_value : ℕ

-- `xPP_AuditCollect`
pub record AuditCollect : Type 0 where
  pub global_auth_id : ℕ
  pub start_timestamp_ms : ℕ
  pub period_ms : ℕ
  pub total_tcp_connections : ℕ
  pub total_tcp_bytes_from_client : ℕ
  pub total_tcp_bytes_to_client : ℕ
  pub total_udp_channels : ℕ
  pub total_udp_bytes_from_client : ℕ
  pub total_udp_bytes_to_client : ℕ

-- `xPP_BlockAccount`
pub record BlockAccount : Type 0 where
  pub start_timestamp_ms : ℕ
  pub global_auth_id : ℕ
  pub block_reason : BlockReason
  pub block_threshold : ℕ
  pub block_trigger_value : ℕ
  pub block_period_ms : ℕ

-- The messages that ReportUsage and ReportBlockAccount post.
pub data Report : Type 0 where
  audit_report : AuditCollect → Report
  block_account_report : BlockAccount → Report

unfoldable pub to_audit_collect : AuditUsage → AuditCollect
to_audit_collect u = record {
  global_auth_id = u.auth_id;
  start_timestamp_ms = u.start_timestamp_ms;
  period_ms = u.period_ms;
  total_tcp_connections = u.total_tcp_connections;
  total_tcp_bytes_from_client = u.total_tcp_bytes_from_client;
  total_tcp_bytes_to_client = u.total_tcp_bytes_to_client;
  total_udp_channels = u.total_udp_channels;
  total_udp_bytes_from_client = u.total_udp_bytes_from_client;
  total_udp_bytes_to_client = u.total_udp_bytes_to_client;
}

unfoldable pub to_block_account : AuditBlockAccount → BlockAccount
to_block_account b = record {
  start_timestamp_ms = b.start_timestamp_ms;
  global_auth_id = b.auth_id;
  block_reason = b.reason;
  block_threshold = b.threshold;
  block_trigger_value = b.trigger_value;
  block_period_ms = b.period_ms % 2 ^ 32;  -- uint32_t
}
