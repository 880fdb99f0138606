-- ===== src/Auth/Types.antt =====
-- The records of ppp/lib_component/auth_local_service.hpp and ppp/abstract/auth_abstract.hpp.
use pp.Prelude.{ℕ, ◌*◌, Bool, false, List}

-- The timeouts differ between a debug build and a release build.
pub data Build : Type 0 where
  debug release : Build

abbrev pub account_block_timeout_ms : Build → ℕ
account_block_timeout_ms debug = 1 * 60_000
account_block_timeout_ms release = 15 * 60_000

abbrev pub local_audit_node_idle_timeout_ms : Build → ℕ
local_audit_node_idle_timeout_ms debug = 1 * 60_000
local_audit_node_idle_timeout_ms release = 5 * 60_000

-- The account, a zero byte, and the password.
abbrev pub Key : Type 0
Key = List ℕ

-- `xLocalUsage`
pub record LocalUsage : Type 0 where
  pub dirty : Bool
  pub total_tcp_connections : ℕ
  pub total_tcp_bytes_from_client : ℕ
  pub total_tcp_bytes_to_client : ℕ
  pub total_udp_channels : ℕ
  pub total_udp_bytes_from_client : ℕ
  pub total_udp_bytes_to_client : ℕ

abbrev pub no_usage : LocalUsage
no_usage = record {
  dirty = false;
  total_tcp_connections = 0;
  total_tcp_bytes_from_client = 0;
  total_tcp_bytes_to_client = 0;
  total_udp_channels = 0;
  total_udp_bytes_from_client = 0;
  total_udp_bytes_to_client = 0;
}

-- `xAuthLocalUsageAuditNode`
pub record AuditNode : Type 0 where
  pub local_auth_id : ℕ
  pub global_auth_id : ℕ
  pub reference_count : ℕ
  pub last_report_timestamp_ms : ℕ
  pub audit : LocalUsage

-- `xAuthLocalRecord`
pub record LocalRecord (Address : Type 0) : Type 0 where
  pub local_auth_id : ℕ
  pub global_auth_id : ℕ
  pub country_id : ℕ
  pub enable_tcp : Bool
  pub enable_udp : Bool
  pub bandwidth_limit : ℕ
  pub connection_limit : ℕ
  pub proxy_client_address : Address
  pub static_export_address : Address
  pub block_start_timestamp_ms : ℕ

-- `xAuthResult`, the fields that AcquireAuthInfo fills in.
pub record AuthResult (Address : Type 0) : Type 0 where
  pub local_auth_id : ℕ
  pub global_auth_id : ℕ
  pub proxy_access_address : Address
  pub export_address : Address
  pub enable_tcp : Bool
  pub enable_udp : Bool

-- `xAuthLocalMap`, one entry for each key.
abbrev pub AuthMap : Type 0 → Type 0
AuthMap Address = List (Key × LocalRecord Address)
