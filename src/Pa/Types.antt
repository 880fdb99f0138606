-- ===== src/Pa/Types.antt =====
-- The state of a connection of ppp/lib_component/pa_service.hpp, and what a handler does with the
-- rest of the program.
use pp.Prelude.{ℕ, Bool, List, Option, Bytes}
use pp.Auth.Types.{LocalUsage}

-- `xPA_ClientConnection::eType`
pub data ProxyType : Type 0 where
  undetermined s5_challenge s5_tcp s5_udp http_raw http_normal : ProxyType

-- The member functions that a DataProcessor points to.
pub data Processor : Type 0 where
  guess_proxy_type kill_connection s5_auth_info s5_target raw_data : Processor
  http_raw_header http_normal_header http_body : Processor

-- The list that a connection is linked in.
pub data Queue : Type 0 where
  init_timeout idle_timeout graceful_kill kill : Queue

-- `xDeviceReference`
pub record DeviceReference : Type 0 where
  pub relay_server_id : ℕ
  pub relay_side_device_id : ℕ

-- `xPA_ClientUdpChannel`
pub record UdpChannel (Address : Type 0) : Type 0 where
  pub udp_channel_id : ℕ
  pub relay_side_udp_channel_id : ℕ
  pub client_ip_check_address : Address
  pub last_client_ip_address : Address

-- `xHttpData`
pub record HttpData : Type 0 where
  pub target_host : Bytes
  pub target_port : ℕ
  pub content : Bytes
  pub temp_header_line : Bytes
  pub content_length_left : ℕ

-- `xPA_ClientConnection`. A pointer to a future is its identifier, 0 for the null pointer.
pub record Client (Address : Type 0) : Type 0 where
  pub connection_id : ℕ
  pub queue : Queue
  pub timestamp_ms : ℕ
  pub bind_udp_channel : Option (UdpChannel Address)
  pub delete_mark : Bool
  pub no_auth : Bool
  pub enable_udp_target : Bool
  pub data_processor : Processor
  pub proxy_type : ProxyType
  pub auth_future : ℕ
  pub acquire_device_future : ℕ
  pub acquire_device_connection_future : ℕ
  pub acquire_device_udp_channel_future : ℕ
  pub local_auth_id : ℕ
  pub global_auth_id : ℕ
  pub device_reference : DeviceReference
  pub relay_side_connection_id : ℕ
  pub total_tcp_bytes_from_client : ℕ
  pub total_tcp_bytes_to_client : ℕ
  pub total_udp_bytes_from_client : ℕ
  pub total_udp_bytes_to_client : ℕ
  pub http : HttpData

-- The counters of `xAudit`.
pub data Counter : Type 0 where
  invalid_s5_auth_type_count invalid_s5_auth_info invalid_s5_target : Counter
  request_authentication_oom init_connection_timeout_count : Counter

-- The futures of the four managers.
pub data Manager : Type 0 where
  auth_manager device_manager connection_manager udp_channel_manager : Manager

-- What a handler does outside the connection's own state.
pub data Effect (Address : Type 0) : Type 0 where
  post : Bytes → Effect Address  -- Connection->PostData
  count : Counter → Effect Address
  -- AuthService
  acquire_auth_info : (key : Bytes) (future : ℕ) → Effect Address
  release_auth_info : (local_auth_id : ℕ) (usage : LocalUsage) → Effect Address
  -- DeviceLocatorService
  acquire_device : (export_address : Address) (future : ℕ) → Effect Address
  -- RelayService
  create_connection :
      (device : DeviceReference) (connection : ℕ) (target : Address) (future : ℕ) → Effect Address
  create_connection_by_name :
      (device : DeviceReference) (connection : ℕ) (host : Bytes) (port : ℕ) (future : ℕ)
      → Effect Address
  create_udp_channel : (device : DeviceReference) (channel : ℕ) (future : ℕ) → Effect Address
  relay_data : (server : ℕ) (connection : ℕ) (payload : Bytes) → Effect Address
  relay_datagram : (server : ℕ) (channel : ℕ) (target : Address) (payload : Bytes) → Effect Address
  destroy_relay_connection : (server : ℕ) (connection : ℕ) → Effect Address
  destroy_relay_udp_channel : (server : ℕ) (channel : ℕ) → Effect Address
  -- TargetReportService, if it is bound
  report_address : (global_auth_id : ℕ) (target : Address) → Effect Address
  report_host : (global_auth_id : ℕ) (target : Bytes) → Effect Address
  -- The pools and the channel's socket
  release_future : Manager → ℕ → Effect Address
  post_udp : (to : Address) (packet : Bytes) → Effect Address
  release_udp_channel : ℕ → Effect Address
  release_connection : ℕ → Effect Address

-- What a data processor returns; `aborted` is a failed assertion or a null pointer that is used.
pub data Consumed : Type 0 where
  consumed : ℕ → Consumed
  invalid_data_size : Consumed
  aborted : Consumed

pub record Outcome (Address : Type 0) : Type 0 where
  pub client : Client Address
  pub effects : List (Effect Address)
  pub result : Consumed

-- What the pools, the socket and the configuration give to one call of a handler: an identifier
-- that Acquire returns is 0 where the pool is full.
pub record Env (Address : Type 0) : Type 0 where
  pub now : ℕ  -- LocalTicker()
  pub next_auth_future : ℕ
  pub next_device_future : ℕ
  pub next_connection_future : ℕ
  pub next_udp_channel_future : ℕ
  pub next_udp_channel : ℕ
  pub can_bind : Bool  -- UdpChannel.Init
  pub local_address : Address  -- Connection->GetLocalAddress()
  pub remote_address : Address
  pub behind_packet : Bytes  -- what stands in the memory behind the packet
  pub reports_targets : Bool  -- TargetReportService is bound
