-- ===== src/ServerList.antt =====
-- The lists of servers: their publisher (s_small_server_list/main.cpp), their download
-- (ppp/lib_component/small_server_list_downloader.cpp), and the connections to the servers
-- (ppp/lib_component/small_server_list_tcp_client.cpp).
pub mod Client
pub mod Publisher
pub mod Downloader
pub mod System
mod Tests
use pp.Prelude.{ℕ, ◌-◌, List, Option, none, some, ◌==◌, if◌then◌else◌}
use pp.Xel.ServerIds.{ServerIds}
use pp.Audit.Collectors.{ServerInfo}

abbrev pub max_small_server_list_size : ℕ
max_small_server_list_size = 128

-- `xServerInfo{}`
abbrev pub no_server : {Address : Type 0} → Address → ServerInfo Address
no_server unknown = record { server_id = 0; address = unknown }

-- `xPP_GetSmallServerListResp`, its list up to its size, and the request that it answers.
pub record Response (Address : Type 0) : Type 0 where
  pub version_timestamp_ms : ℕ
  pub server_list : List (ServerInfo Address)

pub record Reply (Address : Type 0) : Type 0 where
  pub request_id : ℕ
  pub response : Response Address

-- `xPP_GetSmallServerList`, with its request identifier and where it is sent.
pub record Request (Address : Type 0) : Type 0 where
  pub to : Address
  pub request_id : ℕ
  pub server_group : ℕ

-- ExtractIndexFromSmallServerId; `none` for a failed assertion.
unfoldable pub small_index : ServerIds → ℕ → Option ℕ
small_index ids id =
    if id == 0
    then none
    else if ids.object_id_of id == 0
    then none
    else some (ids.object_id_of id - 1)
