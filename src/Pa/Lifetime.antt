-- ===== src/Pa/Lifetime.antt =====
-- How a connection of ppp/lib_component/pa_service.cpp is kept, marked and destroyed.
use pp.Prelude.{
  ℕ, Bool, true, false, List, [], ◌∷◌, ◌++◌, Option, none, some, ◌==◌, leb, if◌then◌else◌, sub64,
}
use pp.Auth.Types.{LocalUsage}
use pp.Pa.Types.{
  undetermined, s5_tcp, s5_udp, http_normal, http_raw, guess_proxy_type, init_timeout, idle_timeout,
  graceful_kill, kill, UdpChannel, Client, init_connection_timeout_count, Manager, auth_manager,
  device_manager, connection_manager, udp_channel_manager, Effect, count, release_auth_info,
  destroy_relay_connection, destroy_relay_udp_channel, release_future, release_udp_channel,
  release_connection,
}

abbrev pub pa_client_auth_timeout_ms : ℕ
pa_client_auth_timeout_ms = 5_000

abbrev pub client_connection_idle_timeout_ms : ℕ
client_connection_idle_timeout_ms = 125_000

abbrev pub pa_graceful_kill_timeout_ms : ℕ
pa_graceful_kill_timeout_ms = 60_000

-- OnNewConnection, once the socket is taken over: the members that it sets, the others as they are
-- declared.
unfoldable pub new_client : {Address : Type 0} → (now connection_id : ℕ) → Client Address
new_client now connection_id = record {
  connection_id = connection_id;
  queue = init_timeout;
  timestamp_ms = now;
  bind_udp_channel = none;
  delete_mark = false;
  no_auth = false;
  enable_udp_target = false;
  data_processor = guess_proxy_type;
  proxy_type = undetermined;
  auth_future = 0;
  acquire_device_future = 0;
  acquire_device_connection_future = 0;
  acquire_device_udp_channel_future = 0;
  local_auth_id = 0;
  global_auth_id = 0;
  device_reference = record { relay_server_id = 0; relay_side_device_id = 0 };
  relay_side_connection_id = 0;
  total_tcp_bytes_from_client = 0;
  total_tcp_bytes_to_client = 0;
  total_udp_bytes_from_client = 0;
  total_udp_bytes_to_client = 0;
  http = record {
    target_host = [];
    target_port = 0;
    content = [];
    temp_header_line = [];
    content_length_left = 0;
  };
}

module _ {Address : Type 0} where
  -- KeepAlive; a connection that is marked stays where it is.
  unfoldable pub keep_alive : ℕ → Client Address → Bool × Client Address
  keep_alive now c =
      if c.delete_mark
      then (false, c)
      else (true, record c { timestamp_ms = now; queue = idle_timeout })

  unfoldable pub defer_kill : Client Address → Client Address
  defer_kill c = record c { delete_mark = true; queue = kill }

  unfoldable pub defer_graceful_kill :
      (now : ℕ) (has_pending_writes : Bool) → Client Address → Client Address
  defer_graceful_kill now has_pending_writes c =
      if c.delete_mark
      then c
      else if has_pending_writes
      then record c { delete_mark = true; timestamp_ms = now; queue = graceful_kill }
      else record c { delete_mark = true }

  -- `N.TimestampMS <= KillTimepoint`, with the timeout of the list.
  unfoldable pub is_expired : (now timeout : ℕ) → Client Address → Bool
  is_expired now timeout c = leb c.timestamp_ms (sub64 now timeout)

  -- What DeferKillInitTimeoutConnection, DeferKillIdleTimeoutConnection and
  -- DeferGracefulKillConnection do with a connection that is at the head of its list.
  unfoldable pub defer_kill_timeout : ℕ → Client Address → Client Address × List (Effect Address)
  unfolding is_expired
  defer_kill_timeout now c = elim c.queue [
    | init_timeout ↦
        if is_expired now pa_client_auth_timeout_ms c
        then (record c { queue = kill }, count init_connection_timeout_count ∷ [])
        else (c, [])
    | idle_timeout ↦
        if is_expired now client_connection_idle_timeout_ms c
        then (record c { queue = kill }, [])
        else (c, [])
    | graceful_kill ↦
        if is_expired now pa_graceful_kill_timeout_ms c
        then (record c { queue = kill }, [])
        else (c, [])
    | kill ↦ (c, [])
  ]

  unfoldable pub usage_of : Client Address → LocalUsage
  usage_of c = record {
    dirty = false;
    total_tcp_connections = 1;
    total_tcp_bytes_from_client = c.total_tcp_bytes_from_client;
    total_tcp_bytes_to_client = c.total_tcp_bytes_to_client;
    total_udp_channels = elim c.bind_udp_channel [ none ↦ 0 | some u ↦ 1 ];
    total_udp_bytes_from_client = c.total_udp_bytes_from_client;
    total_udp_bytes_to_client = c.total_udp_bytes_to_client;
  }

  -- ReleaseAuthFuture and the others, if there is a future.
  unfoldable pub release_if : Manager → ℕ → List (Effect Address)
  release_if m f = if f == 0 then [] else release_future m f ∷ []

  unfoldable pub release_channel : Option (UdpChannel Address) → List (Effect Address)
  release_channel none = []
  release_channel (some u) = release_udp_channel u.udp_channel_id ∷ []

  -- DestroyConnection: the connection is gone, and this is what it gives back.
  unfoldable pub destroy_connection : Client Address → List (Effect Address)
  unfolding usage_of release_if release_channel
  destroy_connection c =
      (if c.local_auth_id == 0 then [] else release_auth_info c.local_auth_id (usage_of c) ∷ [])
      ++ release_if auth_manager c.auth_future
      ++ release_if device_manager c.acquire_device_future
      ++ release_if connection_manager c.acquire_device_connection_future
      ++ release_if udp_channel_manager c.acquire_device_udp_channel_future
      ++ release_channel c.bind_udp_channel
      ++ release_connection c.connection_id ∷ []

  -- The channel of a connection that carries datagrams is destroyed on the relay's side.
  unfoldable pub close_channel : Client Address → List (Effect Address)
  close_channel c = elim c.proxy_type [
    | s5_udp ↦ elim c.bind_udp_channel [
      | none ↦ []
      | some u ↦
          destroy_relay_udp_channel c.device_reference.relay_server_id u.relay_side_udp_channel_id
          ∷ []
    ]
    | _ ↦ []
  ]

  -- `none` is the failure of its assertion on the type.
  unfoldable pub on_peer_close : Client Address → Option (Client Address × List (Effect Address))
  unfolding defer_kill close_channel
  on_peer_close c =
      if c.delete_mark
      then some (c, [])
      else if c.relay_side_connection_id == 0
      then some (defer_kill c, close_channel c)
      else (let closed : Client Address × List (Effect Address) = (
        defer_kill c,
        destroy_relay_connection c.device_reference.relay_server_id c.relay_side_connection_id ∷ [],
      ) in
          elim c.proxy_type [
            | s5_tcp ↦ some closed
            | http_normal ↦ some closed
            | http_raw ↦ some closed
            | _ ↦ none
          ])

  unfoldable pub on_flush : Client Address → Client Address
  unfolding defer_kill
  on_flush c = if c.delete_mark then defer_kill c else c
