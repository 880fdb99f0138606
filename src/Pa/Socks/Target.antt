-- ===== src/Pa/Socks/Target.antt =====
-- OnS5Target of ppp/lib_component/pa_service.cpp.
use pp.Prelude.{
  ℕ, ◌+◌, ◌-◌, Bool, false, List, [], ◌∷◌, ◌++◌, some, ◌==◌, ◌||◌, not, ltb, leb, if◌then◌else◌,
  Bytes, length, get_or, take, drop,
}
use pp.Xel.NetAddress.{NetAddress, Kind, unknown_address, is4, is6}
use pp.Xel.Stream.{Stream}
use pp.Pa.Types.{
  s5_tcp, s5_udp, kill_connection, UdpChannel, Client, invalid_s5_target, connection_manager,
  Effect, post, count, create_connection, create_connection_by_name, create_udp_channel,
  report_address, report_host, release_future, release_udp_channel, invalid_data_size, aborted,
  Outcome, Env,
}
use pp.Pa.Packets.{read_port, read_address4, read_address6}
use pp.Pa.Socks.{s5_connection_generic_error, s5_udpchannel_generic_error, wait, done}

-- What a packet of OnS5Target asks for.
pub data Target (Address : Type 0) : Type 0 where
  by_address : (address : Address) (size : ℕ) → Target Address
  by_name : (host : Bytes) (port size : ℕ) → Target Address
  bad_address_type : (size : ℕ) → Target Address
  incomplete_target : Target Address

module _ (N : NetAddress) (W : Stream) where
  open N use {Address, ip, kind}

  -- The target of a packet of at least ten bytes, and the offset behind it.
  unfoldable pub read_target : Bytes → Target Address
  read_target packet =
      let kind = get_or packet 3 0 in
      let n = get_or packet 4 0 in
      if kind == 1
      then by_address (read_address4 N W 4 packet) 10
      else if kind == 4
      then (if ltb (length packet) 22
          then incomplete_target
          else by_address (read_address6 N W 4 packet) 22)
      else if kind == 3
      then (if ltb (length packet) (4 + 1 + n + 2)
          then incomplete_target
          else by_name (take n (drop 5 packet)) (read_port W (5 + n) packet) (7 + n))
      else bad_address_type 4

  -- ReportTarget
  unfoldable pub report : Env Address → Effect Address → List (Effect Address)
  report env e = if env.reports_targets then e ∷ [] else []

  -- The operation 0x01. Where there is no future, an error is posted and nothing is consumed.
  -- The release of the null future, which ends the program, is `aborted`.
  unfoldable pub connect_target : Env Address → Target Address → Client Address → Outcome Address
  unfolding report
  connect_target env incomplete_target c = wait N c
  connect_target env (by_address address size) c =
      let future = env.next_connection_future in
      let reports = report env (report_address c.global_auth_id (ip address)) in
      if future == 0
      then done N
          (record c { data_processor = kill_connection; acquire_device_connection_future = 0 })
          (reports ++ post s5_connection_generic_error ∷ []) 0
      else done N
          (record c {
            data_processor = kill_connection;
            acquire_device_connection_future = future;
            proxy_type = s5_tcp;
          })
          (reports ++ create_connection c.device_reference c.connection_id address future ∷ []) size
  connect_target env (by_name host port size) c =
      let future = env.next_connection_future in
      let reports = report env (report_host c.global_auth_id host) in
      if future == 0
      then done N
          (record c { data_processor = kill_connection; acquire_device_connection_future = 0 })
          (reports ++ post s5_connection_generic_error ∷ []) 0
      else done N
          (record c {
            data_processor = kill_connection;
            acquire_device_connection_future = future;
            proxy_type = s5_tcp;
          })
          (reports
            ++ create_connection_by_name c.device_reference c.connection_id host port future ∷ [])
          size
  connect_target env (bad_address_type size) c =
      let released = record c {
        data_processor = kill_connection;
        acquire_device_connection_future = 0;
      } in
      if c.acquire_device_connection_future == 0
      then record { client = released; effects = []; result = aborted }
      else done N released
          (release_future connection_manager c.acquire_device_connection_future
            ∷ post s5_connection_generic_error
            ∷ [])
          0

  -- The address to bind for an address type of the packet.
  unfoldable pub can_bind_kind : ℕ → Kind → Bool
  can_bind_kind n unknown_address = false
  can_bind_kind n is4 = n == 1
  can_bind_kind n is6 = n == 4

  -- The operation 0x03.
  unfoldable pub bind_target : Env Address → ℕ → ℕ → Client Address → Outcome Address
  unfolding can_bind_kind
  bind_target env addr_type size c =
      let failed =
        done N (record c { data_processor = kill_connection })
          (post s5_udpchannel_generic_error ∷ []) 0 in
      let channel : UdpChannel Address = record {
        udp_channel_id = env.next_udp_channel;
        relay_side_udp_channel_id = 0;
        client_ip_check_address = ip env.remote_address;
        last_client_ip_address = N.unknown;
      } in
      let bound : Client Address = record c {
        data_processor = kill_connection;
        bind_udp_channel = some channel;
        acquire_device_udp_channel_future = env.next_udp_channel_future;
      } in
      if not c.enable_udp_target
      then failed
      else if not (can_bind_kind addr_type (kind env.local_address))
      then failed
      else if env.next_udp_channel == 0
      then failed
      else if not env.can_bind
      then done N (record c { data_processor = kill_connection })
          (post s5_udpchannel_generic_error ∷ release_udp_channel env.next_udp_channel ∷ []) 0
      else if env.next_udp_channel_future == 0
      then done N bound (post s5_udpchannel_generic_error ∷ []) 0
      else done N (record bound { proxy_type = s5_udp })
          (create_udp_channel c.device_reference env.next_udp_channel env.next_udp_channel_future
            ∷ [])
          size

  -- R.Offset() behind the target.
  abbrev pub size_of : Target Address → ℕ
  size_of (by_address address size) = size
  size_of (by_name host port size) = size
  size_of (bad_address_type size) = size
  size_of incomplete_target = 0

  -- The operation of a complete packet.
  unfoldable pub act_on_target :
      Env Address → Bytes → Target Address → Client Address → Outcome Address
  unfolding connect_target bind_target
  act_on_target env packet target c =
      if get_or packet 1 0 == 1
      then connect_target env target c
      else if get_or packet 1 0 == 3
      then bind_target env (get_or packet 3 0) (size_of target) c
      else done N (record c { data_processor = kill_connection })
          (post (5 ∷ 1 ∷ 0 ∷ take (size_of target - 3) (drop 3 packet)) ∷ []) 0

  unfoldable pub on_s5_target : Env Address → Bytes → Client Address → Outcome Address
  unfolding read_target act_on_target
  on_s5_target env packet c =
      if ltb (length packet) 10
      then wait N c
      else if leb (6 + 256) (length packet)
      then record { client = c; effects = count invalid_s5_target ∷ []; result = invalid_data_size }
      else if not (get_or packet 0 0 == 5) || not (get_or packet 2 0 == 0)
      then record { client = c; effects = count invalid_s5_target ∷ []; result = invalid_data_size }
      else elim (read_target packet) [
        | incomplete_target ↦ wait N c
        | target ↦ act_on_target env packet target c
      ]
