-- ===== src/Pa/Socks.antt =====
-- The SOCKS5 side of ppp/lib_component/pa_service.cpp: OnS5Challenge, OnS5AuthInfo
-- and OnRawData; its child Target has OnS5Target.
pub mod Login
pub mod Target
pub mod Request
use pp.Prelude.{
  ℕ, ◌+◌, ◌-◌, Bool, true, false, List, [], ◌∷◌, ◌++◌, Option, none, some, ◌==◌, ◌||◌, not, ltb,
  leb, if◌then◌else◌, Bytes, length, get_or, take, drop,
}
use pp.Xel.NetAddress.{NetAddress, Kind, unknown_address, is4, is6}
use pp.Xel.Stream.{Stream}
use pp.Pa.Types.{
  ProxyType, undetermined, s5_challenge, s5_tcp, s5_udp, http_raw, http_normal, Processor,
  guess_proxy_type, kill_connection, s5_auth_info, s5_target, raw_data, http_raw_header,
  http_normal_header, http_body, Queue, DeviceReference, UdpChannel, HttpData, Client, Counter,
  invalid_s5_auth_type_count, invalid_s5_auth_info, invalid_s5_target, request_authentication_oom,
  Manager, auth_manager, device_manager, connection_manager, udp_channel_manager, Effect, post,
  count, acquire_auth_info, release_auth_info, acquire_device, create_connection,
  create_connection_by_name, create_udp_channel, relay_data, relay_datagram,
  destroy_relay_connection, destroy_relay_udp_channel, report_address, report_host, release_future,
  post_udp, release_udp_channel, release_connection, Consumed, consumed, invalid_data_size, aborted,
  Outcome, Env,
}
use pp.Pa.Lifetime.{keep_alive}
use pp.Pa.Packets.{read_port, read_address4, read_address6}

abbrev pub s5_connection_established : Bytes
s5_connection_established = 5 ∷ 0 ∷ 0 ∷ 1 ∷ 0 ∷ 0 ∷ 0 ∷ 0 ∷ 0 ∷ 0 ∷ []

abbrev pub s5_connection_generic_error : Bytes
s5_connection_generic_error = 5 ∷ 1 ∷ 0 ∷ 1 ∷ 0 ∷ 0 ∷ 0 ∷ 0 ∷ 0 ∷ 0 ∷ []

abbrev pub s5_udpchannel_generic_error : Bytes
s5_udpchannel_generic_error = 5 ∷ 1 ∷ 0 ∷ 1 ∷ 0 ∷ 0 ∷ 0 ∷ 0 ∷ 0 ∷ 0 ∷ []

-- The method 0x02 is among those that the client offers.
unfoldable pub offers_user_pass : Bytes → Bool
offers_user_pass [] = false
offers_user_pass (m ∷ ms) = m == 2 || offers_user_pass ms

module _ (N : NetAddress) where
  open N use {Address, ip_to_string}

  -- Nothing is done, and the connection is closed.
  abbrev pub reject : Client Address → Outcome Address
  reject c = record { client = c; effects = []; result = invalid_data_size }

  -- Nothing is done until there is more packet.
  abbrev pub wait : Client Address → Outcome Address
  wait c = record { client = c; effects = []; result = consumed 0 }

  abbrev pub done : Client Address → List (Effect Address) → ℕ → Outcome Address
  done c es n = record { client = c; effects = es; result = consumed n }

  -- RequestAuthentication, and what is done where there is no future.
  unfoldable pub request_authentication :
      Env Address → Bytes → List (Effect Address) → List (Effect Address)
  request_authentication env key failure =
      if env.next_auth_future == 0 then failure else acquire_auth_info key env.next_auth_future ∷ []

  unfoldable pub on_s5_challenge : Env Address → Bytes → Client Address → Outcome Address
  unfolding request_authentication offers_user_pass
  on_s5_challenge env packet c =
      let nm = get_or packet 1 0 in
      if nm == 0
      then reject c
      else if ltb (length packet) (2 + nm)
      then reject c
      else if offers_user_pass (take nm (drop 2 packet))
      then done (record c { proxy_type = s5_challenge; data_processor = s5_auth_info })
          (post (5 ∷ 2 ∷ []) ∷ []) (2 + nm)
      else done
          (record c {
            proxy_type = s5_challenge;
            no_auth = true;
            data_processor = kill_connection;
            auth_future = env.next_auth_future;
          })
          (request_authentication env (0 ∷ ip_to_string env.remote_address)
            (count request_authentication_oom ∷ post (5 ∷ 255 ∷ []) ∷ []))
          (2 + nm)

  unfoldable pub on_s5_auth_info : Env Address → Bytes → Client Address → Outcome Address
  unfolding request_authentication
  on_s5_auth_info env packet c =
      let name_len = get_or packet 1 0 in
      let behind_name = drop name_len (drop 2 packet) in
      let pass_len = get_or behind_name 0 0 in
      if ltb (length packet) 3
      then wait c
      else if not (get_or packet 0 0 == 1)
      then record {
        client = c;
        effects = count invalid_s5_auth_type_count ∷ [];
        result = invalid_data_size;
      }
      else if ltb (length packet) (3 + name_len)
      then wait c
      else if ltb (length packet) (3 + name_len + pass_len)
      then wait c
      else if name_len == 0 || pass_len == 0
      then record {
        client = c;
        effects = count invalid_s5_auth_info ∷ [];
        result = invalid_data_size;
      }
      else done (record c { data_processor = kill_connection; auth_future = env.next_auth_future })
          (request_authentication env
            (take name_len (drop 2 packet) ++ 0 ∷ take pass_len (drop 1 behind_name))
            (count request_authentication_oom ∷ post (1 ∷ 1 ∷ []) ∷ []))
          (3 + name_len + pass_len)

module _ {Address : Type 0} where
  -- OnRawData
  unfoldable pub on_raw_data : Env Address → Bytes → Client Address → Outcome Address
  unfolding keep_alive
  on_raw_data env packet c =
      let (alive, c') = keep_alive env.now c in
      if alive
      then record {
        client = c';
        effects =
            relay_data c.device_reference.relay_server_id c.relay_side_connection_id packet ∷ [];
        result = consumed (length packet);
      }
      else record { client = c'; effects = []; result = consumed 0 }
