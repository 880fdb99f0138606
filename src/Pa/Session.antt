-- ===== src/Pa/Session.antt =====
-- A connection of ppp/lib_component/pa_service.cpp as a whole: OnGuessProxyType, OnData, and every
-- event that changes its state.
pub mod Unauthorised
pub mod Steps
pub mod Sizes
pub mod Within
pub mod Futures
pub mod Reached
use pp.Prelude.{
  ℕ, ◌≡◌, Bool, true, false, List, [], ◌∷◌, ◌++◌, Option, none, some, ◌==◌, ltb, if◌then◌else◌,
  Bytes, length, get_or, add64,
}
use pp.Auth.Types.{AuthResult}
use pp.Xel.NetAddress.{NetAddress}
use pp.Xel.Stream.{Stream}
use pp.Pa.Types.{
  ProxyType, undetermined, s5_challenge, s5_tcp, s5_udp, http_raw, http_normal, Processor,
  guess_proxy_type, kill_connection, s5_auth_info, s5_target, raw_data, http_raw_header,
  http_normal_header, http_body, Queue, DeviceReference, UdpChannel, HttpData, Client, Counter,
  invalid_s5_auth_type_count, invalid_s5_auth_info, invalid_s5_target, request_authentication_oom,
  Manager, auth_manager, device_manager, connection_manager, udp_channel_manager, Effect, post,
  count, acquire_auth_info, release_auth_info, acquire_device, create_connection,
  create_connection_by_name, create_udp_channel, relay_data, relay_datagram,
  destroy_relay_connection, destroy_relay_udp_channel, report_address, report_host, release_future,
  post_udp, release_udp_channel, release_connection, Consumed, consumed, invalid_data_size, aborted,
  Outcome, Env,
}
use pp.Pa.Socks.{on_s5_challenge, on_s5_auth_info, on_raw_data}
use pp.Pa.Socks.Target.{on_s5_target}
use pp.Pa.Http.{on_http_challenge, on_http_body}
use pp.Pa.HttpHeaders.{on_http_raw_header, on_http_normal_header}

module _ (N : NetAddress) (W : Stream) (base64_decode : Bytes → Bytes) where
  open N use {Address}

  -- A TLS handshake is answered by an alert.
  unfoldable pub on_guess_proxy_type : Env Address → Bytes → Client Address → Outcome Address
  on_guess_proxy_type env packet c =
      if ltb (length packet) 3
      then record { client = c; effects = []; result = invalid_data_size }
      else if get_or packet 0 0 == 5
      then on_s5_challenge N env packet c
      else if get_or packet 0 0 == 22
      then record {
        client = c;
        effects = post (21 ∷ 3 ∷ 1 ∷ 0 ∷ 2 ∷ 2 ∷ 40 ∷ []) ∷ [];
        result = consumed 0;
      }
      else on_http_challenge env packet c

  -- The call through the member pointer DataProcessor.
  unfoldable pub process_data : Env Address → Bytes → Client Address → Outcome Address
  unfolding on_guess_proxy_type
  process_data env packet c = elim c.data_processor [
    | guess_proxy_type ↦ on_guess_proxy_type env packet c
    | kill_connection ↦ record { client = c; effects = []; result = invalid_data_size }
    | s5_auth_info ↦ on_s5_auth_info N env packet c
    | s5_target ↦ on_s5_target N W env packet c
    | raw_data ↦ on_raw_data env packet c
    | http_raw_header ↦ on_http_raw_header base64_decode env packet c
    | http_normal_header ↦ on_http_normal_header base64_decode env packet c
    | http_body ↦ on_http_body env packet c
  ]

  -- The bytes of a packet count unless it is invalid, whatever was consumed of it.
  abbrev pub add_tcp_bytes : Bytes → Outcome Address → Outcome Address
  add_tcp_bytes packet o = elim o.result [
    | consumed n ↦ record o {
      client = record o.client {
        total_tcp_bytes_from_client = add64 o.client.total_tcp_bytes_from_client (length packet);
      };
    }
    | invalid_data_size ↦ o
    | aborted ↦ o
  ]

  -- OnData
  unfoldable pub on_data : Env Address → Bytes → Client Address → Outcome Address
  unfolding process_data
  on_data env packet c = add_tcp_bytes packet (process_data env packet c)
