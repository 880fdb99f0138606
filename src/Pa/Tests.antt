-- ===== src/Pa/Tests.antt =====
-- Connections of the proxy access service on concrete inputs.
use pp.Prelude.{◌≡◌, refl, arith, inl, true, false, [], ◌∷◌, ◌++◌, none, Bytes, take}
use pp.Xel.Instances.{plain_address, plain_address-eq, PlainAddress, big_endian}
use pp.Xel.NetAddress.{is4}
use pp.Pa.Types.{
  idle_timeout, s5_challenge, Client, Env, Outcome, consumed, kill_connection, http_raw,
  http_raw_header, acquire_auth_info,
}
use pp.Pa.Lifetime.{new_client}
use pp.Pa.Socks.{on_s5_auth_info, wait}
use pp.Pa.Socks.Target.{on_s5_target}
use pp.Pa.Socks.Login.{login, on_s5_auth_info-login}
use pp.Pa.Socks.Request.{request_by_name, on_s5_target-cut}
use pp.Pa.Packets.{write_datagram}
use pp.Pa.Packets.Roundtrip.{ReadBack, write_datagram-ReadBack}
use pp.Pa.Http.{on_http_challenge}
use pp.Pa.Http.Target.{connect_line, on_http_challenge-connect}
use pp.Pa.Session.{process_data, on_data}
use pp.Pa.Session.Unauthorised.{Bare, any_uses_relay}
use pp.Pa.Session.Sizes.{Within}
use pp.Pa.Session.Within.{process_data-Within}
use pp.Pa.Session.Futures.{OneFuture}
use pp.Pa.Session.Reached.{enters, goes_on, Reached-OneFuture}
use pp.Pa.Session.Steps.{BeforeGrant, accepted, next, receive, before_grant-Bare}

abbrev an_address : PlainAddress
an_address = record { kind = is4; octets = 10 ∷ 0 ∷ 0 ∷ 1 ∷ []; port = 1_080 }

abbrev an_env : Env PlainAddress
an_env = record {
  now = 10_000;
  next_auth_future = 1;
  next_device_future = 1;
  next_connection_future = 1;
  next_udp_channel_future = 1;
  next_udp_channel = 1;
  can_bind = true;
  local_address = an_address;
  remote_address = an_address;
  behind_packet = [];
  reports_targets = false;
}

abbrev a_client : Client PlainAddress
a_client = record {
  connection_id = 9;
  queue = idle_timeout;
  timestamp_ms = 1_000;
  bind_udp_channel = none;
  delete_mark = false;
  no_auth = false;
  enable_udp_target = true;
  data_processor = kill_connection;
  proxy_type = s5_challenge;
  auth_future = 0;
  acquire_device_future = 0;
  acquire_device_connection_future = 0;
  acquire_device_udp_channel_future = 0;
  local_auth_id = 4;
  global_auth_id = 77;
  device_reference = record { relay_server_id = 6; relay_side_device_id = 8 };
  relay_side_connection_id = 0;
  total_tcp_bytes_from_client = 0;
  total_tcp_bytes_to_client = 0;
  total_udp_bytes_from_client = 0;
  total_udp_bytes_to_client = 0;
  http = record {
    target_host = [];
    target_port = 0;
    content = [];
    temp_header_line = [];
    content_length_left = 0;
  };
}

-- Base64Decode that leaves a text as it is.
abbrev plain_text : Bytes → Bytes
plain_text s = s

abbrev name : Bytes
name = b'a' ∷ b'b' ∷ []

abbrev pass : Bytes
pass = b'x' ∷ b'y' ∷ b'z' ∷ []

login_example : on_s5_auth_info plain_address an_env (login name pass (7 ∷ [])) a_client ≡ record {
  client = record a_client { data_processor = kill_connection; auth_future = 1 };
  effects = acquire_auth_info (b'a' ∷ b'b' ∷ 0 ∷ b'x' ∷ b'y' ∷ b'z' ∷ []) 1 ∷ [];
  result = consumed 8;
}
login_example =
    on_s5_auth_info-login plain_address an_env a_client name pass (7 ∷ []) (omega arith)
      (omega arith)

target_cut_example :
    on_s5_target plain_address big_endian an_env
      (take 9
        (request_by_name plain_address big_endian an_env a_client (b'h' ∷ b'.' ∷ b'x' ∷ []) 443 []))
      a_client
    ≡ wait plain_address a_client
target_cut_example =
    on_s5_target-cut plain_address big_endian an_env a_client (b'h' ∷ b'.' ∷ b'x' ∷ []) 443 [] 9
      (omega arith) (omega arith)

datagram_example :
    ReadBack plain_address big_endian an_address
      (1 ∷ 2 ∷ [])
      (write_datagram plain_address big_endian an_address (1 ∷ 2 ∷ []))
datagram_example =
    write_datagram-ReadBack plain_address big_endian an_address 1 (2 ∷ [])
      (inl (refl, refl), omega arith)

connect_example :
    on_http_challenge an_env
      (connect_line (b'h' ∷ []) (b'8' ∷ b'0' ∷ b' ' ∷ []) ++ (13 ∷ 10 ∷ []))
      a_client
    ≡ record {
      client = record a_client {
        http = record a_client.http { target_host = b'h' ∷ []; target_port = 80 };
        proxy_type = http_raw;
        data_processor = http_raw_header;
      };
      effects = [];
      result = consumed 15;
    }
connect_example =
    on_http_challenge-connect an_env b'h' [] b'8' (b'0' ∷ []) (b' ' ∷ []) [] a_client
      ((omega arith, omega arith), tt) (refl, (refl, tt)) refl (omega arith) (omega arith)

three_bytes_example :
    Within 3
      (process_data plain_address big_endian plain_text an_env
        (5 ∷ 1 ∷ 2 ∷ [])
        (new_client 0 1)).result
three_bytes_example =
    process_data-Within plain_address big_endian plain_text an_env (5 ∷ 1 ∷ 2 ∷ []) (new_client 0 1)

-- A client that is accepted and sends a SOCKS5 greeting.
abbrev answer : Outcome PlainAddress
answer = on_data plain_address big_endian plain_text an_env (5 ∷ 1 ∷ 2 ∷ []) (new_client 0 1)

abbrev greeted :
    BeforeGrant plain_address big_endian plain_text ([] ++ answer.effects) answer.client
greeted = next (accepted 0 1) (receive an_env (5 ∷ 1 ∷ 2 ∷ []))

before_grant_example : Bare answer.client × (any_uses_relay ([] ++ answer.effects) ≡ false)
before_grant_example =
    before_grant-Bare plain_address big_endian plain_text ([] ++ answer.effects) answer.client
      greeted

greeted_client_example : OneFuture answer.client
greeted_client_example =
    Reached-OneFuture plain_address big_endian plain_text answer.client
      (goes_on (enters 0 1) (receive an_env (5 ∷ 1 ∷ 2 ∷ [])))
