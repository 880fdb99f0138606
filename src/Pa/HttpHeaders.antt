-- ===== src/Pa/HttpHeaders.antt =====
-- The header lines of a request: OnHttpRawHeaderProcessor and OnHttpNormalHeaderProcessor of
-- ppp/lib_component/pa_service.cpp.
pub mod Fuel
use pp.Prelude.{
  ℕ, zero, suc, ◌+◌, ◌-◌, ◌^◌, Bool, true, false, List, [], ◌∷◌, ◌++◌, Option, none, some, ◌==◌,
  ltb, leb, not, ◌&&◌, if◌then◌else◌, Bytes, codes, has_prefix_nocase, find_byte, split_line,
  ascii_to_unsigned, length, take, drop, set, add64, sub64,
}
use pp.Pa.Types.{
  ProxyType, undetermined, s5_challenge, s5_tcp, s5_udp, http_raw, http_normal, Processor,
  guess_proxy_type, kill_connection, s5_auth_info, s5_target, raw_data, http_raw_header,
  http_normal_header, http_body, Queue, DeviceReference, UdpChannel, HttpData, Client, Counter,
  invalid_s5_auth_type_count, invalid_s5_auth_info, invalid_s5_target, request_authentication_oom,
  Manager, auth_manager, device_manager, connection_manager, udp_channel_manager, Effect, post,
  count, acquire_auth_info, release_auth_info, acquire_device, create_connection,
  create_connection_by_name, create_udp_channel, relay_data, relay_datagram,
  destroy_relay_connection, destroy_relay_udp_channel, report_address, report_host, release_future,
  post_udp, release_udp_channel, release_connection, Consumed, consumed, invalid_data_size, aborted,
  Outcome, Env,
}
use pp.Pa.Http.{status}

-- What a Proxy-Authorization line comes to.
pub data Credential : Type 0 where
  key : Bytes → Credential
  not_basic : Credential
  no_account : Credential  -- the text starts with ':'
  out_of_range : Credential  -- a read or a write outside of the text

-- `AuthKey[PassStart] = 0`, the text as it comes from Base64Decode.
unfoldable pub split_key : Bytes → Credential
split_key text = elim (find_byte b':' text) [
  | none ↦ out_of_range
  | some zero ↦ no_account
  | some (suc i) ↦ key (set text (suc i) 0)
]

-- What a whole line that is no credential does with the request that is sent on.
unfoldable pub keep_line : (line : Bytes) → HttpData → HttpData
keep_line line h =
    if ltb 18 (length line) && has_prefix_nocase (codes "Proxy-Connection: ") line
    then h
    else if ltb 12 (length line) && has_prefix_nocase (codes "Connection: ") line
    then record h { content = h.content ++ codes "Connection: close\r\n" }
    else if ltb 16 (length line) && has_prefix_nocase (codes "Content-Length: ") line
    then record h {
      content = h.content ++ line ++ 13 ∷ 10 ∷ [];
      content_length_left = ascii_to_unsigned (2 ^ 64) (drop 16 line);
    }
    else record h { content = h.content ++ line ++ 13 ∷ 10 ∷ [] }

-- The test for a credential. Of the three prefixes that are tested before or after it, at most one
-- fits a line.
unfoldable pub is_credential : Bytes → Bool
is_credential line = ltb 21 (length line) && has_prefix_nocase (codes "Proxy-Authorization: ") line

module _ (base64_decode : Bytes → Bytes) where
  -- The credential of a line whose text behind "Proxy-Authorization: " has a length, as the
  -- code computes it.
  unfoldable pub read_credential : (auth_length : ℕ) → (line : Bytes) → Credential
  unfolding split_key
  read_credential auth_length line =
      let auth : Bytes = drop 21 line in
      if ltb auth_length 6 && not (has_prefix_nocase (codes "Basic ") auth)
      then not_basic
      else if ltb (length auth) (6 + sub64 auth_length 6)
      then out_of_range
      else split_key (base64_decode (take (sub64 auth_length 6) (drop 6 auth)))

  module _ {Address : Type 0} where
    -- RequestAuthentication for a request, with the response where there is no future.
    unfoldable pub request_http_authentication :
        Env Address → Bytes → (size : ℕ) → Processor → Client Address → Outcome Address
    request_http_authentication env auth_key size next c =
        if env.next_auth_future == 0
        then record {
          client = record c { auth_future = 0 };
          effects = post (status 500) ∷ [];
          result = consumed 0;
        }
        else record {
          client = record c { auth_future = env.next_auth_future; data_processor = next };
          effects = acquire_auth_info auth_key env.next_auth_future ∷ [];
          result = consumed size;
        }

    -- The loop of OnHttpRawHeaderProcessor on the lines that are left. Where the fuel ends, the
    -- loop has ended, as the code says behind it.
    unfoldable pub raw_headers :
        Env Address → ℕ → (auth_key : Bytes) → (size : ℕ) → Bytes → Client Address → Outcome Address
    unfolding read_credential request_http_authentication is_credential
    raw_headers env zero auth_key size view c = record {
      client = c;
      effects = [];
      result = invalid_data_size;
    }
    raw_headers env (suc fuel) auth_key size view c = elim (split_line view) [
      | none ↦ record { client = c; effects = []; result = consumed size }
      | some ([], rest) ↦
          let killed : Client Address = record c { data_processor = kill_connection } in
          if length auth_key == 0
          then record { client = killed; effects = post (status 407) ∷ []; result = consumed 0 }
          else request_http_authentication env auth_key (size + 2) kill_connection killed
      | some (b ∷ line, rest) ↦
          let size' : ℕ = size + length (b ∷ line) + 2 in
          if is_credential (b ∷ line)
          then elim (read_credential (length (b ∷ line) - 21) (b ∷ line)) [
            | key k ↦ raw_headers env fuel k size' rest c
            | not_basic ↦ record { client = c; effects = []; result = invalid_data_size }
            | no_account ↦ record {
              client = c;
              effects = post (status 404) ∷ [];
              result = consumed 0;
            }
            | out_of_range ↦ record { client = c; effects = []; result = aborted }
          ]
          else raw_headers env fuel auth_key size' rest c
    ]

    unfoldable pub on_http_raw_header : Env Address → Bytes → Client Address → Outcome Address
    unfolding raw_headers
    on_http_raw_header env packet c = raw_headers env (suc (length packet)) [] 0 packet c

    -- The loop of OnHttpNormalHeaderProcessor; `total` is DataSize.
    unfoldable pub normal_headers :
        Env Address
        → ℕ
        → (auth_key : Bytes) → (total size : ℕ) → Bytes
        → Client Address
        → Outcome Address
    unfolding read_credential request_http_authentication keep_line is_credential
    normal_headers env zero auth_key total size view c = record {
      client = c;
      effects = [];
      result = invalid_data_size;
    }
    normal_headers env (suc fuel) auth_key total size view c = elim (split_line view) [
      | none ↦ record {
        client = record c {
          http = record c.http { temp_header_line = c.http.temp_header_line ++ view };
        };
        effects = [];
        result = consumed total;
      }
      | some (piece, rest) ↦
          let line : Bytes = c.http.temp_header_line ++ piece in
          if length line == 0
          then request_http_authentication env auth_key (size + 2) http_body
              (record c { http = record c.http { content = c.http.content ++ 13 ∷ 10 ∷ [] } })
          else if is_credential line
          then (let kept : Client Address = record c {
            http = record c.http { temp_header_line = line };
          } in
              elim (read_credential (sub64 (length piece) 21) line) [
                | key k ↦
                    normal_headers env fuel k total (size + length piece + 2) rest
                      (record c { http = record c.http { temp_header_line = [] } })
                | not_basic ↦ record {
                  client = kept;
                  effects = post (status 407) ∷ [];
                  result = consumed 0;
                }
                | no_account ↦ record {
                  client = kept;
                  effects = post (status 404) ∷ [];
                  result = consumed 0;
                }
                | out_of_range ↦ record { client = kept; effects = []; result = aborted }
              ])
          else normal_headers env fuel auth_key total (size + length piece + 2) rest
              (record c { http = keep_line line (record c.http { temp_header_line = [] }) })
    ]

    unfoldable pub on_http_normal_header : Env Address → Bytes → Client Address → Outcome Address
    unfolding normal_headers
    on_http_normal_header env packet c =
        normal_headers env (suc (length packet)) [] (length packet) 0 packet c
