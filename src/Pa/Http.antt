-- ===== src/Pa/Http.antt =====
-- The HTTP side of ppp/lib_component/pa_service.cpp: OnHttpChallenge, OnHttpRawHeaderProcessor,
-- OnHttpNormalHeaderProcessor and OnHttpBody.
pub mod Target
use pp.Prelude.{
  ℕ, zero, suc, ◌+◌, ◌-◌, ◌^◌, Bool, true, false, List, [], ◌∷◌, ◌++◌, Option, none, some, ◌==◌,
  ltb, leb, not, ◌&&◌, if◌then◌else◌, Bytes, codes, has_prefix_nocase, find_byte, split_line,
  ascii_to_unsigned, length, take, drop, set, sub64,
}
use pp.Pa.Types.{
  ProxyType, undetermined, s5_challenge, s5_tcp, s5_udp, http_raw, http_normal, Processor,
  guess_proxy_type, kill_connection, s5_auth_info, s5_target, raw_data, http_raw_header,
  http_normal_header, http_body, Queue, DeviceReference, UdpChannel, HttpData, Client, Counter,
  invalid_s5_auth_type_count, invalid_s5_auth_info, invalid_s5_target, request_authentication_oom,
  Manager, auth_manager, device_manager, connection_manager, udp_channel_manager, Effect, post,
  count, acquire_auth_info, release_auth_info, acquire_device, create_connection,
  create_connection_by_name, create_udp_channel, relay_data, relay_datagram,
  destroy_relay_connection, destroy_relay_udp_channel, report_address, report_host, release_future,
  post_udp, release_udp_channel, release_connection, Consumed, consumed, invalid_data_size, aborted,
  Outcome, Env,
}
use pp.Pa.Lifetime.{keep_alive}

-- HTTP_404, HTTP_407 and HTTP_500, the constant texts that Send404, Send407 and Send500 post.
unfoldable pub status : ℕ → Bytes
status n =
    if n == 200
    then codes "HTTP/1.1 200 Connection Established\r\n\r\n"
    else if n == 404
    then codes "HTTP/1.1 404 Not Found\r\n\r\n"
    else if n == 407
    then codes
        "HTTP/1.1 407 Proxy Authentication Required\r\nProxy-Authenticate: Basic realm=\"generic\"\r\nConnection: close\r\n\r\n"
    else if n == 500
    then codes "HTTP/1.1 500 Server Error\r\n\r\n"
    else if n == 502
    then codes "HTTP/1.1 502 Bad Gateway\r\n\r\n"
    else []

-- The text up to the first ':' or the first `stop`; what follows a ':' is returned too.
unfoldable pub scan_host : ℕ → Bytes → Option (Bytes × Option Bytes)
scan_host stop [] = none
scan_host stop (b ∷ s) =
    if b == b':'
    then some ([], some s)
    else if b == stop
    then some ([], none)
    else elim (scan_host stop s) [ none ↦ none | some (host, port) ↦ some (b ∷ host, port) ]

-- The port behind the ':', or 80 where there was none; atoi reads on in what stands behind the text
-- that is searched.
unfoldable pub port_or_80 : (behind : Bytes) → Option Bytes → ℕ
port_or_80 behind none = 80
port_or_80 behind (some s) = ascii_to_unsigned (2 ^ 16) (s ++ behind)

-- The offsets of the text and of the search that come behind the scheme of a URL.
unfoldable pub scheme_offsets : Bytes → ℕ × ℕ
scheme_offsets url =
    if has_prefix_nocase (codes "http://") url
    then (7, 7)
    else if has_prefix_nocase (codes "https://") url
    then (8, 7)
    else (0, 0)

-- The target of the rest of a request line that starts with a URL: host, port and path. The text of
-- the port ends in a '/' here.
unfoldable pub read_url : Bytes → Option (Bytes × ℕ × Bytes)
unfolding scheme_offsets scan_host port_or_80
read_url url =
    let offsets : ℕ × ℕ = scheme_offsets url in
    elim (find_byte b'/' (drop offsets.1 url)) [
      | none ↦ none
      | some i ↦
          let path : ℕ = offsets.1 + i in
          elim (scan_host b'/' (take (path + 1 - offsets.0) (drop offsets.0 url))) [
            | none ↦ some ([], 0, drop path url)
            | some (host, port) ↦ some (host, port_or_80 [] port, drop path url)
          ]
    ]

module _ {Address : Type 0} where
  -- The line of a CONNECT request.
  unfoldable pub on_connect_line : (line behind : Bytes) → Client Address → Outcome Address
  unfolding scan_host port_or_80
  on_connect_line line behind c =
      let refused : Outcome Address = record {
        client = c;
        effects = [];
        result = invalid_data_size;
      } in
      elim (scan_host b' ' (drop 8 line)) [
        | none ↦ refused
        | some ([], port) ↦ refused
        | some (b ∷ host, port) ↦ record {
          client = record c {
            http = record c.http { target_host = b ∷ host; target_port = port_or_80 behind port };
            proxy_type = http_raw;
            data_processor = http_raw_header;
          };
          effects = [];
          result = consumed (length line + 2);
        }
      ]

  -- Any other request line: it is kept without the scheme and the host.
  unfoldable pub on_url_line : Bytes → Client Address → Outcome Address
  unfolding read_url
  on_url_line line c =
      let reject_with : Bytes → Outcome Address = λ content. record {
        client = record c { http = record c.http { content = content } };
        effects = [];
        result = invalid_data_size;
      } in
      elim (find_byte b' ' line) [
        | none ↦ record { client = c; effects = []; result = invalid_data_size }
        | some i ↦
            let content : Bytes = c.http.content ++ take (suc i) line in
            elim (find_byte b' ' (drop (suc i) line)) [
              | none ↦ reject_with content
              | some j ↦ elim (read_url (drop (suc i) line)) [
                | none ↦ reject_with content
                | some (host, port, path) ↦ record {
                  client = record c {
                    http = record c.http {
                      target_host = host;
                      target_port = port;
                      content = content ++ path ++ 13 ∷ 10 ∷ [];
                    };
                    proxy_type = http_normal;
                    data_processor = http_normal_header;
                  };
                  effects = [];
                  result = consumed (length line + 2);
                }
              ]
            ]
      ]

  unfoldable pub on_http_challenge : Env Address → Bytes → Client Address → Outcome Address
  unfolding on_connect_line on_url_line
  on_http_challenge env packet c = elim (split_line packet) [
    | none ↦ record { client = c; effects = []; result = consumed 0 }
    | some ([], rest) ↦ record { client = c; effects = []; result = invalid_data_size }
    | some (b ∷ line, rest) ↦
        if has_prefix_nocase (codes "CONNECT ") (b ∷ line)
        then on_connect_line (b ∷ line) (13 ∷ 10 ∷ (rest ++ env.behind_packet)) c
        else on_url_line (b ∷ line) c
  ]

  -- OnHttpBody: kept until the connection behind it is there, then sent on; `aborted` stands for
  -- its assertions.
  unfoldable pub on_http_body : Env Address → Bytes → Client Address → Outcome Address
  unfolding keep_alive
  on_http_body env packet c =
      let r : Bool × Client Address = keep_alive env.now c in
      if not r.0
      then record { client = c; effects = []; result = consumed 0 }
      else if ltb 0 (length c.http.content)
      then record {
        client = record r.1 { http = record c.http { content = c.http.content ++ packet } };
        effects = [];
        result = consumed (length packet);
      }
      else if c.device_reference.relay_server_id == 0
      then record { client = r.1; effects = []; result = aborted }
      else if c.relay_side_connection_id == 0
      then record { client = r.1; effects = []; result = aborted }
      else record {
        client = r.1;
        effects =
            relay_data c.device_reference.relay_server_id c.relay_side_connection_id packet ∷ [];
        result = consumed (length packet);
      }
