-- ===== src/Pa/Session/Unauthorised.antt =====
-- A connection that no account has been granted for uses no device and no relay.
use pp.Prelude.{
  ℕ, zero, suc, ◌≡◌, Bool, true, false, List, [], ◌∷◌, ◌++◌, none, ◌==◌, ◌||◌, Bytes, length,
  split_line, sub64, ◌+◌, ◌-◌, Bool-cases, Option-cases, inl, inr, refl, arith,
}
use pp.Xel.NetAddress.{NetAddress}
use pp.Xel.Stream.{Stream}
use pp.Pa.Types.{
  Processor, guess_proxy_type, kill_connection, s5_auth_info, s5_target, raw_data, http_raw_header,
  http_normal_header, http_body, HttpData, Client, Effect, acquire_device, create_connection,
  create_connection_by_name, create_udp_channel, relay_data, relay_datagram,
  destroy_relay_connection, destroy_relay_udp_channel, aborted, Outcome, Env,
}
use pp.Pa.Socks.{on_s5_challenge, on_s5_auth_info, request_authentication}
use pp.Pa.Http.{on_http_challenge, on_connect_line, on_url_line, on_http_body}
use pp.Pa.HttpHeaders.{
  Credential, key, not_basic, no_account, out_of_range, is_credential, on_http_raw_header,
  on_http_normal_header, raw_headers, normal_headers, read_credential, request_http_authentication,
}
use pp.Pa.Lifetime.{keep_alive}
use pp.Pa.Session.{on_guess_proxy_type, process_data, add_tcp_bytes, on_data}

-- The effect uses a device or a relay.
abbrev pub uses_relay : {Address : Type 0} → Effect Address → Bool
uses_relay e = elim e [
  | create_connection d c t f ↦ true
  | create_connection_by_name d c h p f ↦ true
  | create_udp_channel d c f ↦ true
  | relay_data s c p ↦ true
  | relay_datagram s c t p ↦ true
  | destroy_relay_connection s c ↦ true
  | destroy_relay_udp_channel s c ↦ true
  | acquire_device a f ↦ true
  | _ ↦ false
]

abbrev pub any_uses_relay : {Address : Type 0} → List (Effect Address) → Bool
any_uses_relay [] = false
any_uses_relay (e ∷ es) = uses_relay e || any_uses_relay es

-- The processors of a connection that has a device.
abbrev pub needs_device : Processor → Bool
needs_device p = elim p [ s5_target ↦ true | raw_data ↦ true | _ ↦ false ]

-- Nothing has been acquired for the connection.
pub record Bare {Address : Type 0} (c : Client Address) : Type 0 where
  pub no_grant : c.local_auth_id ≡ 0
  pub no_device_future : c.acquire_device_future ≡ 0
  pub no_connection_future : c.acquire_device_connection_future ≡ 0
  pub no_channel_future : c.acquire_device_udp_channel_future ≡ 0
  pub no_relay_connection : c.relay_side_connection_id ≡ 0
  pub no_channel : c.bind_udp_channel ≡ none
  pub early : needs_device c.data_processor ≡ false

abbrev pub StaysBare : {Address : Type 0} → Outcome Address → Type 0
StaysBare o = Bare o.client × (any_uses_relay o.effects ≡ false)

module _ (N : NetAddress) (W : Stream) where
  open N use {Address}

  on_s5_challenge-StaysBare :
      (env : Env Address) (packet : Bytes) (c : Client Address)
      → Bare c
      → StaysBare (on_s5_challenge N env packet c)
  unfolding on_s5_challenge request_authentication
  on_s5_challenge-StaysBare env packet c v = ground (arith, v)

  on_s5_auth_info-StaysBare :
      (env : Env Address) (packet : Bytes) (c : Client Address)
      → Bare c
      → StaysBare (on_s5_auth_info N env packet c)
  unfolding on_s5_auth_info request_authentication
  on_s5_auth_info-StaysBare env packet c v = ground (arith, v)

  on_http_challenge-StaysBare :
      (env : Env Address) (packet : Bytes) (c : Client Address)
      → Bare c
      → StaysBare (on_http_challenge env packet c)
  unfolding on_http_challenge on_connect_line on_url_line
  on_http_challenge-StaysBare env packet c v = ground (arith, v)

  on_http_body-StaysBare :
      (env : Env Address) (packet : Bytes) (c : Client Address)
      → Bare c
      → StaysBare (on_http_body env packet c)
  unfolding on_http_body keep_alive
  on_http_body-StaysBare env packet c v = ground (arith, v)

  module _ (base64_decode : Bytes → Bytes) (env : Env Address) where
    request_http_authentication-StaysBare :
        (auth_key : Bytes) (size : ℕ) (next : Processor) (c : Client Address)
        → needs_device next ≡ false
        → Bare c
        → StaysBare (request_http_authentication base64_decode env auth_key size next c)
    unfolding request_http_authentication
    request_http_authentication-StaysBare auth_key size next c e v = ground (arith, v, e)

    credential-StaysBare :
        (next : Bytes → Outcome Address) (c : Client Address)
        (unauthorised missing : Outcome Address)
        → ((k : Bytes) → StaysBare (next k))
        → StaysBare unauthorised
        → StaysBare missing
        → Bare c
        → (cred : Credential)
        → StaysBare (elim cred [
          | key k ↦ next k
          | not_basic ↦ unauthorised
          | no_account ↦ missing
          | out_of_range ↦ record { client = c; effects = []; result = aborted }
        ])
    credential-StaysBare next c o1 o2 h h1 h2 v (key k) = h k
    credential-StaysBare next c o1 o2 h h1 h2 v not_basic = h1
    credential-StaysBare next c o1 o2 h h1 h2 v no_account = h2
    credential-StaysBare next c o1 o2 h h1 h2 v out_of_range = (v, refl)

    raw_headers-StaysBare :
        (fuel : ℕ) (auth_key : Bytes) (size : ℕ) (view : Bytes) (c : Client Address)
        → Bare c
        → StaysBare (raw_headers base64_decode env fuel auth_key size view c)
    unfolding raw_headers
    raw_headers-StaysBare zero auth_key size view c v = (v, refl)
    raw_headers-StaysBare (suc fuel) auth_key size view c v =
        elim (Option-cases (split_line view)) [
          | inl e ↦ rw (e, raw_headers) (v, refl)
          | inr (([], rest), e) ↦ ground (
            arith,
            e,
            v,
            request_http_authentication-StaysBare auth_key (size + 2) kill_connection
                (record c { data_processor = kill_connection }) refl (killed v),
          )
          | inr ((b ∷ line, rest), e) ↦ elim (Bool-cases (is_credential (b ∷ line))) [
            | inl yes_key ↦
                rw (e, raw_headers, yes_key)
                  (credential-StaysBare _ c _ _
                    (λ k. raw_headers-StaysBare fuel k (size + length (b ∷ line) + 2) rest c v)
                    (v, refl) (v, refl) v
                    (read_credential base64_decode (length (b ∷ line) - 21) (b ∷ line)))
            | inr no_key ↦
                rw (e, raw_headers, no_key)
                  (raw_headers-StaysBare fuel auth_key (size + length (b ∷ line) + 2) rest c v)
          ]
        ]
      where
        killed : Bare c → Bare (record c { data_processor = kill_connection })
        killed v = ground (arith, v)

    normal_headers-StaysBare :
        (fuel : ℕ) (auth_key : Bytes) (total size : ℕ) (view : Bytes) (c : Client Address)
        → Bare c
        → StaysBare (normal_headers base64_decode env fuel auth_key total size view c)
    unfolding normal_headers
    normal_headers-StaysBare zero auth_key total size view c v = (v, refl)
    normal_headers-StaysBare (suc fuel) auth_key total size view c v =
        elim (Option-cases (split_line view)) [
          | inl e ↦ rw (e, normal_headers) (with_http _, refl)
          | inr ((piece, rest), e) ↦
              let line : Bytes = c.http.temp_header_line ++ piece in
              elim (Bool-cases (length line == 0)) [
                | inl ends ↦
                    rw (e, normal_headers, ends)
                      (request_http_authentication-StaysBare auth_key (size + 2) http_body _ refl
                        (with_http _))
                | inr more ↦ elim (Bool-cases (is_credential line)) [
                  | inl yes_key ↦
                      rw (e, normal_headers, more, yes_key)
                        (credential-StaysBare _ _ _ _
                          (λ k.
                            normal_headers-StaysBare fuel k total (size + length piece + 2) rest _
                              (with_http _))
                          (with_http _, refl) (with_http _, refl) (with_http _)
                          (read_credential base64_decode (sub64 (length piece) 21) line))
                  | inr no_key ↦
                      rw (e, normal_headers, more, no_key)
                        (normal_headers-StaysBare fuel auth_key total (size + length piece + 2) rest
                          _ (with_http _))
                ]
              ]
        ]
      where
        with_http : (h : HttpData) → Bare (record c { http = h })
        with_http h = ground (arith, v)

    guessed-StaysBare :
        (packet : Bytes) (c : Client Address)
        → Bare c
        → StaysBare (on_guess_proxy_type N W base64_decode env packet c)
    unfolding on_guess_proxy_type
    guessed-StaysBare packet c v = ground (
      arith,
      v,
      on_s5_challenge-StaysBare env packet c v,
      on_http_challenge-StaysBare env packet c v,
    )

    process_data-StaysBare :
        (packet : Bytes) (c : Client Address)
        → Bare c
        → StaysBare (process_data N W base64_decode env packet c)
    unfolding process_data on_http_raw_header on_http_normal_header
    process_data-StaysBare packet c v = go c.data_processor refl
      where
        go :
            (p : Processor)
            → c.data_processor ≡ p
            → StaysBare (process_data N W base64_decode env packet c)
        go guess_proxy_type e = rw (e, process_data) (guessed-StaysBare packet c v)
        go kill_connection e = rw (e, process_data) (v, refl)
        go s5_auth_info e = rw (e, process_data) (on_s5_auth_info-StaysBare env packet c v)
        go s5_target e = absurd (ground (arith, v.early, e))
        go raw_data e = absurd (ground (arith, v.early, e))
        go http_raw_header e =
            rw (e, process_data) (raw_headers-StaysBare (suc (length packet)) [] 0 packet c v)
        go http_normal_header e =
            rw (e, process_data)
              (normal_headers-StaysBare (suc (length packet)) [] (length packet) 0 packet c v)
        go http_body e = rw (e, process_data) (on_http_body-StaysBare env packet c v)

    pub on_data-StaysBare :
        (packet : Bytes) (c : Client Address)
        → Bare c
        → StaysBare (on_data N W base64_decode env packet c)
    unfolding on_data
    on_data-StaysBare packet c v =
        go (process_data N W base64_decode env packet c) (process_data-StaysBare packet c v)
      where
        go :
            (o : Outcome Address)
            → StaysBare o
            → StaysBare (add_tcp_bytes N W base64_decode packet o)
        go o h = ground (arith, h.0, h.1)
