-- ===== src/Pa/Session/Futures.antt =====
-- The futures that a connection of ppp/lib_component/pa_service.cpp holds, one at a time.
use pp.Prelude.{
  ltb, leb, not, ◌||◌, get_or, ℕ, zero, suc, ◌+◌, ◌-◌, ◌≡◌, ◌≢◌, Bool, true, false, [], ◌∷◌, ◌++◌,
  ◌==◌, Bytes, length, Bool-cases, Option-cases, inl, inr, refl, arith, split_line, sub64,
}
use pp.Xel.NetAddress.{NetAddress}
use pp.Xel.Stream.{Stream}
use pp.Pa.Types.{
  Processor, guess_proxy_type, kill_connection, s5_auth_info, s5_target, raw_data, http_raw_header,
  http_normal_header, http_body, HttpData, Client, Outcome, Env,
}
use pp.Pa.Socks.{wait, on_s5_challenge, on_s5_auth_info, on_raw_data, request_authentication}
use pp.Pa.Socks.Target.{
  Target, by_address, by_name, bad_address_type, incomplete_target, read_target, size_of,
  connect_target, bind_target, act_on_target, on_s5_target,
}
use pp.Pa.Http.{on_http_challenge, on_connect_line, on_url_line, on_http_body}
use pp.Pa.HttpHeaders.{
  Credential, key, not_basic, no_account, out_of_range, is_credential, on_http_raw_header,
  on_http_normal_header, raw_headers, normal_headers, read_credential, request_http_authentication,
}
use pp.Pa.Lifetime.{keep_alive}
use pp.Pa.Session.{on_guess_proxy_type, process_data, on_data, add_tcp_bytes}

-- A processor that waits for something that the client asks for.
abbrev pub asks : Processor → Bool
asks guess_proxy_type = true
asks kill_connection = false
asks s5_auth_info = true
asks s5_target = true
asks raw_data = false
asks http_raw_header = true
asks http_normal_header = true
asks http_body = false

-- At most one of the futures of an authentication, a device and a connection is held, and none while
-- the client is asked.
pub record OneFuture {Address : Type 0} (c : Client Address) : Type 0 where
  pub no_auth : asks c.data_processor ≡ true → c.auth_future ≡ 0
  pub no_device : asks c.data_processor ≡ true → c.acquire_device_future ≡ 0
  pub no_connection : asks c.data_processor ≡ true → c.acquire_device_connection_future ≡ 0
  pub auth_alone :
      c.auth_future ≢ 0 → (c.acquire_device_future ≡ 0) × (c.acquire_device_connection_future ≡ 0)
  pub device_alone : c.acquire_device_future ≢ 0 → c.acquire_device_connection_future ≡ 0

module _ (N : NetAddress) (W : Stream) (env : Env N.Address) where
  open N use {Address}

  on_s5_challenge-OneFuture :
      (packet : Bytes) (c : Client Address)
      → OneFuture c
      → c.data_processor ≡ guess_proxy_type
      → OneFuture (on_s5_challenge N env packet c).client
  unfolding on_s5_challenge request_authentication
  on_s5_challenge-OneFuture packet c v e = ground (arith, v, e)

  on_s5_auth_info-OneFuture :
      (packet : Bytes) (c : Client Address)
      → OneFuture c
      → c.data_processor ≡ s5_auth_info
      → OneFuture (on_s5_auth_info N env packet c).client
  unfolding on_s5_auth_info request_authentication
  on_s5_auth_info-OneFuture packet c v e = ground (arith, v, e)

  connect_target-OneFuture :
      (target : Target Address) (c : Client Address)
      → OneFuture c
      → c.data_processor ≡ s5_target
      → OneFuture (connect_target N W env target c).client
  unfolding connect_target
  connect_target-OneFuture incomplete_target c v e = v
  connect_target-OneFuture (by_address address size) c v e = ground (arith, v, e)
  connect_target-OneFuture (by_name host port size) c v e = ground (arith, v, e)
  connect_target-OneFuture (bad_address_type size) c v e = ground (arith, v, e)

  -- Without a change of the futures.
  killed-OneFuture :
      (c : Client Address) → OneFuture c → OneFuture (record c { data_processor = kill_connection })
  killed-OneFuture c v = ground (arith, v)

  bind_target-OneFuture :
      (addr_type size : ℕ) (c : Client Address)
      → OneFuture c
      → OneFuture (bind_target N W env addr_type size c).client
  unfolding bind_target
  bind_target-OneFuture addr_type size c v = ground (arith, killed-OneFuture c v)

  act_on_target-OneFuture :
      (packet : Bytes) (target : Target Address) (c : Client Address)
      → OneFuture c
      → c.data_processor ≡ s5_target
      → OneFuture (act_on_target N W env packet target c).client
  unfolding act_on_target
  act_on_target-OneFuture packet target c v e = elim (Bool-cases (get_or packet 1 0 == 1)) [
    | inl connects ↦ rw (connects, act_on_target) (connect_target-OneFuture target c v e)
    | inr other ↦ elim (Bool-cases (get_or packet 1 0 == 3)) [
      | inl binds ↦
          rw (other, binds, act_on_target)
            (bind_target-OneFuture (get_or packet 3 0) (size_of N W target) c v)
      | inr neither ↦ rw (other, neither, act_on_target) (killed-OneFuture c v)
    ]
  ]

  on_s5_target-OneFuture :
      (packet : Bytes) (c : Client Address)
      → OneFuture c
      → c.data_processor ≡ s5_target
      → OneFuture (on_s5_target N W env packet c).client
  unfolding on_s5_target
  on_s5_target-OneFuture packet c v e = elim (Bool-cases (ltb (length packet) 10)) [
    | inl short ↦ rw (short, on_s5_target) v
    | inr enough ↦ elim (Bool-cases (leb (6 + 256) (length packet))) [
      | inl long ↦ rw (enough, on_s5_target, long) v
      | inr fits ↦
          elim (Bool-cases (not (get_or packet 0 0 == 5) || not (get_or packet 2 0 == 0))) [
            | inl bad ↦ rw (enough, on_s5_target, fits, bad) v
            | inr good ↦ rw (enough, on_s5_target, fits, good) (acted (read_target N W packet))
          ]
    ]
  ]
    where
      acted :
          (target : Target Address)
          → OneFuture
              (elim target as (λ x. Outcome Address) [
                | incomplete_target ↦ wait N c
                | other ↦ act_on_target N W env packet other c
              ]).client
      acted incomplete_target = v
      acted (by_address address size) =
          act_on_target-OneFuture packet (by_address address size) c v e
      acted (by_name host port size) = act_on_target-OneFuture packet (by_name host port size) c v e
      acted (bad_address_type size) = act_on_target-OneFuture packet (bad_address_type size) c v e

  on_http_challenge-OneFuture :
      (packet : Bytes) (c : Client Address)
      → OneFuture c
      → c.data_processor ≡ guess_proxy_type
      → OneFuture (on_http_challenge env packet c).client
  unfolding on_http_challenge on_connect_line on_url_line
  on_http_challenge-OneFuture packet c v e = ground (arith, v, e)

  on_http_body-OneFuture :
      (packet : Bytes) (c : Client Address)
      → OneFuture c
      → OneFuture (on_http_body env packet c).client
  unfolding on_http_body keep_alive
  on_http_body-OneFuture packet c v = ground (arith, v)

  on_raw_data-OneFuture :
      (packet : Bytes) (c : Client Address)
      → OneFuture c
      → OneFuture (on_raw_data env packet c).client
  unfolding on_raw_data keep_alive
  on_raw_data-OneFuture packet c v = ground (arith, v)

  module _ (base64_decode : Bytes → Bytes) where
    request_http_authentication-OneFuture :
        (auth_key : Bytes) (size : ℕ) (next : Processor) (c : Client Address)
        → asks next ≡ false
        → c.acquire_device_future ≡ 0
        → c.acquire_device_connection_future ≡ 0
        → c.auth_future ≡ 0
        → OneFuture (request_http_authentication base64_decode env auth_key size next c).client
    unfolding request_http_authentication request_authentication
    request_http_authentication-OneFuture auth_key size next c e h1 h2 h3 =
        ground (arith, e, h1, h2, h3)

    credential-OneFuture :
        (next : Bytes → Outcome Address) (o1 o2 o3 : Outcome Address)
        → ((k : Bytes) → OneFuture (next k).client)
        → OneFuture o1.client
        → OneFuture o2.client
        → OneFuture o3.client
        → (cred : Credential)
        → OneFuture
            (elim cred as (λ x. Outcome Address) [
              | key k ↦ next k
              | not_basic ↦ o1
              | no_account ↦ o2
              | out_of_range ↦ o3
            ]).client
    credential-OneFuture next o1 o2 o3 h h1 h2 h3 (key k) = h k
    credential-OneFuture next o1 o2 o3 h h1 h2 h3 not_basic = h1
    credential-OneFuture next o1 o2 o3 h h1 h2 h3 no_account = h2
    credential-OneFuture next o1 o2 o3 h h1 h2 h3 out_of_range = h3

    raw_headers-OneFuture :
        (fuel : ℕ) (auth_key : Bytes) (size : ℕ) (view : Bytes) (c : Client Address)
        → OneFuture c
        → c.data_processor ≡ http_raw_header
        → OneFuture (raw_headers base64_decode env fuel auth_key size view c).client
    unfolding raw_headers
    raw_headers-OneFuture zero auth_key size view c v is = v
    raw_headers-OneFuture (suc fuel) auth_key size view c v is =
        elim (Option-cases (split_line view)) [
          | inl e ↦ rw (e, raw_headers) v
          | inr (([], rest), e) ↦ ground (
            arith,
            e,
            v,
            is,
            request_http_authentication-OneFuture auth_key (size + 2) kill_connection
                (record c { data_processor = kill_connection }) refl
                (v.no_device (ground (arith, is))) (v.no_connection (ground (arith, is)))
                (v.no_auth (ground (arith, is))),
          )
          | inr ((b ∷ line, rest), e) ↦ elim (Bool-cases (is_credential (b ∷ line))) [
            | inl yes_key ↦
                rw (e, raw_headers, yes_key)
                  (credential-OneFuture _ _ _ _
                    (λ k. raw_headers-OneFuture fuel k (size + length (b ∷ line) + 2) rest c v is) v
                    v v (read_credential base64_decode (length (b ∷ line) - 21) (b ∷ line)))
            | inr no_key ↦
                rw (e, raw_headers, no_key)
                  (raw_headers-OneFuture fuel auth_key (size + length (b ∷ line) + 2) rest c v is)
          ]
        ]

    normal_headers-OneFuture :
        (fuel : ℕ) (auth_key : Bytes) (total size : ℕ) (view : Bytes) (c : Client Address)
        → OneFuture c
        → c.data_processor ≡ http_normal_header
        → OneFuture (normal_headers base64_decode env fuel auth_key total size view c).client
    unfolding normal_headers
    normal_headers-OneFuture zero auth_key total size view c v is = v
    normal_headers-OneFuture (suc fuel) auth_key total size view c v is =
        elim (Option-cases (split_line view)) [
          | inl e ↦ rw (e, normal_headers) (with_http _)
          | inr ((piece, rest), e) ↦
              let line : Bytes = c.http.temp_header_line ++ piece in
              elim (Bool-cases (length line == 0)) [
                | inl ends ↦
                    rw (e, normal_headers, ends)
                      (request_http_authentication-OneFuture auth_key (size + 2) http_body _ refl
                        (v.no_device (ground (arith, is))) (v.no_connection (ground (arith, is)))
                        (v.no_auth (ground (arith, is))))
                | inr more ↦ elim (Bool-cases (is_credential line)) [
                  | inl yes_key ↦
                      rw (e, normal_headers, more, yes_key)
                        (credential-OneFuture _ _ _ _
                          (λ k.
                            normal_headers-OneFuture fuel k total (size + length piece + 2) rest _
                              (with_http _) is)
                          (with_http _) (with_http _) (with_http _)
                          (read_credential base64_decode (sub64 (length piece) 21) line))
                  | inr no_key ↦
                      rw (e, normal_headers, more, no_key)
                        (normal_headers-OneFuture fuel auth_key total (size + length piece + 2) rest
                          _ (with_http _) is)
                ]
              ]
        ]
      where
        with_http : (h : HttpData) → OneFuture (record c { http = h })
        with_http h = ground (arith, v)

    guessed-OneFuture :
        (packet : Bytes) (c : Client Address)
        → OneFuture c
        → c.data_processor ≡ guess_proxy_type
        → OneFuture (on_guess_proxy_type N W base64_decode env packet c).client
    unfolding on_guess_proxy_type
    guessed-OneFuture packet c v is = ground (
      arith,
      v,
      on_s5_challenge-OneFuture packet c v is,
      on_http_challenge-OneFuture packet c v is,
    )

    process_data-OneFuture :
        (packet : Bytes) (c : Client Address)
        → OneFuture c
        → OneFuture (process_data N W base64_decode env packet c).client
    unfolding process_data on_http_raw_header on_http_normal_header
    process_data-OneFuture packet c v = go c.data_processor refl
      where
        go :
            (p : Processor)
            → c.data_processor ≡ p
            → OneFuture (process_data N W base64_decode env packet c).client
        go guess_proxy_type e = rw (e, process_data) (guessed-OneFuture packet c v e)
        go kill_connection e = rw (e, process_data) v
        go s5_auth_info e = rw (e, process_data) (on_s5_auth_info-OneFuture packet c v e)
        go s5_target e = rw (e, process_data) (on_s5_target-OneFuture packet c v e)
        go raw_data e = rw (e, process_data) (on_raw_data-OneFuture packet c v)
        go http_raw_header e =
            rw (e, process_data) (raw_headers-OneFuture (suc (length packet)) [] 0 packet c v e)
        go http_normal_header e =
            rw (e, process_data)
              (normal_headers-OneFuture (suc (length packet)) [] (length packet) 0 packet c v e)
        go http_body e = rw (e, process_data) (on_http_body-OneFuture packet c v)

    pub on_data-OneFuture :
        (packet : Bytes) (c : Client Address)
        → OneFuture c
        → OneFuture (on_data N W base64_decode env packet c).client
    unfolding on_data
    on_data-OneFuture packet c v =
        go (process_data N W base64_decode env packet c) (process_data-OneFuture packet c v)
      where
        go :
            (o : Outcome Address)
            → OneFuture o.client
            → OneFuture (add_tcp_bytes N W base64_decode packet o).client
        go o h = ground (arith, h)
