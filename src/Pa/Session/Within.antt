-- ===== src/Pa/Session/Within.antt =====
-- How much of a packet a data processor consumes.
use pp.Prelude.{
  ℕ, zero, suc, ◌+◌, ◌-◌, ◌≤◌, ◌≡◌, [], ◌∷◌, ◌++◌, ◌==◌, Bytes, length, Bool-cases, Option-cases,
  inl, inr, refl, arith, split_line, split_line-length, sub64,
}
use pp.Xel.NetAddress.{NetAddress}
use pp.Xel.Stream.{Stream}
use pp.Pa.Types.{
  Processor, guess_proxy_type, kill_connection, s5_auth_info, s5_target, raw_data, http_raw_header,
  http_normal_header, http_body, Client, Outcome, Env,
}
use pp.Pa.Socks.{on_raw_data}
use pp.Pa.Http.{on_http_challenge, on_connect_line, on_url_line, on_http_body}
use pp.Pa.HttpHeaders.{
  Credential, key, not_basic, no_account, out_of_range, is_credential, on_http_raw_header,
  on_http_normal_header, raw_headers, normal_headers, read_credential, request_http_authentication,
}
use pp.Pa.Lifetime.{keep_alive}
use pp.Pa.Session.{on_guess_proxy_type, process_data}
use pp.Pa.Session.Sizes.{
  Within, on_s5_challenge-Within, on_s5_auth_info-Within, on_s5_target-Within,
}

module _ (N : NetAddress) (W : Stream) (base64_decode : Bytes → Bytes) (env : Env N.Address) where
  open N use {Address}

  on_http_challenge-Within :
      (packet : Bytes) (c : Client Address)
      → Within (length packet) (on_http_challenge env packet c).result
  unfolding on_http_challenge on_connect_line on_url_line
  on_http_challenge-Within packet c = elim (Option-cases (split_line packet)) [
    | inl e ↦ ground (arith, e)
    | inr ((line, rest), e) ↦ ground (arith, e, split_line-length packet line rest e)
  ]

  on_http_body-Within :
      (packet : Bytes) (c : Client Address)
      → Within (length packet) (on_http_body env packet c).result
  unfolding on_http_body
  on_http_body-Within packet c = ground arith

  on_raw_data-Within :
      (packet : Bytes) (c : Client Address)
      → Within (length packet) (on_raw_data env packet c).result
  unfolding on_raw_data keep_alive
  on_raw_data-Within packet c = ground arith

  guessed-Within :
      (packet : Bytes) (c : Client Address)
      → Within (length packet) (on_guess_proxy_type N W base64_decode env packet c).result
  unfolding on_guess_proxy_type
  guessed-Within packet c =
      ground (arith, on_s5_challenge-Within N W env packet c, on_http_challenge-Within packet c)

  request_http_authentication-Within :
      (total size : ℕ) (auth_key : Bytes) (next : Processor) (c : Client Address)
      → size ≤ total
      → Within total (request_http_authentication base64_decode env auth_key size next c).result
  unfolding request_http_authentication
  request_http_authentication-Within total size auth_key next c h = ground (arith, h)

  credential-Within :
      (total : ℕ) (next : Bytes → Outcome Address) (o1 o2 o3 : Outcome Address)
      → ((k : Bytes) → Within total (next k).result)
      → Within total o1.result
      → Within total o2.result
      → Within total o3.result
      → (cred : Credential)
      → Within total
          (elim cred as (λ x. Outcome Address) [
            | key k ↦ next k
            | not_basic ↦ o1
            | no_account ↦ o2
            | out_of_range ↦ o3
          ]).result
  credential-Within total next o1 o2 o3 h h1 h2 h3 (key k) = h k
  credential-Within total next o1 o2 o3 h h1 h2 h3 not_basic = h1
  credential-Within total next o1 o2 o3 h h1 h2 h3 no_account = h2
  credential-Within total next o1 o2 o3 h h1 h2 h3 out_of_range = h3

  raw_headers-Within :
      (fuel total : ℕ) (auth_key : Bytes) (size : ℕ) (view : Bytes) (c : Client Address)
      → size + length view ≤ total
      → Within total (raw_headers base64_decode env fuel auth_key size view c).result
  unfolding raw_headers
  raw_headers-Within zero total auth_key size view c h = tt
  raw_headers-Within (suc fuel) total auth_key size view c h =
      elim (Option-cases (split_line view)) [
        | inl e ↦ rw (e, raw_headers) (omega (arith, h))
        | inr (([], rest), e) ↦ ground (
          arith,
          e,
          request_http_authentication-Within total (size + 2) auth_key kill_connection
              (record c { data_processor = kill_connection })
              (omega (arith, h, split_line-length view [] rest e)),
        )
        | inr ((b ∷ line, rest), e) ↦
            let fits : size + length (b ∷ line) + 2 + length rest ≤ total =
              omega (arith, h, split_line-length view (b ∷ line) rest e) in
            elim (Bool-cases (is_credential (b ∷ line))) [
              | inl yes_key ↦
                  rw (e, raw_headers, yes_key)
                    (credential-Within total _ _ _ _
                      (λ k.
                        raw_headers-Within fuel total k (size + length (b ∷ line) + 2) rest c fits)
                      tt (omega arith) tt
                      (read_credential base64_decode (length (b ∷ line) - 21) (b ∷ line)))
              | inr no_key ↦
                  rw (e, raw_headers, no_key)
                    (raw_headers-Within fuel total auth_key (size + length (b ∷ line) + 2) rest c
                      fits)
            ]
      ]

  normal_headers-Within :
      (fuel total : ℕ) (auth_key : Bytes) (size : ℕ) (view : Bytes) (c : Client Address)
      → size + length view ≤ total
      → Within total (normal_headers base64_decode env fuel auth_key total size view c).result
  unfolding normal_headers
  normal_headers-Within zero total auth_key size view c h = tt
  normal_headers-Within (suc fuel) total auth_key size view c h =
      elim (Option-cases (split_line view)) [
        | inl e ↦ rw (e, normal_headers) (omega arith)
        | inr ((piece, rest), e) ↦
            let line : Bytes = c.http.temp_header_line ++ piece in
            let fits : size + length piece + 2 + length rest ≤ total =
              omega (arith, h, split_line-length view piece rest e) in
            elim (Bool-cases (length line == 0)) [
              | inl ends ↦
                  rw (e, normal_headers, ends)
                    (request_http_authentication-Within total (size + 2) auth_key http_body
                      (record c {
                        http = record c.http { content = c.http.content ++ 13 ∷ 10 ∷ [] };
                      })
                      (omega (arith, fits)))
              | inr more ↦ elim (Bool-cases (is_credential line)) [
                | inl yes_key ↦
                    rw (e, normal_headers, more, yes_key)
                      (credential-Within total _ _ _ _
                        (λ k.
                          normal_headers-Within fuel total k (size + length piece + 2) rest _ fits)
                        (omega arith) (omega arith) tt
                        (read_credential base64_decode (sub64 (length piece) 21) line))
                | inr no_key ↦
                    rw (e, normal_headers, more, no_key)
                      (normal_headers-Within fuel total auth_key (size + length piece + 2) rest _
                        fits)
              ]
            ]
      ]

  -- A data processor never claims to have consumed more bytes than the packet has.
  pub process_data-Within :
      (packet : Bytes) (c : Client Address)
      → Within (length packet) (process_data N W base64_decode env packet c).result
  unfolding process_data on_http_raw_header on_http_normal_header
  process_data-Within packet c = go c.data_processor refl
    where
      go :
          (p : Processor)
          → c.data_processor ≡ p
          → Within (length packet) (process_data N W base64_decode env packet c).result
      go guess_proxy_type e = rw (e, process_data) (guessed-Within packet c)
      go kill_connection e = rw (e, process_data) tt
      go s5_auth_info e = rw (e, process_data) (on_s5_auth_info-Within N W env packet c)
      go s5_target e = rw (e, process_data) (on_s5_target-Within N W env packet c)
      go raw_data e = rw (e, process_data) (on_raw_data-Within packet c)
      go http_raw_header e =
          rw (e, process_data)
            (raw_headers-Within (suc (length packet)) (length packet) [] 0 packet c (omega arith))
      go http_normal_header e =
          rw (e, process_data)
            (normal_headers-Within (suc (length packet)) (length packet) [] 0 packet c
              (omega arith))
      go http_body e = rw (e, process_data) (on_http_body-Within packet c)
