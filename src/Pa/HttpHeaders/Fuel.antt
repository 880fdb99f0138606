-- ===== src/Pa/HttpHeaders/Fuel.antt =====
-- The loops over header lines end.
use pp.Prelude.{
  ℕ, zero, suc, ◌+◌, ◌-◌, ◌<◌, ◌≡◌, [], ◌∷◌, ◌++◌, ◌==◌, Bytes, length, Bool-cases, Option-cases,
  inl, inr, refl, arith, split_line, split_line-length, sub64,
}
use pp.Pa.Types.{Env, Client, Outcome}
use pp.Pa.HttpHeaders.{
  Credential, key, not_basic, no_account, out_of_range, is_credential, raw_headers, normal_headers,
  read_credential,
}

module _ {Address : Type 0} (base64_decode : Bytes → Bytes) (env : Env Address) where
  credential-same :
      (f g : Bytes → Outcome Address) (o1 o2 o3 : Outcome Address)
      → ((k : Bytes) → f k ≡ g k)
      → (cred : Credential)
      → elim cred as (λ x. Outcome Address) [
        | key k ↦ f k
        | not_basic ↦ o1
        | no_account ↦ o2
        | out_of_range ↦ o3
      ]
        ≡ elim cred as (λ x. Outcome Address) [
          | key k ↦ g k
          | not_basic ↦ o1
          | no_account ↦ o2
          | out_of_range ↦ o3
        ]
  credential-same f g o1 o2 o3 h (key k) = h k
  credential-same f g o1 o2 o3 h not_basic = refl
  credential-same f g o1 o2 o3 h no_account = refl
  credential-same f g o1 o2 o3 h out_of_range = refl

  -- Fuel above the length of what is left is enough for OnHttpRawHeaderProcessor: one round more
  -- changes nothing, so the loop does not run out of it.
  pub raw_headers-enough :
      (fuel : ℕ) (auth_key : Bytes) (size : ℕ) (view : Bytes) (c : Client Address)
      → length view < fuel
      → raw_headers base64_decode env (suc fuel) auth_key size view c
        ≡ raw_headers base64_decode env fuel auth_key size view c
  unfolding raw_headers
  raw_headers-enough zero auth_key size view c h = absurd (omega (arith, h))
  raw_headers-enough (suc fuel) auth_key size view c h = elim (Option-cases (split_line view)) [
    | inl e ↦ rw (e, raw_headers) refl
    | inr (([], rest), e) ↦ rw (e, raw_headers) refl
    | inr ((b ∷ line, rest), e) ↦
        let shorter : length rest < fuel =
          omega (arith, h, split_line-length view (b ∷ line) rest e) in
        elim (Bool-cases (is_credential (b ∷ line))) [
          | inl yes_key ↦
              rw (e, raw_headers, yes_key)
                (credential-same _ _ _ _ _
                  (λ k. raw_headers-enough fuel k (size + length (b ∷ line) + 2) rest c shorter)
                  (read_credential base64_decode (length (b ∷ line) - 21) (b ∷ line)))
          | inr no_key ↦
              rw (e, raw_headers, no_key)
                (raw_headers-enough fuel auth_key (size + length (b ∷ line) + 2) rest c shorter)
        ]
  ]

  -- Fuel above the length of what is left is enough for OnHttpNormalHeaderProcessor: one round more
  -- changes nothing, so the loop does not run out of it.
  pub normal_headers-enough :
      (fuel : ℕ) (auth_key : Bytes) (total size : ℕ) (view : Bytes) (c : Client Address)
      → length view < fuel
      → normal_headers base64_decode env (suc fuel) auth_key total size view c
        ≡ normal_headers base64_decode env fuel auth_key total size view c
  unfolding normal_headers
  normal_headers-enough zero auth_key total size view c h = absurd (omega (arith, h))
  normal_headers-enough (suc fuel) auth_key total size view c h =
      elim (Option-cases (split_line view)) [
        | inl e ↦ rw (e, normal_headers) refl
        | inr ((piece, rest), e) ↦
            let line : Bytes = c.http.temp_header_line ++ piece in
            let shorter : length rest < fuel =
              omega (arith, h, split_line-length view piece rest e) in
            elim (Bool-cases (length line == 0)) [
              | inl ends ↦ rw (e, normal_headers, ends) refl
              | inr more ↦ elim (Bool-cases (is_credential line)) [
                | inl yes_key ↦
                    rw (e, normal_headers, more, yes_key)
                      (credential-same _ _ _ _ _
                        (λ k.
                          normal_headers-enough fuel k total (size + length piece + 2) rest _
                            shorter)
                        (read_credential base64_decode (sub64 (length piece) 21) line))
                | inr no_key ↦
                    rw (e, normal_headers, more, no_key)
                      (normal_headers-enough fuel auth_key total (size + length piece + 2) rest _
                        shorter)
              ]
            ]
      ]
