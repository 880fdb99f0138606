-- ===== src/Pa/Socks/Login.antt =====
-- The account and the password of a SOCKS5 client, in one piece or in several.
use pp.Prelude.{
  ℕ, zero, suc, ◌+◌, ◌<◌, ◌≤◌, ◌≡◌, refl, arith, ◌==◌, if◌then◌else◌, [], ◌∷◌, ◌++◌, Bytes, length,
  take, length-append, length-take, take-append, drop-append, get_or-drop-take,
}
use pp.Xel.NetAddress.{NetAddress}
use pp.Pa.Types.{
  Client, Env, Outcome, kill_connection, count, post, acquire_auth_info, consumed,
  request_authentication_oom,
}
use pp.Pa.Socks.{on_s5_auth_info, request_authentication, wait}

-- What a client sends, with what follows.
abbrev pub login : (name pass rest : Bytes) → Bytes
login name pass rest = 1 ∷ length name ∷ (name ++ (length pass ∷ (pass ++ rest)))

module _ (N : NetAddress) (env : Env N.Address) (c : Client N.Address)
    (name pass rest : Bytes) where
  -- What a complete login leads to: it is consumed, and nothing behind it is; the account service is
  -- asked for the account, a zero byte, and the password. Without a future the client is refused.
  abbrev pub logged_in : Outcome N.Address
  logged_in = record {
    client = record c { data_processor = kill_connection; auth_future = env.next_auth_future };
    effects =
        if env.next_auth_future == 0
        then count request_authentication_oom ∷ post (1 ∷ 1 ∷ []) ∷ []
        else acquire_auth_info (name ++ 0 ∷ pass) env.next_auth_future ∷ [];
    result = consumed (3 + length name + length pass);
  }

  -- A complete login with an account and a password that are not empty is consumed, nothing behind
  -- it is, and the account service is asked for the account, a zero byte, and the password; without
  -- a future the client is refused.
  pub on_s5_auth_info-login :
      1 ≤ length name → 1 ≤ length pass → on_s5_auth_info N env (login name pass rest) c ≡ logged_in
  unfolding on_s5_auth_info request_authentication
  on_s5_auth_info-login h k = ground (
    arith,
    take-append (length name) name (length pass ∷ (pass ++ rest)) refl,
    drop-append (length name) name (length pass ∷ (pass ++ rest)) refl,
    take-append (length pass) pass rest refl,
    length-append name (length pass ∷ (pass ++ rest)),
    length-append pass rest,
  )

  -- A login that is cut off anywhere before its end is waited for: nothing is consumed or changed.
  pub on_s5_auth_info-cut :
      (n : ℕ)
      → n < 3 + length name + length pass
      → on_s5_auth_info N env (take n (login name pass rest)) c ≡ wait N c
  unfolding on_s5_auth_info
  on_s5_auth_info-cut zero h = refl
  on_s5_auth_info-cut (suc zero) h = refl
  on_s5_auth_info-cut (suc (suc m)) h =
      ground (arith, sizes, get_or-drop-take m name (pass ++ rest) (length pass) 0)
    where
      sizes : length (take m (name ++ (length pass ∷ (pass ++ rest)))) ≡ m
      sizes = length-take m (name ++ (length pass ∷ (pass ++ rest))) (
          omega
            (arith, h, length-append name (length pass ∷ (pass ++ rest)), length-append pass rest))
