-- ===== src/Pa/Session/Sizes.antt =====
-- How much of a packet the SOCKS5 processors consume.
use pp.Prelude.{
  ltb, leb, not, ◌||◌, get_or, ℕ, ◌+◌, ◌≤◌, ◌==◌, Bytes, length, Bool-cases, inl, inr, arith,
}
use pp.Xel.NetAddress.{NetAddress}
use pp.Xel.Stream.{Stream}
use pp.Pa.Types.{Client, Consumed, consumed, invalid_data_size, aborted, Outcome, Env}
use pp.Pa.Socks.{wait, on_s5_challenge, on_s5_auth_info}
use pp.Pa.Socks.Target.{
  Target, size_of, by_address, by_name, bad_address_type, incomplete_target, on_s5_target,
  read_target, act_on_target, connect_target, bind_target,
}

-- No more than `n` bytes are consumed.
abbrev pub Within : ℕ → Consumed → Type 0
Within n (consumed k) = k ≤ n
Within n invalid_data_size = Unit
Within n aborted = Unit

module _ (N : NetAddress) (W : Stream) (env : Env N.Address) where
  open N use {Address}

  pub on_s5_challenge-Within :
      (packet : Bytes) (c : Client Address)
      → Within (length packet) (on_s5_challenge N env packet c).result
  unfolding on_s5_challenge
  on_s5_challenge-Within packet c = ground arith

  pub on_s5_auth_info-Within :
      (packet : Bytes) (c : Client Address)
      → Within (length packet) (on_s5_auth_info N env packet c).result
  unfolding on_s5_auth_info
  on_s5_auth_info-Within packet c = ground arith

  -- The target of a packet lies within it.
  abbrev Fits : ℕ → Target Address → Type 0
  Fits n (by_address address size) = size ≤ n
  Fits n (by_name host port size) = size ≤ n
  Fits n (bad_address_type size) = size ≤ n
  Fits n incomplete_target = Unit {0}

  read_target-Fits :
      (packet : Bytes) → 10 ≤ length packet → Fits (length packet) (read_target N W packet)
  unfolding read_target
  read_target-Fits packet h = ground (arith, h)

  connect_target-Within :
      (n : ℕ) (target : Target Address) (c : Client Address)
      → Fits n target
      → Within n (connect_target N W env target c).result
  unfolding connect_target
  connect_target-Within n incomplete_target c h = omega arith
  connect_target-Within n (by_address address size) c h = ground (arith, h)
  connect_target-Within n (by_name host port size) c h = ground (arith, h)
  connect_target-Within n (bad_address_type size) c h = ground (arith, h)

  bind_target-Within :
      (n addr_type size : ℕ) (c : Client Address)
      → size ≤ n
      → Within n (bind_target N W env addr_type size c).result
  unfolding bind_target
  bind_target-Within n addr_type size c h = ground (arith, h)

  size_of-Fits : (n : ℕ) (target : Target Address) → Fits n target → size_of N W target ≤ n
  size_of-Fits n (by_address address size) h = h
  size_of-Fits n (by_name host port size) h = h
  size_of-Fits n (bad_address_type size) h = h
  size_of-Fits n incomplete_target h = omega arith

  act_on_target-Within :
      (n : ℕ) (packet : Bytes) (target : Target Address) (c : Client Address)
      → Fits n target
      → Within n (act_on_target N W env packet target c).result
  unfolding act_on_target
  act_on_target-Within n packet target c h = elim (Bool-cases (get_or packet 1 0 == 1)) [
    | inl connect ↦ rw (connect, act_on_target) (connect_target-Within n target c h)
    | inr other ↦ elim (Bool-cases (get_or packet 1 0 == 3)) [
      | inl bind ↦
          rw (other, act_on_target, bind)
            (bind_target-Within n (get_or packet 3 0) (size_of N W target) c
              (size_of-Fits n target h))
      | inr unknown ↦ rw (other, act_on_target, unknown) (omega arith)
    ]
  ]

  pub on_s5_target-Within :
      (packet : Bytes) (c : Client Address)
      → Within (length packet) (on_s5_target N W env packet c).result
  unfolding on_s5_target
  on_s5_target-Within packet c = elim (Bool-cases (ltb (length packet) 10)) [
    | inl short ↦ rw (short, on_s5_target) (omega arith)
    | inr enough ↦ elim (Bool-cases (leb (6 + 256) (length packet))) [
      | inl long ↦ rw (enough, on_s5_target, long) tt
      | inr fits ↦
          elim (Bool-cases (not (get_or packet 0 0 == 5) || not (get_or packet 2 0 == 0))) [
            | inl bad ↦ rw (enough, on_s5_target, fits, bad) tt
            | inr good ↦
                rw (enough, on_s5_target, fits, good)
                  (acted (read_target N W packet)
                    (read_target-Fits packet (ground (arith, enough))))
          ]
    ]
  ]
    where
      acted :
          (target : Target Address)
          → Fits (length packet) target
          → Within
              (length packet)
              (elim target as (λ x. Outcome Address) [
                | incomplete_target ↦ wait N c
                | other ↦ act_on_target N W env packet other c
              ]).result
      acted incomplete_target h = omega arith
      acted (by_address address size) h =
          act_on_target-Within (length packet) packet (by_address address size) c h
      acted (by_name host port size) h =
          act_on_target-Within (length packet) packet (by_name host port size) c h
      acted (bad_address_type size) h =
          act_on_target-Within (length packet) packet (bad_address_type size) c h
