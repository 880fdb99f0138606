-- ===== src/Xel/NetAddress.antt =====
-- xel::xNetAddress: what the program reads and writes of an address.
use pp.Prelude.{ℕ, ◌≡◌, Bytes}

pub data Kind : Type 0 where
  unknown_address is4 is6 : Kind

pub record NetAddress : Type 1 where
  pub Address : Type 0
  pub unknown : Address  -- xNetAddress{}
  -- An address whose Type, SA4 or SA6, and Port are assigned.
  pub make4 : Bytes → ℕ → Address
  pub make6 : Bytes → ℕ → Address
  pub kind : Address → Kind  -- Type, Is4(), Is6(), operator bool
  pub octets : Address → Bytes  -- SA4, SA6
  pub port : Address → ℕ
  pub ip : Address → Address  -- Ip()
  pub ip_to_string : Address → Bytes
  pub kind-unknown : kind unknown ≡ unknown_address
  pub kind-make4 : (b : Bytes) (p : ℕ) → kind (make4 b p) ≡ is4
  pub kind-make6 : (b : Bytes) (p : ℕ) → kind (make6 b p) ≡ is6
  pub octets-make4 : (b : Bytes) (p : ℕ) → octets (make4 b p) ≡ b
  pub octets-make6 : (b : Bytes) (p : ℕ) → octets (make6 b p) ≡ b
  pub port-make4 : (b : Bytes) (p : ℕ) → port (make4 b p) ≡ p
  pub port-make6 : (b : Bytes) (p : ℕ) → port (make6 b p) ≡ p
  pub kind-ip : (a : Address) → kind (ip a) ≡ kind a
  pub octets-ip : (a : Address) → octets (ip a) ≡ octets a
  pub port-ip : (a : Address) → port (ip a) ≡ 0
