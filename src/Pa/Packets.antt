-- ===== src/Pa/Packets.antt =====
-- The addresses in the SOCKS5 packets of ppp/lib_component/pa_service.cpp.
pub mod Roundtrip
use pp.Prelude.{
  ℕ, ◌+◌, List, [], ◌∷◌, ◌++◌, Option, none, some, ◌==◌, ltb, if◌then◌else◌, Bytes, length, get_or,
  take, drop,
}
use pp.Xel.NetAddress.{NetAddress, Kind, unknown_address, is4, is6}
use pp.Xel.Stream.{Stream}

module _ (W : Stream) where
  open W use {r2, w2_first, w2_second}

  -- R2() at an offset.
  abbrev pub read_port : ℕ → Bytes → ℕ
  read_port n packet = r2 (get_or (drop n packet) 0 0) (get_or (drop n packet) 1 0)

  abbrev pub write_port : ℕ → Bytes
  write_port p = w2_first p ∷ w2_second p ∷ []

module _ (N : NetAddress) (W : Stream) where
  open N use {Address, make4, make6, kind, octets, port}

  -- SA4 or SA6, and Port, at an offset.
  abbrev pub read_address4 : ℕ → Bytes → Address
  read_address4 n packet = make4 (take 4 (drop n packet)) (read_port W (n + 4) packet)

  abbrev pub read_address6 : ℕ → Bytes → Address
  read_address6 n packet = make6 (take 16 (drop n packet)) (read_port W (n + 16) packet)

  -- The type, the address and the port.
  unfoldable pub write_address : Address → Bytes
  write_address a = elim (kind a) [
    | is6 ↦ 4 ∷ octets a ++ write_port W (port a)
    | _ ↦ 1 ∷ octets a ++ write_port W (port a)
  ]

  -- An empty payload is dropped.
  unfoldable pub carry : Address → Bytes → Option (Address × Bytes)
  carry target [] = none
  carry target (b ∷ bs) = some (target, b ∷ bs)

  -- The target and the payload of a client's datagram, if it has both.
  unfoldable pub read_datagram : Bytes → Option (Address × Bytes)
  unfolding carry
  read_datagram packet =
      if ltb (length packet) 4
      then none
      else if ltb 0 (read_port W 0 packet)
      then none
      else if ltb 0 (get_or packet 2 0)
      then none
      else if get_or packet 3 0 == 1
      then (if ltb (length packet) 10
          then none
          else carry (read_address4 4 packet) (drop 2 (drop 8 packet)))
      else if get_or packet 3 0 == 4
      then (if ltb (length packet) 22
          then none
          else carry (read_address6 4 packet) (drop 2 (drop 20 packet)))
      else none

  -- The packet that carries a payload to the client, from an address of a known type.
  unfoldable pub write_datagram : Address → Bytes → Option Bytes
  unfolding write_address
  write_datagram source payload = elim (kind source) [
    | unknown_address ↦ none
    | _ ↦ some (write_port W 0 ++ 0 ∷ write_address source ++ payload)
  ]
