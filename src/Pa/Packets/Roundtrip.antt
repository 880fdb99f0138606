-- ===== src/Pa/Packets/Roundtrip.antt =====
-- A packet that the service writes is one that it reads.
use pp.Prelude.{
  ℕ, ◌^◌, ◌<◌, ◌≡◌, ◌⊎◌, inl, inr, refl, arith, ◌∷◌, ◌++◌, append_assoc, Option, none, some, Bytes,
  length, length-append, take-append, drop-append,
}
use pp.Xel.NetAddress.{NetAddress, is4, is6}
use pp.Xel.Stream.{Stream}
use pp.Pa.Packets.{write_port, write_address, carry, read_datagram, write_datagram}

module _ (N : NetAddress) (W : Stream) where
  open N use {Address, make4, make6, kind, octets, port}

  -- An address whose octets and port have the size that its type has.
  abbrev pub Sized : Address → Type 0
  Sized a =
      ((kind a ≡ is4) × (length (octets a) ≡ 4) ⊎ (kind a ≡ is6) × (length (octets a) ≡ 16))
      × (port a < 2 ^ 16)

  -- The address that is made of the parts of another.
  abbrev pub remade : Address → Address
  remade a = elim (kind a) [ is6 ↦ make6 (octets a) (port a) | _ ↦ make4 (octets a) (port a) ]

  module _ (bs : Bytes) (p b : ℕ) (payload : Bytes) (fits : p < 2 ^ 16) where
    read_datagram4 :
        length bs ≡ 4
        → read_datagram N W (write_port W 0 ++ 0 ∷ 1 ∷ bs ++ (write_port W p ++ b ∷ payload))
          ≡ some (make4 bs p, b ∷ payload)
    unfolding read_datagram carry
    read_datagram4 size = ground (
      arith,
      W.r2_w2 0,
      W.r2_w2 p fits,
      take-append 4 bs (write_port W p ++ b ∷ payload) size,
      drop-append 4 bs (write_port W p ++ b ∷ payload) size,
      length-append bs (write_port W p ++ b ∷ payload),
    )

    read_datagram6 :
        length bs ≡ 16
        → read_datagram N W (write_port W 0 ++ 0 ∷ 4 ∷ bs ++ (write_port W p ++ b ∷ payload))
          ≡ some (make6 bs p, b ∷ payload)
    unfolding read_datagram carry
    read_datagram6 size = ground (
      arith,
      W.r2_w2 0,
      W.r2_w2 p fits,
      take-append 16 bs (write_port W p ++ b ∷ payload) size,
      drop-append 16 bs (write_port W p ++ b ∷ payload) size,
      length-append bs (write_port W p ++ b ∷ payload),
    )

  abbrev pub ReadBack : Address → Bytes → Option Bytes → Type 0
  ReadBack a payload none = ⊥
  ReadBack a payload (some packet) = read_datagram N W packet ≡ some (remade a, payload)

  write_address4 :
      (a : Address) → kind a ≡ is4 → write_address N W a ≡ 1 ∷ octets a ++ write_port W (port a)
  unfolding write_address
  write_address4 a four = rw (four, write_address) refl

  write_address6 :
      (a : Address) → kind a ≡ is6 → write_address N W a ≡ 4 ∷ octets a ++ write_port W (port a)
  unfolding write_address
  write_address6 a six = rw (six, write_address) refl

  remade4 : (a : Address) → kind a ≡ is4 → remade a ≡ make4 (octets a) (port a)
  remade4 a four = rw (four, remade) refl

  remade6 : (a : Address) → kind a ≡ is6 → remade a ≡ make6 (octets a) (port a)
  remade6 a six = rw (six, remade) refl

  -- A datagram that is written for a source of a known type, and is not empty, is read back as
  -- the octets and the port of that source, and the payload.
  pub write_datagram-ReadBack :
      (a : Address) (b : ℕ) (payload : Bytes)
      → Sized a
      → ReadBack a (b ∷ payload) (write_datagram N W a (b ∷ payload))
  unfolding write_datagram
  write_datagram-ReadBack a b payload (inl (four, size), fits) =
      rw
        (
          four,
          write_datagram,
          write_address4 a four,
          remade4 a four,
          append_assoc (octets a) (write_port W (port a)) (b ∷ payload),
        )
        (read_datagram4 (octets a) (port a) b payload fits size)
  write_datagram-ReadBack a b payload (inr (six, size), fits) =
      rw
        (
          six,
          write_datagram,
          write_address6 a six,
          remade6 a six,
          append_assoc (octets a) (write_port W (port a)) (b ∷ payload),
        )
        (read_datagram6 (octets a) (port a) b payload fits size)
