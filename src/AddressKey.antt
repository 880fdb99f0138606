-- ===== src/AddressKey.antt =====
-- The key that stands for the address of a device:
-- ppp/lib_component/address_challenge/address_challenge.cpp.
pub mod Roundtrip
mod Tests
use Prim.Native.Nat.{bit_or, bit_xor}
use pp.Prelude.{
  ℕ, ◌+◌, ◌%◌, ◌<◌, Bool, true, false, not, ◌||◌, [], ◌∷◌, Option, none, some, ◌==◌, ltb,
  if◌then◌else◌, Bytes, length,
}
use pp.Xel.Hex.{Hex}
use pp.Xel.NetAddress.{NetAddress, Kind, unknown_address, is4, is6}

abbrev pub address_key_buffer_size : ℕ
address_key_buffer_size = 32

-- Each byte is written as the last byte written, xor the byte.
unfoldable pub chain : ℕ → Bytes → Bytes
chain ec [] = []
chain ec (b ∷ bs) = bit_xor ec b ∷ chain (bit_xor ec b) bs

-- Each byte is the last byte read, xor the byte read.
unfoldable pub unchain : ℕ → Bytes → Bytes
unchain ec [] = []
unchain ec (b ∷ bs) = bit_xor ec b ∷ unchain b bs

module _ (A : NetAddress) where
  open A use {Address, kind, octets, port}

  -- What the branch for one type of address writes to a buffer.
  abbrev pub key_of : (buffer_size first : ℕ) → Bytes → Bytes
  key_of buffer_size first sa =
      if ltb buffer_size (length sa + 1) then [] else first ∷ chain first sa

  -- EncryptAddressKey: the static EC afterwards, and the key; `none` for a failed assertion.
  unfoldable pub encrypt_address_key : (buffer_size ec : ℕ) → Address → Option (ℕ × Bytes)
  unfolding chain
  encrypt_address_key buffer_size ec a =
      let next : ℕ = (ec + 1) % 256 in
      if port a == 0
      then elim (kind a) [
        | unknown_address ↦ none
        | is4 ↦ some (next, key_of buffer_size (bit_or next 0x37) (octets a))
        | is6 ↦ some (next, key_of buffer_size (bit_or next 0x37) (octets a))
      ]
      else none

  -- The size of a key is that of the bytes of an address and one more.
  abbrev pub decrypt_from : Bytes → Address
  decrypt_from [] = A.unknown
  decrypt_from (first ∷ rest) =
      if length rest == 4
      then A.make4 (unchain first rest) 0
      else if length rest == 16
      then A.make6 (unchain first rest) 0
      else A.unknown

  module _ (H : Hex) where
    unfoldable pub decrypt_address_key : Bytes → Address
    unfolding unchain
    decrypt_address_key view = decrypt_from (H.hex_to_str view)

    -- OnUdpPacket with the command Cmd_DV_CC_GetAddressKey, where the request has been read:
    -- EC afterwards, and the key in the answer.
    unfoldable pub on_get_address_key : (ec : ℕ) (remote : Address) → Option (ℕ × Bytes)
    unfolding encrypt_address_key
    on_get_address_key ec remote =
        elim (encrypt_address_key address_key_buffer_size ec (A.ip remote)) [
          | none ↦ none
          | some (ec', key) ↦ some (ec', H.str_to_hex key)
        ]
