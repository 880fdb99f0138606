-- ===== src/AddressKey/Tests.antt =====
-- The key of an address on a concrete input.
use pp.Prelude.{◌≡◌, ◌%◌, ◌+◌, refl, arith, [], ◌∷◌, some, Bytes}
use pp.Xel.NetAddress.{is4}
use pp.Xel.Instances.{PlainAddress, plain_address, plain_hex}
use pp.AddressKey.{on_get_address_key}
use pp.AddressKey.Roundtrip.{Reads, on_get_address_key-decrypt}

abbrev home : PlainAddress
home = record { kind = is4; octets = 192 ∷ 0 ∷ 2 ∷ 7 ∷ []; port = 5000 }

home_key_example :
    (key : Bytes) × (on_get_address_key plain_address plain_hex 4 home ≡ some ((4 + 1) % 256, key))
    × Reads plain_address plain_hex home key
home_key_example = on_get_address_key-decrypt plain_address plain_hex 4 home (cc) refl (omega arith)
