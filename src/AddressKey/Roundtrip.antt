-- ===== src/AddressKey/Roundtrip.antt =====
-- The key that a device is given is read back as its address.
use Prim.Native.Nat.{bit_or, bit_xor}
use pp.Prelude.{
  ℕ, zero, suc, ◌+◌, ◌%◌, ◌<◌, ◌≡◌, refl, ap, Bool, true, ◌&&◌, [], ◌∷◌, some, arith, ◌==◌, ltb,
  Bytes, length, ◌≢◌, ◌⊎◌, inl, inr, false,
}
use pp.Xel.Hex.{Hex, AreBytes}
use pp.Xel.NetAddress.{NetAddress, Kind, unknown_address, is4, is6}
use pp.AddressKey.{
  address_key_buffer_size, chain, unchain, encrypt_address_key, decrypt_from, decrypt_address_key,
  on_get_address_key,
}

all_below : ℕ → (ℕ → Bool) → Bool
all_below zero p = true
all_below (suc n) p = p n && all_below n p

all_below_lem : (n : ℕ) (p : ℕ → Bool) (x : ℕ) → all_below n p ≡ true → x < n → p x ≡ true
unfolding all_below
all_below_lem zero p x h lt = absurd (omega arith)
all_below_lem (suc n) p x h lt = ground (arith, all_below_lem n p x)

abbrev undoes : ℕ → ℕ → Bool
undoes a b = bit_xor a (bit_xor a b) == b && ltb (bit_xor a b) 256

undoes_table : all_below 256 (λ a. all_below 256 (undoes a)) ≡ true
unfolding all_below
undoes_table = refl

xor_twice : (a b : ℕ) → a < 256 → b < 256 → (bit_xor a (bit_xor a b) ≡ b) × (bit_xor a b < 256)
xor_twice a b h k =
    let row : all_below 256 (undoes a) ≡ true =
      all_below_lem 256 (λ a. all_below 256 (undoes a)) a undoes_table h in
    ground (arith, all_below_lem 256 (undoes a) b row k)

first_table : all_below 256 (λ n. ltb (bit_or n 0x37) 256) ≡ true
unfolding all_below
first_table = refl

first_below : (n : ℕ) → n < 256 → bit_or n 0x37 < 256
first_below n h = ground (arith, all_below_lem 256 (λ n. ltb (bit_or n 0x37) 256) n first_table h)

unchain-chain : (ec : ℕ) (bs : Bytes) → ec < 256 → AreBytes bs → unchain ec (chain ec bs) ≡ bs
unfolding chain unchain
unchain-chain ec [] h v = refl
unchain-chain ec (b ∷ bs) h v =
    let (back, below) = xor_twice ec b h v.0 in
    rw (back, unchain-chain (bit_xor ec b) bs below v.1) refl

chain-AreBytes : (ec : ℕ) (bs : Bytes) → ec < 256 → AreBytes bs → AreBytes (chain ec bs)
unfolding chain
chain-AreBytes ec [] h v = tt
chain-AreBytes ec (b ∷ bs) h v =
    let below = (xor_twice ec b h v.0).1 in (below, chain-AreBytes (bit_xor ec b) bs below v.1)

length-chain : (ec : ℕ) (bs : Bytes) → length (chain ec bs) ≡ length bs
unfolding chain
length-chain ec [] = refl
length-chain ec (b ∷ bs) = ap suc (length-chain (bit_xor ec b) bs)

Kind-cases : (k : Kind) → (k ≡ unknown_address) ⊎ (k ≡ is4) ⊎ (k ≡ is6)
Kind-cases unknown_address = inl refl
Kind-cases is4 = inr (inl refl)
Kind-cases is6 = inr (inr refl)

abbrev pub sizeof : Kind → ℕ
sizeof unknown_address = 0
sizeof is4 = 4
sizeof is6 = 16

module _ (A : NetAddress) (H : Hex) where
  open A use {Address, kind, octets, port}

  -- The two addresses are the same but for the port, which is 0 in the second.
  abbrev pub SameIp : Address → Address → Type 0
  SameIp a b = (kind b ≡ kind a) × (octets b ≡ octets a) × (port b ≡ 0)

  abbrev pub Reads : Address → Bytes → Type 0
  Reads a key = SameIp a (decrypt_address_key A H key)

  chain_back :
      (first : ℕ) (a : Address)
      → first < 256
      → AreBytes (octets a)
      → kind a ≢ unknown_address
      → length (octets a) ≡ sizeof (kind a)
      → SameIp a (decrypt_from A (first ∷ chain first (octets a)))
  chain_back first a h v known size = elim (Kind-cases (kind a)) [
    | inl e ↦ absurd (known e)
    | inr (inl e) ↦
        let four : length (octets a) ≡ 4 = ground (arith, size, e) in
        rw (length-chain first (octets a), unchain-chain first (octets a) h v, four, e)
          (A.kind-make4 (octets a) 0, A.octets-make4 (octets a) 0, A.port-make4 (octets a) 0)
    | inr (inr e) ↦
        let sixteen : length (octets a) ≡ 16 = ground (arith, size, e) in
        rw (length-chain first (octets a), unchain-chain first (octets a) h v, sixteen, e)
          (A.kind-make6 (octets a) 0, A.octets-make6 (octets a) 0, A.port-make6 (octets a) 0)
  ]

  abbrev pub key_bytes : ℕ → Address → Bytes
  key_bytes ec a = bit_or ((ec + 1) % 256) 0x37 ∷ chain (bit_or ((ec + 1) % 256) 0x37) (octets a)

  pub encrypts :
      (ec : ℕ) (a : Address)
      → kind a ≢ unknown_address
      → length (octets a) ≡ sizeof (kind a)
      → on_get_address_key A H ec a ≡ some ((ec + 1) % 256, H.str_to_hex (key_bytes ec a))
  unfolding on_get_address_key encrypt_address_key
  encrypts ec a known size = elim (Kind-cases (kind a)) [
    | inl e ↦ absurd (known e)
    | inr (inl e) ↦
        let four : ltb address_key_buffer_size (length (octets a) + 1) ≡ false =
          ground (arith, size, e) in
        ground (arith, A.port-ip a, A.kind-ip a, A.octets-ip a, e, four)
    | inr (inr e) ↦
        let sixteen : ltb address_key_buffer_size (length (octets a) + 1) ≡ false =
          ground (arith, size, e) in
        ground (arith, A.port-ip a, A.kind-ip a, A.octets-ip a, e, sixteen)
  ]

  -- Every address of a known type, with as many octets as the type has, is given a key, and the key
  -- is read back as the address.
  pub on_get_address_key-decrypt :
      (ec : ℕ) (a : Address)
      → kind a ≢ unknown_address
      → length (octets a) ≡ sizeof (kind a)
      → AreBytes (octets a)
      → (key : Bytes) × (on_get_address_key A H ec a ≡ some ((ec + 1) % 256, key)) × Reads a key
  unfolding decrypt_address_key
  on_get_address_key-decrypt ec a known size v =
      let first : bit_or ((ec + 1) % 256) 0x37 < 256 = first_below ((ec + 1) % 256) (omega arith) in
      (
        H.str_to_hex (key_bytes ec a),
        encrypts ec a known size,
        rw
            (H.hex_to_str-str_to_hex (key_bytes ec a)
              (first, chain-AreBytes (bit_or ((ec + 1) % 256) 0x37) (octets a) first v))
            (chain_back (bit_or ((ec + 1) % 256) 0x37) a first v known size),
      )
