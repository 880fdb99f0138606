-- ===== src/DeviceEntry/Challenge.antt =====
-- From the address of a device over its key to its relay.
use pp.Prelude.{
  ℕ, ◌+◌, ◌<◌, ap, subst, ◌∙◌, ◌%◌, ◌≡◌, ◌≢◌, true, [], ◌∷◌, Option, none, some, arith, inl, inr,
  refl, sym, Bytes, length, Eq,
}
use pp.Xel.Hex.{Hex, AreBytes}
use pp.Xel.NodeList.{NodeList}
use pp.Xel.NetAddress.{NetAddress, unknown_address, is4}
use pp.AddressKey.{decrypt_address_key, on_get_address_key}
use pp.AddressKey.Roundtrip.{sizeof, on_get_address_key-decrypt, encrypts, key_bytes}
use pp.DeviceEntry.{
  Manager, DeviceChallenge, ChallengeResponse, accepted, refused, to_response,
  get_relay_server_by_device_ip, on_device_challenge,
}
use pp.DeviceEntry.Placement.{Placed, stands, has_type}
use pp.DeviceEntry.Choice.{Chosen, get_relay-Chosen}

module _ (A : NetAddress) ⦃e : Eq A.Address⦄ (index_of : ℕ → ℕ) (X : NodeList)
    (region : A.Address → Option ℕ) (H : Hex) where
  open A use {Address, kind, octets}

  abbrev State : Type 0
  State = Manager A index_of X

  -- A relay of the country is offered, by its address.
  abbrev pub Offers : State → ℕ → Option (State × Option (ChallengeResponse Address)) → Type 0
  Offers m c none = ⊥
  Offers m c (some (t, none)) = ⊥
  Offers m c (some (t, some (refused ban))) = ⊥
  Offers m c (some (t, some (accepted r))) =
      (i : ℕ) × (stands A index_of X region (m.full_relay_info_list i) c ≡ true)
      × (r ≡ (m.full_relay_info_list i).export_device_entry_address)

  accepts :
      (r : Address)
      → has_type A index_of X region (kind r) ≡ true
      → to_response A index_of X r ≡ accepted r
  accepts r h = ground (arith, h)

  offers :
      (m : State) (device : Address) (c i : ℕ)
      → region device ≡ some c
      → kind device ≡ is4
      → stands A index_of X region (m.full_relay_info_list i) c ≡ true
      → (o : Option (Address × State)) → Chosen A index_of X region m device o
      → Offers m c (elim o [
        | none ↦ none
        | some (relay, m') ↦ some (m', some (to_response A index_of X relay))
      ])
  offers m device c i here typed known none h = h
  offers m device c i here typed known (some (r, t)) (p, kept, inr (unknown, same, none_there)) =
      absurd (ground (arith, none_there c i here typed, known))
  offers m device c i here typed known (some (r, t))
        (p, kept, inl (d, j, rest, country, k, there, is_its, head, rotated)) =
      let its_kind : has_type A index_of X region (kind r) ≡ true = ground (arith, there, is_its) in
      let e : c ≡ d = ground (arith, here, country) in
      rw (accepts r its_kind) (j, rw e there, is_its)

  nonempty : (bs : Bytes) → 0 < length bs → (b : ℕ) × (rest : Bytes) × (bs ≡ b ∷ rest)
  nonempty [] h = absurd (omega (arith, h))
  nonempty (b ∷ rest) h = (b, rest, refl)

  -- A challenge whose first key is not empty.
  abbrev challenge_of : Bytes → Bytes → DeviceChallenge
  challenge_of key key6 = record { address_key4 = key; address_key6 = key6 }

  offered :
      (m : State) (c i b : ℕ) (rest key6 : Bytes)
      → Placed A index_of X region m
      → stands A index_of X region (m.full_relay_info_list i) c ≡ true
      → kind (decrypt_address_key A H (b ∷ rest)) ≡ is4
      → region (decrypt_address_key A H (b ∷ rest)) ≡ some c
      → Offers m c (on_device_challenge A index_of X H (some (challenge_of (b ∷ rest) key6)) m)
  unfolding on_device_challenge
  offered m c i b rest key6 v there typed here =
      let device = decrypt_address_key A H (b ∷ rest) in
      rw (typed, on_device_challenge)
        (offers m device c i here typed there (get_relay_server_by_device_ip A index_of X device m)
          (get_relay-Chosen A index_of X region m device v))

  -- A device with an IPv4 address that answers with the key it was given for its address, is offered
  -- a relay of its country by the relay's address, if one stands there.
  pub challenge-Offers :
      (m : State) (a : Address) (ec c i : ℕ) (key key6 : Bytes)
      → Placed A index_of X region m
      → kind a ≡ is4
      → length (octets a) ≡ 4
      → AreBytes (octets a)
      → on_get_address_key A H ec a ≡ some ((ec + 1) % 256, key)
      → region (decrypt_address_key A H key) ≡ some c
      → stands A index_of X region (m.full_relay_info_list i) c ≡ true
      → Offers m c (
          on_device_challenge A index_of X H
            (some (record { address_key4 = key; address_key6 = key6 }))
            m)
  challenge-Offers m a ec c i key key6 v typed size bytes given here there =
      let known : kind a ≢ unknown_address = λ h. ground (arith, typed, h) in
      let sized : length (octets a) ≡ sizeof (kind a) = ground (arith, typed, size) in
      let (key', gives, reads) = on_get_address_key-decrypt A H ec a known sized bytes in
      let same : key' ≡ key = ground (arith, gives, given) in
      let written : H.str_to_hex (key_bytes A H ec a) ≡ key =
        ground (arith, encrypts A H ec a known sized, given) in
      let (b, rest, whole) =
        nonempty key (omega (arith, ap length written, H.length-str_to_hex (key_bytes A H ec a))) in
      subst
        (λ k.
          kind (decrypt_address_key A H k) ≡ is4
          → region (decrypt_address_key A H k) ≡ some c
          → Offers m c (on_device_challenge A index_of X H (some (challenge_of k key6)) m))
        (sym whole) (offered m c i b rest key6 v there)
        (subst (λ k. kind (decrypt_address_key A H k) ≡ kind a) same reads.0 ∙ typed) here
