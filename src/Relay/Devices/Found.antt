-- ===== src/Relay/Devices/Found.antt =====
-- A device is found by its export address, and only by it.
use pp.Prelude.{
  ℕ, zero, suc, ◌^◌, ◌-◌, ◌<◌, ◌≡◌, ◌≢◌, ◌⊎◌, true, false, List, [], ◌∷◌, ◌++◌, Option, none, some,
  leb, if◌then◌else◌, Eq, length, length-append, get_elem?, get_elem-append, get_elem-append_last,
  low32, make64, high32-make64, low32-make64, Option-cases, Bool-cases, inl, inr, refl, arith, sym,
  subst, ◌∙◌,
}
use pp.Relay.Devices.{
  BindingOption, Device, device_id_high32_magic, make_local_device_id, get_device, find_device_id,
  create_devices, create_local_device_list, acquire_device, selects_static_export_address,
}

get_elem-snoc :
    {A : Type 0} (xs : List A) (y z : A) (i : ℕ)
    → get_elem? (xs ++ (y ∷ [])) i ≡ some z
    → (get_elem? xs i ≡ some z) ⊎ (y ≡ z)
get_elem-snoc [] y z zero h = inr cc
get_elem-snoc [] y z (suc i) h = cc
get_elem-snoc (x ∷ xs) y z zero h = inl h
get_elem-snoc (x ∷ xs) y z (suc i) h = get_elem-snoc xs y z i h

module _ {Address : Type 0} ⦃e : Eq Address⦄ where
  -- What the map has for an address is the identifier of a device with that address, and every
  -- device is in the map.
  pub record Agree (devices : List (Device Address)) (m : List (Address × ℕ)) : Type 0 where
    pub sound :
        (a : Address) (id : ℕ)
        → find_device_id a m ≡ some id
        → (d : Device Address) × (get_device id devices ≡ some d)
          × (d.export_address ≡ a)
          × (d.device_id ≡ id)
    pub complete :
        (i : ℕ) (d : Device Address)
        → get_elem? devices i ≡ some d
        → find_device_id d.export_address m ≡ some d.device_id

  get_device-append :
      (id : ℕ) (devices : List (Device Address)) (d new : Device Address)
      → get_device id devices ≡ some d
      → get_device id (devices ++ (new ∷ [])) ≡ some d
  unfolding get_device
  get_device-append id devices d new h = elim (Bool-cases (leb (length devices) (low32 id))) [
    | inl out ↦ ground (arith, h, out)
    | inr inside ↦ ground (
      arith,
      h,
      inside,
      get_elem-append devices (new ∷ []) (low32 id) (ground (arith, inside)),
      length-append devices (new ∷ []),
    )
  ]

  get_device-last :
      (devices : List (Device Address)) (new : Device Address)
      → length devices < 2 ^ 32 - 1
      → get_device (make64 device_id_high32_magic (length devices)) (devices ++ (new ∷ []))
        ≡ some new
  unfolding get_device
  get_device-last devices new h =
      rw
        (
          high32-make64 device_id_high32_magic (length devices) (omega arith) (omega (arith, h)),
          get_device,
          low32-make64 device_id_high32_magic (length devices) (omega arith) (omega (arith, h)),
        )
        (ground (arith, length-append devices (new ∷ []), get_elem-append_last devices new))

  find-cons :
      (a k : Address) (id : ℕ) (m : List (Address × ℕ))
      → find_device_id a ((k, id) ∷ m) ≡ (if e.beq k a then some id else find_device_id a m)
  unfolding find_device_id
  find-cons a k id m = refl

  module _ (o : BindingOption Address) (id : ℕ) (devices : List (Device Address))
      (m : List (Address × ℕ)) (v : Agree devices m)
      (made : make_local_device_id (length devices) ≡ some id)
      (fresh : find_device_id o.export_address m ≡ none) where
    abbrev new : Device Address
    new = record { device_id = id; option = o }

    made-id : (id ≡ make64 device_id_high32_magic (length devices)) × (length devices < 2 ^ 32 - 1)
    unfolding make_local_device_id
    made-id = ground (arith, made)

    same_id :
        (a : Address) (j : ℕ)
        → e.beq o.export_address a ≡ true
        → find_device_id a ((o.export_address, id) ∷ m) ≡ some j
        → id ≡ j
    same_id a j same h = ground (arith, h, same, find-cons a o.export_address id m)

    other_address :
        (d : Device Address)
        → find_device_id d.export_address m ≡ some d.device_id
        → e.beq o.export_address d.export_address ≡ false
    other_address d h = elim (Bool-cases (e.beq o.export_address d.export_address)) [
      | inr other ↦ other
      | inl same ↦ absurd (
          ground (
            arith,
            h,
            subst (λ a. find_device_id a m ≡ none)
                ((e.beq_iff o.export_address d.export_address).0 same) fresh,
          ))
    ]

    added-Agree : Agree (devices ++ (new ∷ [])) ((o.export_address, id) ∷ m)
    added-Agree = record {
      sound = λ a j h. elim (Bool-cases (e.beq o.export_address a)) [
        | inl same ↦ (
          new,
          subst (λ k. get_device k (devices ++ (new ∷ [])) ≡ some new)
              (sym made-id.0 ∙ same_id a j same h) (get_device-last devices new made-id.1),
          (e.beq_iff o.export_address a).0 same,
          same_id a j same h,
        )
        | inr other ↦
            let r = v.sound a j (ground (arith, h, other, find-cons a o.export_address id m)) in
            (r.0, get_device-append j devices r.0 new r.1, r.2, r.3)
      ];
      complete = λ i d h. elim (get_elem-snoc devices new d i h) [
        | inl old ↦ ground (
          arith,
          v.complete i d old,
          other_address d (v.complete i d old),
          find-cons d.export_address o.export_address id m,
        )
        | inr last ↦
            subst
              (λ x. find_device_id x.export_address ((o.export_address, id) ∷ m) ≡ some x.device_id)
              last
              (ground (
                arith,
                (e.beq_iff o.export_address o.export_address).1 refl,
                find-cons o.export_address o.export_address id m,
              ))
      ];
    }

  -- The list and the map that are created agree.
  abbrev pub Created : Option (List (Device Address) × List (Address × ℕ)) → Type 0
  Created none = Unit {0}
  Created (some (devices, m)) = Agree devices m

  create_devices-Created :
      (options : List (BindingOption Address)) (devices : List (Device Address))
      (m : List (Address × ℕ))
      → Agree devices m
      → Created (create_devices options devices m)
  unfolding create_devices
  create_devices-Created [] devices m v = v
  create_devices-Created (o ∷ options) devices m v =
      elim (Option-cases (make_local_device_id (length devices))) [
        | inl full ↦ rw (full, create_devices) tt
        | inr (id, made) ↦ elim (Option-cases (find_device_id o.export_address m)) [
          | inr (old, used) ↦ rw (made, create_devices, used) tt
          | inl fresh ↦
              rw (made, create_devices, fresh)
                (create_devices-Created options _ _ (added-Agree o id devices m v made fresh))
        ]
      ]

  -- The device list that the service starts with agrees with its map: the identifier that the map
  -- has for an export address is that of the device with this address, by GetDevice, and the map
  -- has every device.
  pub create-Created :
      (options : List (BindingOption Address)) → Created (create_local_device_list options)
  unfolding create_local_device_list
  create-Created options =
      create_devices-Created options [] []
        (record { sound = λ a id h. absurd (nothing a id h); complete = λ i d h. cc })
    where
      nothing : (a : Address) (id : ℕ) → find_device_id a [] ≡ some id → ⊥
      nothing a id h = cc

  -- What AcquireDevice answers, with the device that GetDevice then finds: it has the address that
  -- was asked for. Without an answer, the strategy was another or no device has the address.
  abbrev pub Answered : ℕ → Address → List (Device Address) → Option (ℕ × ℕ) → Type 0
  Answered strategy a devices none =
      (selects_static_export_address strategy ≡ false)
      ⊎ ((i : ℕ) (d : Device Address) → get_elem? devices i ≡ some d → d.export_address ≢ a)
  Answered strategy a devices (some (server, id)) =
      (server ≡ 0)
      × ((d : Device Address) × (get_device id devices ≡ some d)
          × (d.export_address ≡ a)
          × (d.device_id ≡ id))

  -- With a list and a map that agree, AcquireDevice finds the device with an export address if
  -- there is one and the strategy asks for it, and no other.
  pub acquire_device-Answered :
      (strategy : ℕ) (a : Address) (devices : List (Device Address)) (m : List (Address × ℕ))
      → Agree devices m
      → Answered strategy a devices (acquire_device strategy a m)
  unfolding acquire_device
  acquire_device-Answered strategy a devices m v =
      elim (Bool-cases (selects_static_export_address strategy)) [
        | inr other ↦ rw (other, acquire_device) (inl other)
        | inl static ↦ elim (Option-cases (find_device_id a m)) [
          | inl missing ↦
              rw (static, acquire_device, missing)
                (inr (λ i d h same. absurd (clash i d missing h same)))
          | inr (id, found) ↦ rw (static, acquire_device, found) (refl, v.sound a id found)
        ]
      ]
    where
      clash :
          (i : ℕ) (d : Device Address)
          → find_device_id a m ≡ none
          → get_elem? devices i ≡ some d
          → d.export_address ≡ a
          → ⊥
      clash i d missing h same = ground (
        arith,
        missing,
        subst (λ x. find_device_id x m ≡ some d.device_id) same (v.complete i d h),
      )
