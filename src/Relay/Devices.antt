-- ===== src/Relay/Devices.antt =====
-- The local devices, their identifiers and how they are found: CreateLocalDeviceList, GetDevice,
-- AcquireDevice and FindDeviceByExportAddress of ppp/lib_component/relay_local_device_service.cpp.
pub mod Found
use pp.Prelude.{
  ℕ, suc, ◌+◌, ◌^◌, ◌-◌, ◌/◌, ◌%◌, Bool, true, false, List, [], ◌∷◌, ◌++◌, Option, none, some, ◌==◌,
  ltb, leb, if◌then◌else◌, Eq, length, get_elem?, high32, low32, make64,
}

abbrev pub device_id_high32_magic : ℕ
device_id_high32_magic = 0xCDEF_7788

-- DSS_STATIC_EXPORT_ADDRESS is the bit 6.
abbrev pub selects_static_export_address : ℕ → Bool
selects_static_export_address strategy = strategy / 2 ^ 6 % 2 == 1

-- `xRelayLocalBindingOption`
pub record BindingOption (Address : Type 0) : Type 0 where
  pub bind_address : Address
  pub export_address : Address
  pub enable_tcp : Bool
  pub enable_udp : Bool

-- `xRelayLocalDevice`
pub record Device (Address : Type 0) : Type 0 where
  pub device_id : ℕ
  pub option : BindingOption Address
  pub open option use *

-- MakeLocalDeviceId; `none` is the failure of its assertion.
unfoldable pub make_local_device_id : ℕ → Option ℕ
make_local_device_id index =
    if ltb index (2 ^ 32 - 1) then some (make64 device_id_high32_magic index) else none

-- GetDevice
unfoldable pub get_device : {Address : Type 0} → ℕ → List (Device Address) → Option (Device Address)
get_device id devices =
    if high32 id == device_id_high32_magic
    then (if leb (length devices) (low32 id) then none else get_elem? devices (low32 id))
    else none

module _ {Address : Type 0} ⦃e : Eq Address⦄ where
  -- LocalDeviceExportAddressMap.find
  unfoldable pub find_device_id : Address → List (Address × ℕ) → Option ℕ
  find_device_id a [] = none
  find_device_id a ((k, id) ∷ m) = if e.beq k a then some id else find_device_id a m

  -- The loop of CreateLocalDeviceList: the devices in order and the map; `none` is the failure of
  -- an assertion, where there are too many devices or two have the same export address.
  unfoldable pub create_devices :
      List (BindingOption Address)
      → List (Device Address)
      → List (Address × ℕ)
      → Option (List (Device Address) × List (Address × ℕ))
  unfolding make_local_device_id find_device_id
  create_devices [] devices m = some (devices, m)
  create_devices (o ∷ options) devices m = elim (make_local_device_id (length devices)) [
    | none ↦ none
    | some id ↦ elim (find_device_id o.export_address m) [
      | none ↦
          create_devices options (devices ++ (record { device_id = id; option = o } ∷ []))
            ((o.export_address, id) ∷ m)
      | some old ↦ none
    ]
  ]

  unfoldable pub create_local_device_list :
      List (BindingOption Address) → Option (List (Device Address) × List (Address × ℕ))
  unfolding create_devices
  create_local_device_list options = create_devices options [] []

  -- AcquireDevice: the relay server, always 0, and the device.
  unfoldable pub acquire_device : (strategy : ℕ) → Address → List (Address × ℕ) → Option (ℕ × ℕ)
  unfolding find_device_id
  acquire_device strategy export_address m =
      if selects_static_export_address strategy
      then elim (find_device_id export_address m) [ none ↦ none | some id ↦ some (0, id) ]
      else none

  -- FindDeviceByExportAddress, whose index is read without a check of its bound.
  unfoldable pub find_device_by_export_address :
      Address → List (Device Address) → List (Address × ℕ) → Option (Device Address)
  unfolding find_device_id
  find_device_by_export_address a devices m = elim (find_device_id a m) [
    | none ↦ none
    | some id ↦ get_elem? devices (low32 id)
  ]
