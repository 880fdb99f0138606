-- ===== src/DeviceEntry/Tests.antt =====
-- The device entry on concrete inputs.
use pp.Prelude.{ℕ, ◌≡◌, refl, arith, [], ◌∷◌, List, Option, some, ◌==◌, if◌then◌else◌, low32, Bytes}
use pp.Xel.NetAddress.{is4, is6}
use pp.Xel.Instances.{PlainAddress, plain_address, plain_address-eq, plain_hex, plain_list}
use pp.AddressKey.{on_get_address_key}
use pp.RelayInfo.{LocalRelayInfo, heartbeat_broadcast, heartbeat_lost, Observer}
use pp.DeviceEntry.{
  Manager, EntryEvent, relay_packet, entry_tick, run_entry, no_base, get_relay_server_by_device_ip,
  on_device_challenge,
}
use pp.DeviceEntry.Placement.{Placed}
use pp.DeviceEntry.Follows.{Follows, run_entry-Follows}
use pp.DeviceEntry.Choice.{Chosen, get_relay-Chosen}
use pp.DeviceEntry.Ipv6.{no_entries, no_relays, run_entry-ipv6}
use pp.DeviceEntry.Challenge.{Offers, challenge-Offers}

abbrev entry_address : PlainAddress
entry_address = record { kind = is4; octets = 198 ∷ 51 ∷ 100 ∷ 1 ∷ []; port = 7000 }

abbrev device : PlainAddress
device = record { kind = is4; octets = 192 ∷ 0 ∷ 2 ∷ 7 ∷ []; port = 0 }

abbrev device6 : PlainAddress
device6 = record { kind = is6; octets = 32 ∷ 1 ∷ []; port = 0 }

abbrev one_country : PlainAddress → Option ℕ
one_country a = some 44

abbrev start : Manager plain_address low32 plain_list
start = record {
  full_relay_info_list = λ i. no_base plain_address low32 plain_list;
  relay_info_list_by_country = λ c. record { v4 = []; v6 = [] };
  region_service = some one_country;
  invalid_relay_server_address = 0;
}

start-Follows :
    Follows plain_address low32 plain_list one_country
      (no_relays plain_address low32 plain_list one_country 1)
      start
start-Follows = record {
  linked = record { linked = λ i. ground arith; placed = λ i h. ground (arith, h) };
  placed = record { service = refl; listed = λ i c. ground arith; no_v6 = λ c. refl };
  same = λ i. refl;
}

abbrev relay_three : LocalRelayInfo PlainAddress
relay_three = record {
  server_id = 3;
  export_device_entry_address = entry_address;
  export_proxy_entry_address = entry_address;
}

abbrev some_events : List (EntryEvent PlainAddress)
some_events =
    relay_packet (heartbeat_broadcast (some relay_three))
    ∷ entry_tick 5
    ∷ relay_packet (heartbeat_lost (some 4))
    ∷ []

run_of_events_example :
    (t : Observer PlainAddress low32 plain_list × Manager plain_address low32 plain_list)
    × (run_entry plain_address low32 plain_list some_events
          (no_relays plain_address low32 plain_list one_country 1, start)
        ≡ some t)
    × Follows plain_address low32 plain_list one_country t.0 t.1
run_of_events_example =
    run_entry-Follows plain_address low32 plain_list one_country some_events
      (no_relays plain_address low32 plain_list one_country 1) start start-Follows

abbrev one_relay : Manager plain_address low32 plain_list
one_relay = record start {
  full_relay_info_list = λ i.
      if 3 == i
      then record { server_id = 3; export_device_entry_address = entry_address }
      else no_base plain_address low32 plain_list;
  relay_info_list_by_country = λ c. record { v4 = if 44 == c then 3 ∷ [] else []; v6 = [] };
}

one_relay-Placed : Placed plain_address low32 plain_list one_country one_relay
one_relay-Placed = record { service = refl; listed = λ i c. ground arith; no_v6 = λ c. refl }

relay_of_country_example :
    Chosen plain_address low32 plain_list one_country one_relay device
      (get_relay_server_by_device_ip plain_address low32 plain_list device one_relay)
relay_of_country_example =
    get_relay-Chosen plain_address low32 plain_list one_country one_relay device one_relay-Placed

-- A relay with an IPv6 address, in the country of the device.
abbrev relay_six : LocalRelayInfo PlainAddress
relay_six = record relay_three { export_device_entry_address = record device6 { port = 7000 } }

refused_ipv6_example :
    (t : Observer PlainAddress low32 plain_list × Manager plain_address low32 plain_list)
    × (run_entry plain_address low32 plain_list
          (relay_packet (heartbeat_broadcast (some relay_six)) ∷ [])
          (
            no_relays plain_address low32 plain_list one_country 1,
            no_entries plain_address low32 plain_list one_country,
          )
        ≡ some t)
    × (get_relay_server_by_device_ip plain_address low32 plain_list device6 t.1
        ≡ some (plain_address.unknown, t.1))
refused_ipv6_example =
    run_entry-ipv6 plain_address low32 plain_list one_country
      (relay_packet (heartbeat_broadcast (some relay_six)) ∷ []) 1 device6 refl

abbrev device_key : Bytes
device_key = 3 ∷ 7 ∷ 15 ∷ 7 ∷ 15 ∷ 7 ∷ 15 ∷ 5 ∷ 15 ∷ 2 ∷ []

key_runs : on_get_address_key plain_address plain_hex 4 device ≡ some (5, device_key)
unfolding on_get_address_key
key_runs = refl

challenged_device_example :
    Offers plain_address low32 plain_list one_country plain_hex one_relay 44 (
      on_device_challenge plain_address low32 plain_list plain_hex
        (some (record { address_key4 = device_key; address_key6 = [] }))
        one_relay)
challenged_device_example =
    challenge-Offers plain_address low32 plain_list one_country plain_hex one_relay device 4 44 3
      device_key [] one_relay-Placed refl refl (omega arith) key_runs refl (ground arith)
