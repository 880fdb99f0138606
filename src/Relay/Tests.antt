-- ===== src/Relay/Tests.antt =====
-- The local devices on concrete inputs.
use pp.Prelude.{ℕ, ◌≡◌, refl, subst, arith, true, false, List, [], ◌∷◌, some, none, ℕ-eq, make64}
use pp.Xel.Storage.{Storage}
use pp.Xel.Instances.{counting_storage, plain_list, no_counted, plain_address}
use pp.Relay.Connections.{Connection, Connections, create_relay_connection, destroy_relayed}
use pp.Relay.Connections.Marks.{Marks}
use pp.Relay.Connections.Resolved.{DnsFuture, tick_connections}
use pp.Relay.Connections.Ticking.{Cleaned, tick_connections-Cleaned}
use pp.Relay.Connections.Steps.{Reachable, start, next, creates, destroys, reachable-Marks}
use pp.Relay.Devices.{
  BindingOption, Device, device_id_high32_magic, create_local_device_list, create_devices,
  make_local_device_id, acquire_device, get_device, find_device_id,
}
use pp.Relay.Devices.Found.{Agree, Created, create-Created, Answered, acquire_device-Answered}

-- Two addresses of the machine.
abbrev two_options : List (BindingOption ℕ)
two_options =
    (record { bind_address = 1; export_address = 11; enable_tcp = true; enable_udp = false })
    ∷ (record { bind_address = 2; export_address = 12; enable_tcp = true; enable_udp = true })
    ∷ []

two_options_example : Created (create_local_device_list two_options)
two_options_example = create-Created two_options

abbrev two_devices : List (Device ℕ)
two_devices =
    (record {
      device_id = make64 device_id_high32_magic 0;
      option = record {
        bind_address = 1;
        export_address = 11;
        enable_tcp = true;
        enable_udp = false;
      };
    })
    ∷ (record {
      device_id = make64 device_id_high32_magic 1;
      option = record {
        bind_address = 2;
        export_address = 12;
        enable_tcp = true;
        enable_udp = true;
      };
    })
    ∷ []

abbrev two_ids : List (ℕ × ℕ)
two_ids = (12, make64 device_id_high32_magic 1) ∷ (11, make64 device_id_high32_magic 0) ∷ []

two_options_create : create_local_device_list two_options ≡ some (two_devices, two_ids)
unfolding create_local_device_list create_devices make_local_device_id find_device_id
two_options_create = refl

two_devices-Agree : Agree two_devices two_ids
two_devices-Agree = subst Created two_options_create (create-Created two_options)

second_device_example : Answered 64 12 two_devices (acquire_device 64 12 two_ids)
second_device_example = acquire_device-Answered 64 12 two_devices two_ids two_devices-Agree

abbrev new_connection : Connection
new_connection = record {
  connection_id = 0;
  proxy_side_connection_id = 0;
  create_connection_future_handle = 0;
  delete_mark = false;
  timestamp_ms = 0;
}

abbrev connections : Storage Connection
connections = counting_storage Connection new_connection

abbrev no_connections : Connections connections plain_list
no_connections = record { now = 0; pool = no_counted; idle = []; kill = []; connection_count = 0 }

-- A connection is created and destroyed.
abbrev created : Connections connections plain_list
created = (create_relay_connection connections plain_list true 5 0 no_connections).0

abbrev destroyed : Connections connections plain_list
destroyed = (destroy_relayed connections plain_list (λ f. true) 1 created).0

none_used : (i : ℕ) → connections.check_and_get no_connections.pool i ≡ none
none_used i = ground arith

-- A device with an IPv4 address.
abbrev one_device : List (Device plain_address.Address)
one_device =
    record {
      device_id = make64 device_id_high32_magic 0;
      option = record {
        bind_address = plain_address.make4 (10 ∷ 0 ∷ 0 ∷ 1 ∷ []) 0;
        export_address = plain_address.make4 (1 ∷ 2 ∷ 3 ∷ 4 ∷ []) 0;
        enable_tcp = true;
        enable_udp = false;
      };
    }
    ∷ []

abbrev one_result : DnsFuture plain_address.Address
one_result = record {
  relay_side_device_id = make64 device_id_high32_magic 0;
  proxy_side_connection_id = 5;
  create_connection_future_handle = 9;
  target_port = 443;
  result =
      some (record { a4 = plain_address.make4 (8 ∷ 8 ∷ 8 ∷ 8 ∷ []) 0; a6 = plain_address.unknown });
}

abbrev reached : Reachable plain_address one_device connections plain_list destroyed
reached =
    next (next (start no_connections none_used refl refl) (creates true 5 0))
      (destroys (λ f. true) 1)

short_life_example : Marks connections plain_list destroyed
short_life_example =
    reachable-Marks plain_address one_device connections plain_list destroyed reached

end_of_connection_example :
    Cleaned plain_address one_device connections plain_list
      (λ f. true)
      ((one_result, true) ∷ [])
      200_000
      destroyed
      (tick_connections plain_address one_device connections plain_list
        (λ f. true)
        ((one_result, true) ∷ [])
        200_000
        destroyed)
end_of_connection_example =
    tick_connections-Cleaned plain_address one_device connections plain_list (λ f. true)
      ((one_result, true) ∷ []) 200_000 destroyed
      (reachable-Marks plain_address one_device connections plain_list destroyed reached)
      (omega arith, tt) (omega arith) (omega arith)

-- The result has opened a connection.
opens_one :
    ◌≡◌ {A = ℕ}
      (elim (tick_connections plain_address one_device connections plain_list
        (λ f. true)
        ((one_result, true) ∷ [])
        200_000
        destroyed) [ none ↦ 0 | some t ↦ t.connection_count ])
      1
unfolding tick_connections get_device create_relay_connection destroy_relayed
opens_one = refl
