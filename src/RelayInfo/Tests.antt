-- ===== src/RelayInfo/Tests.antt =====
-- The relay information on concrete inputs.
use pp.Prelude.{ℕ, ◌≡◌, refl, arith, true, [], ◌∷◌, some, ◌==◌, if◌then◌else◌, ℕ-eq, low32}
use pp.Xel.Instances.{plain_list}
use pp.RelayInfo.{
  LocalRelayInfo, RelayNode, heartbeat_broadcast, heartbeat_lost, Observer, on_relay_packet,
  on_broadcast, on_lost, tick_relays,
}
use pp.RelayInfo.Linked.{Linked, Holds, on_relay_packet-Linked}
use pp.RelayInfo.Recorded.{Recorded, on_broadcast-Recorded}
use pp.RelayInfo.Expiry.{Expired, tick_relays-Dropped}

abbrev no_relay : RelayNode ℕ
no_relay = record {
  info = record { server_id = 0; export_device_entry_address = 0; export_proxy_entry_address = 0 };
  last_keep_alive_timestamp_ms = 0;
}

abbrev third_relay : LocalRelayInfo ℕ
third_relay = record {
  server_id = 3;
  export_device_entry_address = 7;
  export_proxy_entry_address = 8;
}

abbrev moved_relay : LocalRelayInfo ℕ
moved_relay = record third_relay { export_proxy_entry_address = 9 }

abbrev third_node : RelayNode ℕ
third_node = record { info = third_relay; last_keep_alive_timestamp_ms = 10 }

abbrev one_relay : Observer ℕ low32 plain_list
one_relay = record {
  now = 20;
  relay_server_list = λ i. if 3 == i then third_node else no_relay;
  timeout_list = 3 ∷ [];
}

one_relay-Linked : Linked ℕ low32 plain_list one_relay
one_relay-Linked = record { linked = λ i. ground arith; placed = λ i h. ground (arith, h) }

moved_relay_example :
    Holds ℕ low32 plain_list
      (on_relay_packet ℕ low32 plain_list (heartbeat_broadcast (some moved_relay)) one_relay).1
moved_relay_example =
    on_relay_packet-Linked ℕ low32 plain_list (heartbeat_broadcast (some moved_relay)) one_relay
      one_relay-Linked

lost_relay : (on_relay_packet ℕ low32 plain_list (heartbeat_lost (some 3)) one_relay).0 ≡ true
unfolding on_relay_packet on_lost
lost_relay = refl

silent_relay_example :
    Expired ℕ low32 plain_list 400_000 one_relay (tick_relays ℕ low32 plain_list 400_000 one_relay)
silent_relay_example =
    tick_relays-Dropped ℕ low32 plain_list 400_000 one_relay (omega arith) (omega arith)
      one_relay-Linked

moved_address_example :
    Recorded ℕ low32 plain_list moved_relay one_relay
      (on_broadcast ℕ low32 plain_list moved_relay one_relay)
moved_address_example =
    on_broadcast-Recorded ℕ low32 plain_list moved_relay one_relay one_relay-Linked refl
      (omega arith)
