-- ===== src/DeviceEntry/Ipv6.antt =====
-- Devices with IPv6 addresses.
use pp.Prelude.{ℕ, ◌≡◌, List, Option, some, arith, Option-cases, inl, inr, refl, Eq}
use pp.Xel.NodeList.{NodeList}
use pp.Xel.NetAddress.{NetAddress, is6}
use pp.RelayInfo.{Observer}
use pp.DeviceEntry.{Manager, EntryEvent, no_base, run_entry, get_relay_server_by_device_ip}
use pp.DeviceEntry.Placement.{Placed}
use pp.DeviceEntry.Choice.{other_kind}
use pp.DeviceEntry.Follows.{Follows, run_entry-Follows}

module _ (A : NetAddress) ⦃e : Eq A.Address⦄ (index_of : ℕ → ℕ) (X : NodeList)
    (region : A.Address → Option ℕ) where
  open A use {Address, kind, unknown}

  -- No relay is known: the states that main starts with.
  abbrev pub no_entries : Manager A index_of X
  no_entries = record {
    full_relay_info_list = λ i. no_base A index_of X;
    relay_info_list_by_country = λ c. record { v4 = X.empty; v6 = X.empty };
    region_service = some region;
    invalid_relay_server_address = 0;
  }

  abbrev pub no_relays : ℕ → Observer Address index_of X
  no_relays now = record {
    now = now;
    relay_server_list = λ i. record {
      info = record {
        server_id = 0;
        export_device_entry_address = unknown;
        export_proxy_entry_address = unknown;
      };
      last_keep_alive_timestamp_ms = 0;
    };
    timeout_list = X.empty;
  }

  start-Follows : (now : ℕ) → Follows A index_of X region (no_relays now) no_entries
  start-Follows now = record {
    linked = record {
      linked = λ i. ground (arith, X.nodes-empty);
      placed = λ i h. ground (arith, h);
    };
    placed = record {
      service = refl;
      listed = λ i c. ground (arith, X.nodes-empty);
      no_v6 = λ c. X.nodes-empty;
    };
    same = λ i. refl;
  }

  never_given :
      (m : Manager A index_of X) (device : Address)
      → Placed A index_of X region m
      → kind device ≡ is6
      → get_relay_server_by_device_ip A index_of X device m ≡ some (unknown, m)
  unfolding get_relay_server_by_device_ip
  never_given m device v typed = elim (Option-cases (region device)) [
    | inl lost ↦ ground (arith, v.service, lost)
    | inr (c, here) ↦
        ground (arith, v.service, here, typed, other_kind A index_of X region m c is6 v (cc))
  ]

  -- Whatever relays the observer learns of from the start on, with addresses of any kind, in any
  -- order of packets and ticks: afterwards a device with an IPv6 address is given none of them.
  pub run_entry-ipv6 :
      (events : List (EntryEvent Address)) (now : ℕ) (device : Address)
      → kind device ≡ is6
      → (t : Observer Address index_of X × Manager A index_of X) × (run_entry A index_of X events
            (no_relays now, no_entries)
          ≡ some t)
        × (get_relay_server_by_device_ip A index_of X device t.1 ≡ some (unknown, t.1))
  run_entry-ipv6 events now device typed =
      let (t, runs, f) =
        run_entry-Follows A index_of X region events (no_relays now) no_entries
          (start-Follows now) in
      (t, runs, never_given t.1 device f.placed typed)
