-- ===== src/DeviceEntry/Placement.antt =====
-- The lists of the countries hold the relays that the region service places there.
use pp.Prelude.{
  ℕ, ◌≡◌, Bool, true, false, not, ◌&&◌, [], Option, none, some, arith, ◌==◌, if◌then◌else◌,
  Option-cases, inl, inr, refl, Eq,
}
use pp.Xel.NodeList.{NodeList}
use pp.Xel.NetAddress.{NetAddress, Kind, unknown_address, is4, is6}
use pp.Auth.References.{bit, occurrences}
use pp.Auth.References.Pool.{occurrences-append}
use pp.RequestMap.Counts.{occurrences-without}
use pp.DeviceEntry.{RelayBase, Manager, no_base, reset_node, link_relay, place_relay}

module _ (A : NetAddress) ⦃e : Eq A.Address⦄ (index_of : ℕ → ℕ) (X : NodeList)
    (region : A.Address → Option ℕ) where
  open A use {Address, kind}
  open X use {nodes}

  abbrev State : Type 0
  State = Manager A index_of X

  abbrev pub has_type : Kind → Bool
  has_type unknown_address = false
  has_type is4 = true
  has_type is6 = true

  abbrev pub in_country : Option ℕ → ℕ → Bool
  in_country none c = false
  in_country (some d) c = d == c

  -- A relay stands in the country of its address, if that has a type.
  abbrev pub stands : RelayBase Address → ℕ → Bool
  stands b c =
      not (b.server_id == 0)
      && (has_type (kind b.export_device_entry_address)
          && in_country (region b.export_device_entry_address) c)

  -- The list for IPv4 of a country has the relays that stand there, once each, and no others; the list
  -- for IPv6 is empty.
  pub record Placed (m : State) : Type 0 where
    pub service : m.region_service ≡ some region
    pub listed :
        (i c : ℕ)
        → occurrences i (nodes (m.relay_info_list_by_country c).v4)
          ≡ bit (stands (m.full_relay_info_list i) c)
    pub no_v6 : (c : ℕ) → nodes (m.relay_info_list_by_country c).v6 ≡ []

  pub reset_node-Placed :
      (i : ℕ) (m : State) → Placed m → Placed (reset_node A index_of X i (no_base A index_of X) m)
  reset_node-Placed i m v = record {
    service = v.service;
    listed = λ j c. ground (
      arith,
      v.listed j c,
      X.nodes-unlink (m.relay_info_list_by_country c).v4 i,
      occurrences-without i j (nodes (m.relay_info_list_by_country c).v4),
    );
    no_v6 = λ c. ground (arith, v.no_v6 c, X.nodes-unlink (m.relay_info_list_by_country c).v6 i);
  }

  module _ (i : ℕ) (b : RelayBase Address) (m : State) (v : Placed m)
      (named : (b.server_id == 0) ≡ false) where
    abbrev reset : State
    reset = reset_node A index_of X i b m

    reset_listed :
        (j c : ℕ)
        → occurrences j (nodes (reset.relay_info_list_by_country c).v4)
          ≡ (if i == j then 0 else bit (stands (m.full_relay_info_list j) c))
    reset_listed j c = ground (
      arith,
      v.listed j c,
      X.nodes-unlink (m.relay_info_list_by_country c).v4 i,
      occurrences-without i j (nodes (m.relay_info_list_by_country c).v4),
    )

    reset_v6 : (c : ℕ) → nodes (reset.relay_info_list_by_country c).v6 ≡ []
    reset_v6 c = ground (arith, v.no_v6 c, X.nodes-unlink (m.relay_info_list_by_country c).v6 i)

    link-Placed :
        (d : ℕ) (k : Kind)
        → kind b.export_device_entry_address ≡ k
        → region b.export_device_entry_address ≡ some d
        → Placed (link_relay A index_of X d i k reset)
    link-Placed d unknown_address typed here = record {
      service = v.service;
      listed = λ j c. ground (arith, reset_listed j c, typed, here);
      no_v6 = reset_v6;
    }
    link-Placed d is4 typed here = record {
      service = v.service;
      listed = λ j c. ground (
        arith,
        reset_listed j c,
        typed,
        here,
        named,
        X.nodes-add_tail (reset.relay_info_list_by_country d).v4 i,
        occurrences-append j (nodes (reset.relay_info_list_by_country d).v4) i,
      );
      no_v6 = λ c. ground (arith, reset_v6 c, reset_v6 d);
    }
    link-Placed d is6 typed here = record {
      service = v.service;
      listed = λ j c. ground (
        arith,
        reset_listed j c,
        typed,
        here,
        named,
        X.nodes-add_tail (reset.relay_info_list_by_country d).v4 i,
        occurrences-append j (nodes (reset.relay_info_list_by_country d).v4) i,
      );
      no_v6 = λ c. ground (arith, reset_v6 c, reset_v6 d);
    }

    pub place_relay-Placed : Placed (place_relay A index_of X i b reset)
    place_relay-Placed = elim (Option-cases (region b.export_device_entry_address)) [
      | inl e ↦
          let stays : place_relay A index_of X i b reset ≡ reset = ground (arith, v.service, e) in
          rw stays (record {
            service = v.service;
            listed = λ j c. ground (arith, reset_listed j c, e);
            no_v6 = reset_v6;
          })
      | inr (d, e) ↦
          let links : place_relay A index_of X i b reset
              ≡ link_relay A index_of X d i (kind b.export_device_entry_address) reset =
            ground (arith, v.service, e) in
          rw links (link-Placed d (kind b.export_device_entry_address) refl e)
    ]

  pub place_relay-full :
      (i : ℕ) (b : RelayBase Address) (m : State) (j : ℕ)
      → (place_relay A index_of X i b m).full_relay_info_list j ≡ m.full_relay_info_list j
  place_relay-full i b m j = ground arith
