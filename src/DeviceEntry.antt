-- ===== src/DeviceEntry.antt =====
-- Which relay a device is sent to: s_device_entry/local_relay_info_manager.cpp, and the handlers
-- of s_device_entry/_main.cpp.
pub mod Placement
pub mod Follows
pub mod Ipv6
pub mod Choice
pub mod Challenge
mod Tests
use pp.Prelude.{
  ℕ, ◌*◌, Bool, true, false, ◌&&◌, List, [], ◌∷◌, Option, none, some, ◌==◌, leb, if◌then◌else◌,
  Bytes, add64, length, Eq,
}
use pp.Xel.Hex.{Hex}
use pp.Xel.NodeList.{NodeList}
use pp.Xel.NetAddress.{NetAddress, Kind, unknown_address, is4, is6}
use pp.AddressKey.{decrypt_address_key}
use pp.RelayInfo.{
  LocalRelayInfo, Notice, relay_updated, relay_dropped, max_relay_server_list_size, Packet,
  Observer, Outcome, on_relay_packet, tick_relays,
}

abbrev pub client_challenge_retry_timeout_ms : ℕ
client_challenge_retry_timeout_ms = 10 * 60_000

-- `xDE_LocalRelayInfoBase`
pub record RelayBase (Address : Type 0) : Type 0 where
  pub server_id : ℕ
  pub export_device_entry_address : Address

-- `xDE_LocalRelayInfListEntry`
pub record RelayLists (Links : Type 0) : Type 0 where
  pub v4 : Links
  pub v6 : Links

-- The members of `xPP_DeviceChallenge` that are read, and the answer.
pub record DeviceChallenge : Type 0 where
  pub address_key4 : Bytes
  pub address_key6 : Bytes

pub data ChallengeResponse (Address : Type 0) : Type 0 where
  accepted : (relay_address : Address) → ChallengeResponse Address
  refused : (ban_version_time_ms : ℕ) → ChallengeResponse Address

-- What comes from the dispatchers, and from the loop.
pub data EntryEvent (Address : Type 0) : Type 0 where
  relay_packet : Packet Address → EntryEvent Address
  entry_tick : (now : ℕ) → EntryEvent Address

module _ (A : NetAddress) ⦃e : Eq A.Address⦄ (index_of : ℕ → ℕ) (X : NodeList) where
  open A use {Address, kind}

  -- `none` for the region service: it has not been set. A node of a list is its index in the array.
  pub record Manager : Type 0 where
    pub full_relay_info_list : ℕ → RelayBase Address
    pub relay_info_list_by_country : ℕ → RelayLists X.Links
    pub region_service : Option (Address → Option ℕ)
    pub invalid_relay_server_address : ℕ

  abbrev pub no_base : RelayBase Address
  no_base = record { server_id = 0; export_device_entry_address = A.unknown }

  abbrev pub same_base : RelayBase Address → RelayBase Address → Bool
  same_base a b =
      a.server_id == b.server_id
      && e.beq a.export_device_entry_address b.export_device_entry_address

  -- xLocalRelayInfoList::Remove of a node, and a new base.
  abbrev pub reset_node : ℕ → RelayBase Address → Manager → Manager
  reset_node i b m = record m {
    full_relay_info_list = λ j. if i == j then b else m.full_relay_info_list j;
    relay_info_list_by_country = λ c. record {
      v4 = X.unlink (m.relay_info_list_by_country c).v4 i;
      v6 = X.unlink (m.relay_info_list_by_country c).v6 i;
    };
  }

  abbrev pub set_lists : ℕ → RelayLists X.Links → Manager → Manager
  set_lists country lists m = record m {
    relay_info_list_by_country =
        λ c. if country == c then lists else m.relay_info_list_by_country c;
  }

  abbrev pub link_relay : (country i : ℕ) → Kind → Manager → Manager
  link_relay country i is4 m =
      let lists = m.relay_info_list_by_country country in
      set_lists country (record lists { v4 = X.add_tail lists.v4 i }) m
  link_relay country i is6 m =
      let lists = m.relay_info_list_by_country country in
      set_lists country (record lists { v4 = X.add_tail lists.v4 i }) m
  link_relay country i unknown_address m = record m {
    invalid_relay_server_address = add64 m.invalid_relay_server_address 1;
  }

  -- UpdateRelayServerInfo from the call of the region service on.
  abbrev pub place_relay : ℕ → RelayBase Address → Manager → Manager
  place_relay i b m = elim m.region_service [
    | none ↦ m
    | some region ↦ elim (region b.export_device_entry_address) [
      | none ↦ m
      | some country ↦ link_relay country i (kind b.export_device_entry_address) m
    ]
  ]

  -- UpdateRelayServerInfo; `none` for a failed assertion.
  unfoldable pub update_relay_server_info : RelayBase Address → Manager → Option Manager
  update_relay_server_info b m =
      let i = index_of b.server_id in
      if b.server_id == 0
      then none
      else if leb max_relay_server_list_size i
      then some m
      else if same_base (m.full_relay_info_list i) b
      then some m
      else some (place_relay i b (reset_node i b m))

  unfoldable pub remove_relay_server_info : ℕ → Manager → Option Manager
  remove_relay_server_info id m =
      let i = index_of id in
      if id == 0
      then none
      else if leb max_relay_server_list_size i
      then some m
      else if (m.full_relay_info_list i).server_id == id
      then some (reset_node i no_base m)
      else some m

  -- The head of a list is taken and becomes its tail.
  abbrev pub pick_relay : ℕ → Kind → Manager → Address × Manager
  pick_relay country k m =
      let lists = m.relay_info_list_by_country country in
      elim k [
        | is4 ↦ elim (X.pop_head_if lists.v4 (λ i. true)) [
          | none ↦ (A.unknown, m)
          | some (i, rest) ↦ (
            (m.full_relay_info_list i).export_device_entry_address,
            set_lists country (record lists { v4 = X.add_tail rest i }) m,
          )
        ]
        | _ ↦ elim (X.pop_head_if lists.v6 (λ i. true)) [
          | none ↦ (A.unknown, m)
          | some (i, rest) ↦ (
            (m.full_relay_info_list i).export_device_entry_address,
            set_lists country (record lists { v6 = X.add_tail rest i }) m,
          )
        ]
      ]

  -- GetRelayServerByDeviceIp; `none` for a null region service.
  unfoldable pub get_relay_server_by_device_ip : Address → Manager → Option (Address × Manager)
  get_relay_server_by_device_ip device m = elim m.region_service [
    | none ↦ none
    | some region ↦ elim (region device) [
      | none ↦ some (A.unknown, m)
      | some country ↦ some (pick_relay country (kind device) m)
    ]
  ]

  -- The functions OnRelayUpdated and OnRelayDropped that main gives to the relay observer.
  unfoldable pub on_notice : Notice Address → Manager → Option Manager
  unfolding update_relay_server_info remove_relay_server_info
  on_notice (relay_updated r) m =
      update_relay_server_info
        (record {
          server_id = r.server_id;
          export_device_entry_address = r.export_device_entry_address;
        })
        m
  on_notice (relay_dropped r) m = remove_relay_server_info r.server_id m

  unfoldable pub on_notices : List (Notice Address) → Manager → Option Manager
  unfolding on_notice
  on_notices [] m = some m
  on_notices (n ∷ ns) m = elim (on_notice n m) [ none ↦ none | some m' ↦ on_notices ns m' ]

  -- The observer's outcome and the device entry: its notices come one by one, and nothing that the
  -- device entry does changes the observer.
  unfoldable pub notify :
      Outcome Address index_of X → Manager → Option (Observer Address index_of X × Manager)
  unfolding on_notices
  notify none m = none
  notify (some (s, es)) m = elim (on_notices es m) [ none ↦ none | some m' ↦ some (s, m') ]

  abbrev pub outcome_of :
      EntryEvent Address → Observer Address index_of X → Outcome Address index_of X
  outcome_of (relay_packet p) s = (on_relay_packet Address index_of X p s).1
  outcome_of (entry_tick now) s = tick_relays Address index_of X now s

  -- The two as main runs them.
  unfoldable pub run_entry :
      List (EntryEvent Address)
      → Observer Address index_of X × Manager
      → Option (Observer Address index_of X × Manager)
  unfolding notify
  run_entry [] (s, m) = some (s, m)
  run_entry (event ∷ events) (s, m) = elim (notify (outcome_of event s) m) [
    | none ↦ none
    | some t ↦ run_entry events t
  ]

  abbrev pub to_response : Address → ChallengeResponse Address
  to_response relay = elim (kind relay) [
    | unknown_address ↦ refused client_challenge_retry_timeout_ms
    | _ ↦ accepted relay
  ]

  module _ (H : Hex) where
    abbrev pub challenged_address : DeviceChallenge → Address
    challenged_address c = elim c.address_key4 [
      | b ∷ bs ↦ decrypt_address_key A H (b ∷ bs)
      | [] ↦ elim c.address_key6 [ b ∷ bs ↦ decrypt_address_key A H (b ∷ bs) | [] ↦ A.unknown ]
    ]

    -- DeviceChallengeService.OnPacket with the command Cmd_DV_CC_Challenge; the request is `none`
    -- where Deserialize fails. The answer is `none` where nothing is posted.
    unfoldable pub on_device_challenge :
        Option DeviceChallenge → Manager → Option (Manager × Option (ChallengeResponse Address))
    unfolding decrypt_address_key get_relay_server_by_device_ip
    on_device_challenge none m = some (m, none)
    on_device_challenge (some c) m =
        let device = challenged_address c in
        elim (kind device) [
          | unknown_address ↦ some (m, none)
          | _ ↦ elim (get_relay_server_by_device_ip device m) [
            | none ↦ none
            | some (relay, m') ↦ some (m', some (to_response relay))
          ]
        ]
