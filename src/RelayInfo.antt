-- ===== src/RelayInfo.antt =====
-- What a service knows of the relay servers, from their heartbeats:
-- ppp/lib_component/relay/relay_info_observer.
pub mod Linked
pub mod Expiry
pub mod Recorded
mod Tests
use pp.Prelude.{
  ℕ, zero, suc, ◌+◌, ◌*◌, Bool, true, false, not, ◌||◌, ◌&&◌, List, [], ◌∷◌, ◌++◌, Option, none,
  some, ◌==◌, leb, if◌then◌else◌, sub64, length, Eq,
}
use pp.Xel.NodeList.{NodeList}
use pp.Auth.References.{occurrences}

abbrev pub max_relay_server_list_size : ℕ
max_relay_server_list_size = 200_000

abbrev pub relay_heartbeat_timeout_ms : ℕ
relay_heartbeat_timeout_ms = 5 * 60_000 + 60_000

-- `xLocalRelayInfo`; the broadcast of a heartbeat has the same members.
pub record LocalRelayInfo (Address : Type 0) : Type 0 where
  pub server_id : ℕ
  pub export_device_entry_address : Address
  pub export_proxy_entry_address : Address

-- `xInternalLocalRelayInfo`
pub record RelayNode (Address : Type 0) : Type 0 where
  pub info : LocalRelayInfo Address
  pub last_keep_alive_timestamp_ms : ℕ

-- A packet after Deserialize, `none` where that fails.
pub data Packet (Address : Type 0) : Type 0 where
  heartbeat_broadcast : Option (LocalRelayInfo Address) → Packet Address
  heartbeat_lost : Option ℕ → Packet Address
  other_packet : Packet Address

pub data Notice (Address : Type 0) : Type 0 where
  relay_updated relay_dropped : LocalRelayInfo Address → Notice Address

module _ (Address : Type 0) ⦃e : Eq Address⦄ (index_of : ℕ → ℕ) (X : NodeList) where
  -- The array has max_relay_server_list_size nodes. A node of the list is its index in the array.
  pub record Observer : Type 0 where
    pub now : ℕ  -- LocalTicker()
    pub relay_server_list : ℕ → RelayNode Address
    pub timeout_list : X.Links

  -- What the calls leave and the notices they give, `none` for a failed assertion.
  abbrev pub Outcome : Type 0
  Outcome = Option (Observer × List (Notice Address))

  abbrev pub assign : (ℕ → RelayNode Address) → ℕ → RelayNode Address → ℕ → RelayNode Address
  assign nodes i node j = if i == j then node else nodes j

  unfoldable pub keep_relay_alive : ℕ → Observer → Outcome
  keep_relay_alive i s =
      let node = s.relay_server_list i in
      if node.info.server_id == 0 || occurrences i (X.nodes s.timeout_list) == 0
      then none
      else some (
        record s {
          relay_server_list =
              assign s.relay_server_list i (record node { last_keep_alive_timestamp_ms = s.now });
          timeout_list = X.add_tail (X.unlink s.timeout_list i) i;
        },
        [],
      )

  -- Kill: the observer hears of the relay before its identifier is reset.
  unfoldable pub kill_relay : ℕ → Observer → Outcome
  kill_relay i s =
      let node = s.relay_server_list i in
      if node.info.server_id == 0
      then none
      else some (
        record s {
          relay_server_list =
              assign s.relay_server_list i
                (record node { info = record node.info { server_id = 0 } });
          timeout_list = X.unlink s.timeout_list i;
        },
        relay_dropped node.info ∷ [],
      )

  abbrev pub same_info : LocalRelayInfo Address → LocalRelayInfo Address → Bool
  same_info a b =
      a.server_id == b.server_id
      && (e.beq a.export_device_entry_address b.export_device_entry_address
          && e.beq a.export_proxy_entry_address b.export_proxy_entry_address)

  -- The members of the broadcast are stored, and the node is linked.
  unfoldable pub set_relay :
      ℕ → LocalRelayInfo Address → Observer → Observer × List (Notice Address)
  set_relay i b s = (
    record s {
      relay_server_list =
          assign s.relay_server_list i (record { info = b; last_keep_alive_timestamp_ms = s.now });
      timeout_list = X.add_tail s.timeout_list i;
    },
    relay_updated b ∷ [],
  )

  unfoldable pub replace_relay : ℕ → LocalRelayInfo Address → Observer → Outcome
  unfolding kill_relay set_relay
  replace_relay i b s =
      if (s.relay_server_list i).info.server_id == 0
      then some (set_relay i b s)
      else elim (kill_relay i s) [
        | none ↦ none
        | some (t, es) ↦ some ((set_relay i b t).0, es ++ (set_relay i b t).1)
      ]

  -- The branch of OnPacket for a broadcast with the identifier of a server.
  unfoldable pub on_broadcast : LocalRelayInfo Address → Observer → Bool × Outcome
  unfolding keep_relay_alive replace_relay
  on_broadcast b s =
      if b.server_id == 0 || leb max_relay_server_list_size (index_of b.server_id)
      then (false, some (s, []))
      else if same_info (s.relay_server_list (index_of b.server_id)).info b
      then (true, keep_relay_alive (index_of b.server_id) s)
      else (true, replace_relay (index_of b.server_id) b s)

  unfoldable pub on_lost : ℕ → Observer → Bool × Outcome
  unfolding kill_relay
  on_lost id s =
      if id == 0 || leb max_relay_server_list_size (index_of id)
      then (false, some (s, []))
      else if (s.relay_server_list (index_of id)).info.server_id == id
      then (true, kill_relay (index_of id) s)
      else (true, some (s, []))

  -- OnPacket: whether the connection is kept, and the outcome.
  unfoldable pub on_relay_packet : Packet Address → Observer → Bool × Outcome
  unfolding on_broadcast on_lost
  on_relay_packet (heartbeat_broadcast none) s = (false, some (s, []))
  on_relay_packet (heartbeat_broadcast (some b)) s = on_broadcast b s
  on_relay_packet (heartbeat_lost none) s = (false, some (s, []))
  on_relay_packet (heartbeat_lost (some id)) s = on_lost id s
  on_relay_packet other_packet s = (true, some (s, []))

  -- `Info.LastKeepAliveTimestampMS <= KillTimepoint`
  abbrev pub is_silent : Observer → ℕ → Bool
  is_silent s i =
      leb (s.relay_server_list i).last_keep_alive_timestamp_ms
        (sub64 s.now relay_heartbeat_timeout_ms)

  -- Notices that came before those of an outcome.
  abbrev pub after : List (Notice Address) → Outcome → Outcome
  after es none = none
  after es (some (t, fs)) = some (t, es ++ fs)

  -- RemoveTimeoutRelayInfo with fuel; `none` also where that runs out.
  -- Kill takes a node off the list that PopHead took off before; that is taken to do nothing.
  unfoldable pub remove_timeout_relay_info : ℕ → Observer → Outcome
  unfolding kill_relay
  remove_timeout_relay_info zero s = none
  remove_timeout_relay_info (suc fuel) s = elim (X.pop_head_if s.timeout_list (is_silent s)) [
    | none ↦ some (s, [])
    | some (i, rest) ↦ elim (kill_relay i (record s { timeout_list = rest })) [
      | none ↦ none
      | some (t, es) ↦ after es (remove_timeout_relay_info fuel t)
    ]
  ]

  -- The part of Tick after that of the client; one round for each node, and one for the end.
  unfoldable pub tick_relays : (now : ℕ) → Observer → Outcome
  unfolding remove_timeout_relay_info
  tick_relays now s =
      remove_timeout_relay_info (suc (length (X.nodes s.timeout_list))) (record s { now = now })
