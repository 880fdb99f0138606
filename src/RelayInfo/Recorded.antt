-- ===== src/RelayInfo/Recorded.antt =====
-- What a broadcast leaves of the relay that it names.
use pp.Prelude.{
  ℕ, ◌≡◌, ◌<◌, Bool, true, false, none, some, arith, ◌==◌, leb, Bool-cases, inl, inr, refl, Eq,
}
use pp.Xel.NodeList.{NodeList}
use pp.Auth.References.{occurrences}
use pp.RelayInfo.{
  LocalRelayInfo, RelayNode, Observer, Outcome, keep_relay_alive, kill_relay, set_relay,
  replace_relay, on_broadcast, same_info, max_relay_server_list_size,
}
use pp.RelayInfo.Linked.{Linked}

module _ (Address : Type 0) ⦃e : Eq Address⦄ (index_of : ℕ → ℕ) (X : NodeList) where
  open X use {nodes}

  abbrev State : Type 0
  State = Observer Address index_of X

  abbrev heard : LocalRelayInfo Address → State → RelayNode Address
  heard b s = record { info = b; last_keep_alive_timestamp_ms = s.now }

  -- The connection is kept, the node of the relay holds the broadcast and the time, and the other
  -- nodes are as they were.
  abbrev pub Recorded : LocalRelayInfo Address → State → Bool × Outcome Address index_of X → Type 0
  Recorded b s (kept, none) = ⊥
  Recorded b s (kept, some (t, es)) =
      (kept ≡ true)
      × (t.relay_server_list (index_of b.server_id) ≡ heard b s)
      × ((j : ℕ)
          → (index_of b.server_id == j) ≡ false
          → t.relay_server_list j ≡ s.relay_server_list j)

  module _ (b : LocalRelayInfo Address) (s : State) where
    abbrev at : ℕ
    at = index_of b.server_id

    same_info_lem : (a : LocalRelayInfo Address) → same_info Address index_of X a b ≡ true → a ≡ b
    same_info_lem a h =
        let p : a.server_id ≡ b.server_id = ground (arith, h) in
        let q : a.export_device_entry_address ≡ b.export_device_entry_address =
          (e.beq_iff a.export_device_entry_address b.export_device_entry_address).0
            (ground (arith, h)) in
        let r : a.export_proxy_entry_address ≡ b.export_proxy_entry_address =
          (e.beq_iff a.export_proxy_entry_address b.export_proxy_entry_address).0
            (ground (arith, h)) in
        λ k. record {
          server_id = p k;
          export_device_entry_address = q k;
          export_proxy_entry_address = r k;
        }

    here : (at == at) ≡ true
    here = ground arith

    keep_relay_alive-Recorded :
        Linked Address index_of X s
        → (b.server_id == 0) ≡ false
        → same_info Address index_of X (s.relay_server_list at).info b ≡ true
        → Recorded b s (true, keep_relay_alive Address index_of X at s)
    unfolding keep_relay_alive
    keep_relay_alive-Recorded v named same =
        let known : ((s.relay_server_list at).info.server_id == 0) ≡ false =
          ground (arith, named, same) in
        let once : (occurrences at (nodes s.timeout_list) == 0) ≡ false =
          ground (arith, v.linked at, known) in
        rw (known, once, keep_relay_alive)
          (
            refl,
            rw (here) (λ k. record {
              info = same_info_lem (s.relay_server_list at).info same k;
              last_keep_alive_timestamp_ms = s.now;
            }),
            λ j away. rw away refl,
          )

    replace_relay-Recorded : Recorded b s (true, replace_relay Address index_of X at b s)
    unfolding replace_relay kill_relay set_relay
    replace_relay-Recorded = elim (Bool-cases ((s.relay_server_list at).info.server_id == 0)) [
      | inl free ↦ rw (free, replace_relay) (refl, rw here refl, λ j away. rw away refl)
      | inr taken ↦
          rw (taken, replace_relay, kill_relay) (refl, rw here refl, λ j away. rw away refl)
    ]

    -- A broadcast of a server whose index is in the array is accepted: the node at that index then
    -- holds its addresses and the time, and every other node is as it was.
    pub on_broadcast-Recorded :
        Linked Address index_of X s
        → (b.server_id == 0) ≡ false
        → at < max_relay_server_list_size
        → Recorded b s (on_broadcast Address index_of X b s)
    unfolding on_broadcast
    on_broadcast-Recorded v named below =
        let fits : leb max_relay_server_list_size at ≡ false = ground (arith, below) in
        elim (Bool-cases (same_info Address index_of X (s.relay_server_list at).info b)) [
          | inl same ↦ rw (named, fits, same, on_broadcast) (keep_relay_alive-Recorded v named same)
          | inr other ↦ rw (named, fits, other, on_broadcast) replace_relay-Recorded
        ]
