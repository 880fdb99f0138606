-- ===== src/DeviceEntry/Follows.antt =====
-- The relays of the device entry follow those that the relay observer knows.
use pp.Prelude.{
  ℕ, zero, suc, ◌≡◌, ◌<◌, true, false, List, [], ◌∷◌, Option, none, some, arith, ◌==◌, leb,
  if◌then◌else◌, Bool-cases, inl, inr, refl, length, Eq,
}
use pp.Xel.NodeList.{NodeList}
use pp.Xel.NetAddress.{NetAddress}
use pp.RelayInfo.{
  LocalRelayInfo, Packet, Notice, relay_updated, relay_dropped, Observer, Outcome, keep_relay_alive,
  kill_relay, set_relay, replace_relay, on_relay_packet, max_relay_server_list_size, after,
  is_silent, remove_timeout_relay_info, tick_relays,
}
use pp.RelayInfo.Linked.{
  Linked, is_known, kept-Linked, keep_relay_alive-kept, killed, killed-Linked, killed-unknown,
  kill_relay-killed, set_relay-Linked, replace_relay-free, replace_relay-known,
  on_relay_packet_cases,
}
use pp.RelayInfo.Expiry.{dropped, dropped-Linked, dropped_shorter, head_named}
use pp.DeviceEntry.{
  RelayBase, Manager, no_base, reset_node, update_relay_server_info, remove_relay_server_info,
  place_relay, on_notice, on_notices, notify, run_entry, outcome_of, EntryEvent, relay_packet,
  entry_tick,
}
use pp.DeviceEntry.Placement.{Placed, reset_node-Placed, place_relay-Placed, place_relay-full}

module _ (A : NetAddress) ⦃e : Eq A.Address⦄ (index_of : ℕ → ℕ) (X : NodeList)
    (region : A.Address → Option ℕ) where
  open A use {Address}

  abbrev Entry : Type 0
  Entry = Manager A index_of X

  abbrev Relays : Type 0
  Relays = Observer Address index_of X

  -- What the device entry keeps of a relay.
  abbrev pub base_of : LocalRelayInfo Address → RelayBase Address
  base_of r = if r.server_id == 0 then no_base A index_of X else record {
    server_id = r.server_id;
    export_device_entry_address = r.export_device_entry_address;
  }

  pub record Follows (s : Relays) (m : Entry) : Type 0 where
    pub linked : Linked Address index_of X s
    pub placed : Placed A index_of X region m
    pub same : (i : ℕ) → m.full_relay_info_list i ≡ base_of (s.relay_server_list i).info

  abbrev pub Arrives : Relays → Option Entry → Type 0
  Arrives s none = ⊥
  Arrives s (some m) = Follows s m

  -- What the observer leaves, and the device entry after the notices.
  abbrev pub Followed : Entry → Outcome Address index_of X → Type 0
  Followed m none = ⊥
  Followed m (some (t, es)) = Arrives t (on_notices A index_of X es m)

  -- The relay at an index is dropped.
  module _ (s : Relays) (m : Entry) (f : Follows s m) (i : ℕ)
      (known : is_known Address index_of X s i ≡ true) where
    forgets :
        on_notice A index_of X (relay_dropped (s.relay_server_list i).info) m
        ≡ some (reset_node A index_of X i (no_base A index_of X) m)
    unfolding on_notice remove_relay_server_info
    forgets =
        let at : (index_of (s.relay_server_list i).info.server_id ≡ i)
            × (i < max_relay_server_list_size) =
          f.linked.placed i known in
        let named : ((s.relay_server_list i).info.server_id == 0) ≡ false = ground (arith, known) in
        let below : leb max_relay_server_list_size i ≡ false = ground (arith, at) in
        let own : ((m.full_relay_info_list i).server_id == (s.relay_server_list i).info.server_id)
            ≡ true =
          ground (arith, f.same i, named) in
        rw (at.0, named, below, own, on_notice, remove_relay_server_info) refl

    drop-Follows :
        (t : Relays)
        → Linked Address index_of X t
        → ((j : ℕ)
            → (t.relay_server_list j).info ≡ (
                if i == j
                then record (s.relay_server_list i).info { server_id = 0 }
                else (s.relay_server_list j).info))
        → Follows t (reset_node A index_of X i (no_base A index_of X) m)
    drop-Follows t l h = record {
      linked = l;
      placed = reset_node-Placed A index_of X region i m f.placed;
      same = λ j. ground (arith, h j, f.same j);
    }

  -- A relay is set at an index that is free.
  module _ (s : Relays) (m : Entry) (f : Follows s m) (b : LocalRelayInfo Address)
      (free : is_known Address index_of X s (index_of b.server_id) ≡ false)
      (named : (b.server_id == 0) ≡ false)
      (below : index_of b.server_id < max_relay_server_list_size) where
    abbrev base : RelayBase Address
    base = record {
      server_id = b.server_id;
      export_device_entry_address = b.export_device_entry_address;
    }

    abbrev placed_entry : Entry
    placed_entry =
        place_relay A index_of X (index_of b.server_id) base
          (reset_node A index_of X (index_of b.server_id) base m)

    remembers : on_notice A index_of X (relay_updated b) m ≡ some placed_entry
    unfolding on_notice update_relay_server_info
    remembers =
        let fits : leb max_relay_server_list_size (index_of b.server_id) ≡ false =
          ground (arith, below) in
        let other : ((m.full_relay_info_list (index_of b.server_id)).server_id == b.server_id)
            ≡ false =
          ground (arith, f.same (index_of b.server_id), free, named) in
        ground (arith, named, fits, other)

    placed_same :
        (j : ℕ)
        → placed_entry.full_relay_info_list j
          ≡ (if index_of b.server_id == j then base else m.full_relay_info_list j)
    placed_same j =
        place_relay-full A index_of X region (index_of b.server_id) base
          (reset_node A index_of X (index_of b.server_id) base m) j

    set-Follows : Follows (set_relay Address index_of X (index_of b.server_id) b s).0 placed_entry
    unfolding set_relay
    set-Follows = record {
      linked = set_relay-Linked Address index_of X b s f.linked free named below;
      placed = place_relay-Placed A index_of X region (index_of b.server_id) base m f.placed named;
      same = λ j. ground (arith, placed_same j, named, f.same j);
    }

  keep_relay_alive-Followed :
      (s : Relays) (m : Entry) (i : ℕ)
      → Follows s m
      → is_known Address index_of X s i ≡ true
      → Followed m (keep_relay_alive Address index_of X i s)
  unfolding on_notices
  keep_relay_alive-Followed s m i f known =
      rw (keep_relay_alive-kept Address index_of X i s f.linked known) (record {
        linked = kept-Linked Address index_of X i s f.linked known;
        placed = f.placed;
        same = λ j. ground (arith, f.same j, f.same i);
      })

  kill_relay-Followed :
      (s : Relays) (m : Entry) (i : ℕ)
      → Follows s m
      → is_known Address index_of X s i ≡ true
      → Followed m (kill_relay Address index_of X i s)
  unfolding on_notices
  kill_relay-Followed s m i f known =
      rw
        (kill_relay-killed Address index_of X i s f.linked known, on_notices, forgets s m f i known)
        (drop-Follows s m f i known (killed Address index_of X i s f.linked known)
          (killed-Linked Address index_of X i s f.linked known) (λ j. ground arith))

  replace_relay-Followed :
      (s : Relays) (m : Entry) (b : LocalRelayInfo Address)
      → Follows s m
      → (b.server_id == 0) ≡ false
      → index_of b.server_id < max_relay_server_list_size
      → Followed m (replace_relay Address index_of X (index_of b.server_id) b s)
  unfolding on_notices set_relay
  replace_relay-Followed s m b f named below =
      elim (Bool-cases (is_known Address index_of X s (index_of b.server_id))) [
        | inr free ↦
            rw
              (
                replace_relay-free Address index_of X b s free,
                on_notices,
                remembers s m f b free named below,
              )
              (set-Follows s m f b free named below)
        | inl known ↦
            let i = index_of b.server_id in
            let s' : Relays = killed Address index_of X i s f.linked known in
            let m' : Entry = reset_node A index_of X i (no_base A index_of X) m in
            let f' : Follows s' m' =
              drop-Follows s m f i known s' (killed-Linked Address index_of X i s f.linked known)
                (λ j. ground arith) in
            let free : is_known Address index_of X s' i ≡ false =
              killed-unknown Address index_of X i s f.linked known in
            rw
              (
                replace_relay-known Address index_of X b s f.linked known,
                on_notices,
                forgets s m f i known,
                remembers s' m' f' b free named below,
              )
              (set-Follows s' m' f' b free named below)
      ]

  -- If the device entry has the relays that the observer knows, it has them after every packet too,
  -- and after its notices.
  pub on_relay_packet-Followed :
      (p : Packet Address) (s : Relays) (m : Entry)
      → Follows s m
      → Followed m (on_relay_packet Address index_of X p s).1
  unfolding on_notices
  on_relay_packet-Followed p s m f =
      on_relay_packet_cases Address index_of X s (Followed m) f
        (λ i. keep_relay_alive-Followed s m i f) (λ i. kill_relay-Followed s m i f)
        (λ b. replace_relay-Followed s m b f) p

  Followed-after :
      (n : Notice Address) (m m' : Entry) (o : Outcome Address index_of X)
      → on_notice A index_of X n m ≡ some m'
      → Followed m' o
      → Followed m (after Address index_of X (n ∷ []) o)
  unfolding on_notices
  Followed-after n m m' none h f = f
  Followed-after n m m' (some (t, es)) h f = rw (on_notices, h) f

  remove_timeout-Followed :
      (fuel : ℕ) (s : Relays) (m : Entry)
      → Follows s m
      → length (X.nodes s.timeout_list) < fuel
      → Followed m (remove_timeout_relay_info Address index_of X fuel s)
  unfolding remove_timeout_relay_info kill_relay on_notices
  remove_timeout-Followed zero s m f h = omega (arith, h)
  remove_timeout-Followed (suc fuel) s m f h =
      elim (X.pop_head_if_lem s.timeout_list (is_silent Address index_of X s)) [
        | inl (none_left, stops) ↦ rw (stops, remove_timeout_relay_info) f
        | inr (i, rest, head, inr (heard, stops)) ↦ rw (stops, remove_timeout_relay_info) f
        | inr (i, rest, head, inl (silent, pops)) ↦
            let known : is_known Address index_of X s i ≡ true =
              ground (arith, head_named Address index_of X s f.linked i rest head) in
            let s' : Relays = dropped Address index_of X s f.linked i rest head in
            rw
              (
                pops,
                remove_timeout_relay_info,
                head_named Address index_of X s f.linked i rest head,
                kill_relay,
              )
              (Followed-after (relay_dropped (s.relay_server_list i).info) m
                (reset_node A index_of X i (no_base A index_of X) m)
                (remove_timeout_relay_info Address index_of X fuel s') (forgets s m f i known)
                (remove_timeout-Followed fuel s'
                  (reset_node A index_of X i (no_base A index_of X) m)
                  (drop-Follows s m f i known s'
                    (dropped-Linked Address index_of X s f.linked i rest head) (λ j. ground arith))
                  (omega (arith, h, dropped_shorter Address index_of X s f.linked i rest head))))
      ]

  pub tick_relays-Followed :
      (now : ℕ) (s : Relays) (m : Entry)
      → Follows s m
      → Followed m (tick_relays Address index_of X now s)
  unfolding tick_relays
  tick_relays-Followed now s m f =
      remove_timeout-Followed (suc (length (X.nodes s.timeout_list))) (record s { now = now }) m
        (record {
          linked = record { linked = f.linked.linked; placed = f.linked.placed };
          placed = f.placed;
          same = f.same;
        })
        (omega arith)

  event-Followed :
      (event : EntryEvent Address) (s : Relays) (m : Entry)
      → Follows s m
      → Followed m (outcome_of A index_of X event s)
  event-Followed (relay_packet p) s m f = on_relay_packet-Followed p s m f
  event-Followed (entry_tick now) s m f = tick_relays-Followed now s m f

  Follows-step :
      (o : Outcome Address index_of X) (m : Entry)
      → Followed m o
      → (t : Relays × Entry) × (notify A index_of X o m ≡ some t) × Follows t.0 t.1
  unfolding notify
  Follows-step none m f = absurd f
  Follows-step (some (s, es)) m f = arrive (on_notices A index_of X es m) refl f
    where
      arrive :
          (r : Option Entry)
          → on_notices A index_of X es m ≡ r
          → Arrives s r
          → (t : Relays × Entry) × (notify A index_of X (some (s, es)) m ≡ some t) × Follows t.0 t.1
      arrive none h f = absurd f
      arrive (some m') h f = ((s, m'), rw (notify, h) refl, f)

  -- Whatever packets and ticks come, no assertion fails, and the device entry has exactly the relays
  -- that the observer knows, each with its address and in the list of the country of its address.
  pub run_entry-Follows :
      (events : List (EntryEvent Address)) (s : Relays) (m : Entry)
      → Follows s m
      → (t : Relays × Entry) × (run_entry A index_of X events (s, m) ≡ some t) × Follows t.0 t.1
  unfolding run_entry
  run_entry-Follows [] s m f = ((s, m), refl, f)
  run_entry-Follows (event ∷ events) s m f =
      let (t, runs, g) =
        Follows-step (outcome_of A index_of X event s) m (event-Followed event s m f) in
      let (u, rest, g') = run_entry-Follows events t.0 t.1 g in (u, rw (run_entry, runs) rest, g')
