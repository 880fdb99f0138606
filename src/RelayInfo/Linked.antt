-- ===== src/RelayInfo/Linked.antt =====
-- The relays that are known are those that are linked.
use pp.Prelude.{
  ℕ, ◌≡◌, if◌then◌else◌, ◌<◌, Bool, true, false, not, [], ◌∷◌, none, some, arith, ◌==◌, Bool-cases,
  inl, inr, refl, ◌||◌, leb, Eq,
}
use pp.Xel.NodeList.{NodeList}
use pp.Auth.References.{bit, occurrences}
use pp.Auth.References.Pool.{occurrences-append}
use pp.RequestMap.Counts.{occurrences-without}
use pp.RelayInfo.{
  LocalRelayInfo, Packet, relay_dropped, relay_updated, heartbeat_broadcast, heartbeat_lost,
  other_packet, Observer, Outcome, keep_relay_alive, kill_relay, set_relay, replace_relay,
  on_broadcast, on_lost, on_relay_packet, same_info, max_relay_server_list_size,
}

module _ (Address : Type 0) ⦃e : Eq Address⦄ (index_of : ℕ → ℕ) (X : NodeList) where
  open X use {nodes}

  abbrev State : Type 0
  State = Observer Address index_of X

  abbrev pub is_known : State → ℕ → Bool
  is_known s i = not ((s.relay_server_list i).info.server_id == 0)

  -- A node with a server is linked once, and no other is; it stands at the index of its server.
  pub record Linked (s : State) : Type 0 where
    pub linked : (i : ℕ) → occurrences i (nodes s.timeout_list) ≡ bit (is_known s i)
    pub placed :
        (i : ℕ)
        → is_known s i ≡ true
        → (index_of (s.relay_server_list i).info.server_id ≡ i) × (i < max_relay_server_list_size)

  abbrev pub Holds : Outcome Address index_of X → Type 0
  Holds none = ⊥
  Holds (some (t, es)) = Linked t

  module _ (i : ℕ) (s : State) (v : Linked s) (known : is_known s i ≡ true) where
    abbrev pub kept : State
    kept = record s {
      relay_server_list = λ j.
          if i == j
          then record (s.relay_server_list i) { last_keep_alive_timestamp_ms = s.now }
          else s.relay_server_list j;
      timeout_list = X.add_tail (X.unlink s.timeout_list i) i;
    }

    pub kept-Linked : Linked kept
    kept-Linked = record {
      linked = λ j. ground (
        arith,
        known,
        v.linked j,
        X.nodes-add_tail (X.unlink s.timeout_list i) i,
        X.nodes-unlink s.timeout_list i,
        occurrences-append j (nodes (X.unlink s.timeout_list i)) i,
        occurrences-without i j (nodes s.timeout_list),
      );
      placed = λ j h. ground (arith, h, v.placed j, v.placed i);
    }

    known_named : ((s.relay_server_list i).info.server_id == 0) ≡ false
    known_named = ground (arith, known)

    once : (occurrences i (nodes s.timeout_list) == 0) ≡ false
    once = ground (arith, known, v.linked i)

    pub keep_relay_alive-kept : keep_relay_alive Address index_of X i s ≡ some (kept, [])
    unfolding keep_relay_alive
    keep_relay_alive-kept = rw (known_named, once, keep_relay_alive) refl

    keep_relay_alive-Linked : Holds (keep_relay_alive Address index_of X i s)
    keep_relay_alive-Linked = rw keep_relay_alive-kept kept-Linked

    abbrev pub killed : State
    killed = record s {
      relay_server_list = λ j.
          if i == j
          then record (s.relay_server_list i) {
            info = record (s.relay_server_list i).info { server_id = 0 };
          }
          else s.relay_server_list j;
      timeout_list = X.unlink s.timeout_list i;
    }

    pub kill_relay-killed :
        kill_relay Address index_of X i s
        ≡ some (killed, relay_dropped (s.relay_server_list i).info ∷ [])
    unfolding kill_relay
    kill_relay-killed = rw (known_named, kill_relay) refl

    pub killed-Linked : Linked killed
    killed-Linked = record {
      linked = λ j. ground (
        arith,
        v.linked j,
        X.nodes-unlink s.timeout_list i,
        occurrences-without i j (nodes s.timeout_list),
      );
      placed = λ j h. ground (arith, h, v.placed j);
    }

    pub killed-unknown : is_known killed i ≡ false
    killed-unknown = ground arith

  pub set_relay-Linked :
      (b : LocalRelayInfo Address) (s : State)
      → Linked s
      → is_known s (index_of b.server_id) ≡ false
      → (b.server_id == 0) ≡ false
      → index_of b.server_id < max_relay_server_list_size
      → Linked (set_relay Address index_of X (index_of b.server_id) b s).0
  unfolding set_relay
  set_relay-Linked b s v free named below = record {
    linked = λ j. ground (
      arith,
      free,
      named,
      v.linked j,
      X.nodes-add_tail s.timeout_list (index_of b.server_id),
      occurrences-append j (nodes s.timeout_list) (index_of b.server_id),
    );
    placed = λ j h. ground (arith, h, below, v.placed j);
  }

  free_unnamed :
      (s : State) (i : ℕ)
      → is_known s i ≡ false
      → ((s.relay_server_list i).info.server_id == 0) ≡ true
  free_unnamed s i h = ground (arith, h)

  pub replace_relay-free :
      (b : LocalRelayInfo Address) (s : State)
      → is_known s (index_of b.server_id) ≡ false
      → replace_relay Address index_of X (index_of b.server_id) b s
        ≡ some (set_relay Address index_of X (index_of b.server_id) b s)
  unfolding replace_relay
  replace_relay-free b s free = rw (free_unnamed s (index_of b.server_id) free, replace_relay) refl

  pub replace_relay-known :
      (b : LocalRelayInfo Address) (s : State) (v : Linked s)
      (known : is_known s (index_of b.server_id) ≡ true)
      → replace_relay Address index_of X (index_of b.server_id) b s
        ≡ some (
          (set_relay Address index_of X
              (index_of b.server_id)
              b
              (killed (index_of b.server_id) s v known)).0,
          relay_dropped (s.relay_server_list (index_of b.server_id)).info ∷ relay_updated b ∷ [],
        )
  unfolding replace_relay kill_relay set_relay
  replace_relay-known b s v known =
      rw (known_named (index_of b.server_id) s v known, replace_relay, kill_relay) refl

  replace_relay-Linked :
      (b : LocalRelayInfo Address) (s : State)
      → Linked s
      → (b.server_id == 0) ≡ false
      → index_of b.server_id < max_relay_server_list_size
      → Holds (replace_relay Address index_of X (index_of b.server_id) b s)
  replace_relay-Linked b s v named below = elim (Bool-cases (is_known s (index_of b.server_id))) [
    | inl known ↦ rw (replace_relay-known b s v known) (
        set_relay-Linked b (killed (index_of b.server_id) s v known)
          (killed-Linked (index_of b.server_id) s v known)
          (killed-unknown (index_of b.server_id) s v known) named below)
    | inr free ↦ rw (replace_relay-free b s free) (set_relay-Linked b s v free named below)
  ]

  -- What holds of each of the outcomes that OnPacket may have, holds of its outcome.
  module _ (s : State) (Q : Outcome Address index_of X → Type 0) (idle : Q (some (s, [])))
      (keeps : (i : ℕ) → is_known s i ≡ true → Q (keep_relay_alive Address index_of X i s))
      (kills : (i : ℕ) → is_known s i ≡ true → Q (kill_relay Address index_of X i s))
      (replaces : (b : LocalRelayInfo Address)
        → (b.server_id == 0) ≡ false
        → index_of b.server_id < max_relay_server_list_size
        → Q (replace_relay Address index_of X (index_of b.server_id) b s)) where
    on_broadcast_cases : (b : LocalRelayInfo Address) → Q (on_broadcast Address index_of X b s).1
    unfolding on_broadcast
    on_broadcast_cases b =
        elim (Bool-cases
          (b.server_id == 0 || leb max_relay_server_list_size (index_of b.server_id))) [
            | inl bad ↦ rw (bad, on_broadcast) idle
            | inr good ↦
                let old = (s.relay_server_list (index_of b.server_id)).info in
                elim (Bool-cases (same_info Address index_of X old b)) [
                  | inl same ↦
                      rw (good, same, on_broadcast)
                        (keeps (index_of b.server_id) (ground (arith, good, same)))
                  | inr other ↦
                      rw (good, other, on_broadcast)
                        (replaces b (ground (arith, good)) (ground (arith, good)))
                ]
          ]

    on_lost_cases : (id : ℕ) → Q (on_lost Address index_of X id s).1
    unfolding on_lost
    on_lost_cases id = elim (Bool-cases (id == 0 || leb max_relay_server_list_size (index_of id))) [
      | inl bad ↦ rw (bad, on_lost) idle
      | inr good ↦ elim (Bool-cases ((s.relay_server_list (index_of id)).info.server_id == id)) [
        | inr other ↦ rw (good, other, on_lost) idle
        | inl here ↦ rw (good, here, on_lost) (kills (index_of id) (ground (arith, good, here)))
      ]
    ]

    pub on_relay_packet_cases : (p : Packet Address) → Q (on_relay_packet Address index_of X p s).1
    unfolding on_relay_packet
    on_relay_packet_cases (heartbeat_broadcast none) = idle
    on_relay_packet_cases (heartbeat_broadcast (some b)) = on_broadcast_cases b
    on_relay_packet_cases (heartbeat_lost none) = idle
    on_relay_packet_cases (heartbeat_lost (some id)) = on_lost_cases id
    on_relay_packet_cases other_packet = idle

  -- No assertion fails in OnPacket, and afterwards the nodes with a server are again linked, once each
  -- and no other, each at the index of its server.
  pub on_relay_packet-Linked :
      (p : Packet Address) (s : State) → Linked s → Holds (on_relay_packet Address index_of X p s).1
  on_relay_packet-Linked p s v =
      on_relay_packet_cases s Holds v (λ i. keep_relay_alive-Linked i s v)
        (λ i known. rw (kill_relay-killed i s v known) (killed-Linked i s v known))
        (λ b. replace_relay-Linked b s v) p
