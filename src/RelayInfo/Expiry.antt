-- ===== src/RelayInfo/Expiry.antt =====
-- Relays that have been silent for too long are dropped.
use pp.Prelude.{
  ℕ, zero, suc, ◌+◌, ◌^◌, List, [], ◌≡◌, ◌≤◌, ◌<◌, ◌⊎◌, true, false, not, ◌∷◌, none, some, arith,
  inl, inr, refl, subst, sym, Bool-cases, leb, sub64, length, ◌==◌, if◌then◌else◌, Eq,
}
use pp.Xel.NodeList.{NodeList}
use pp.RequestMap.Counts.{length-without, occurrences-without}
use pp.RelayInfo.{
  Observer, kill_relay, is_silent, remove_timeout_relay_info, tick_relays, Notice, relay_dropped,
  Outcome, after, relay_heartbeat_timeout_ms,
}
use pp.RelayInfo.Linked.{Linked, is_known}

module _ (Address : Type 0) ⦃e : Eq Address⦄ (index_of : ℕ → ℕ) (X : NodeList) where
  open X use {nodes}

  abbrev State : Type 0
  State = Observer Address index_of X

  module _ (s : State) (v : Linked Address index_of X s) (i : ℕ) (rest : X.Links)
      (head : nodes s.timeout_list ≡ i ∷ nodes rest) where
    abbrev pub dropped : State
    dropped = record s {
      relay_server_list = λ j.
          if i == j
          then record (s.relay_server_list i) {
            info = record (s.relay_server_list i).info { server_id = 0 };
          }
          else s.relay_server_list j;
      timeout_list = X.unlink rest i;
    }

    pub head_named : ((s.relay_server_list i).info.server_id == 0) ≡ false
    head_named = ground (arith, v.linked i, head)

    pub dropped-Linked : Linked Address index_of X dropped
    dropped-Linked = record {
      linked = λ j.
          ground
            (arith, v.linked j, head, X.nodes-unlink rest i, occurrences-without i j (nodes rest));
      placed = λ j h. ground (arith, h, v.placed j);
    }

    dropped_other : (j : ℕ) → (i == j) ≡ false → dropped.relay_server_list j ≡ s.relay_server_list j
    dropped_other j other = rw other refl

    dropped_unknown :
        (t : State) (j : ℕ)
        → (i == j) ≡ true
        → t.relay_server_list j ≡ dropped.relay_server_list j
        → is_known Address index_of X t j ≡ false
    dropped_unknown t j same h =
        subst (λ n. not (n.info.server_id == 0) ≡ false) (sym h) (rw same refl)

    pub dropped_shorter : length (nodes dropped.timeout_list) < length (nodes s.timeout_list)
    dropped_shorter = ground (arith, head, X.nodes-unlink rest i, length-without i (nodes rest))

  -- The node is as it was, or its relay was silent and is no longer known.
  abbrev pub Changed : State → State → ℕ → Type 0
  Changed s t i =
      (t.relay_server_list i ≡ s.relay_server_list i)
      ⊎ ((is_silent Address index_of X s i ≡ true) × (is_known Address index_of X t i ≡ false))

  -- The known relays are linked, the first of them has been heard of in time, and a node is as it
  -- was, or its relay was silent and is no longer known.
  pub record Timely (s t : State) : Type 0 where
    pub linked : Linked Address index_of X t
    pub first : X.pop_head_if t.timeout_list (is_silent Address index_of X t) ≡ none
    pub changed : (i : ℕ) → Changed s t i
    pub same_time : t.now ≡ s.now

  abbrev pub Dropped : State → Outcome Address index_of X → Type 0
  Dropped s none = ⊥
  Dropped s (some (t, es)) = Timely s t

  Changed-step :
      (s : State) (v : Linked Address index_of X s) (i : ℕ) (rest : X.Links)
      (head : nodes s.timeout_list ≡ i ∷ nodes rest)
      → is_silent Address index_of X s i ≡ true
      → (t : State) → ((j : ℕ) → Changed (dropped s v i rest head) t j)
      → (j : ℕ) → Changed s t j
  Changed-step s v i rest head silent t h j = elim (Bool-cases (i == j)) [
    | inl same ↦ inr (
      ground (arith, same, silent),
      elim (h j) [ inl stays ↦ dropped_unknown s v i rest head t j same stays | inr gone ↦ gone.1 ],
    )
    | inr other ↦
        subst
          (λ n.
            (t.relay_server_list j ≡ n)
            ⊎ ((leb n.last_keep_alive_timestamp_ms (sub64 s.now relay_heartbeat_timeout_ms) ≡ true)
                × (is_known Address index_of X t j ≡ false)))
          (dropped_other s v i rest head j other) (h j)
  ]

  Dropped-step :
      (s : State) (v : Linked Address index_of X s) (i : ℕ) (rest : X.Links)
      (head : nodes s.timeout_list ≡ i ∷ nodes rest)
      → is_silent Address index_of X s i ≡ true
      → (es : List (Notice Address)) (o : Outcome Address index_of X)
      → Dropped (dropped s v i rest head) o
      → Dropped s (after Address index_of X es o)
  Dropped-step s v i rest head silent es none h = h
  Dropped-step s v i rest head silent es (some (t, fs)) h = record {
    linked = h.linked;
    first = h.first;
    changed = Changed-step s v i rest head silent t h.changed;
    same_time = h.same_time;
  }

  stop-Timely :
      (s : State)
      → Linked Address index_of X s
      → X.pop_head_if s.timeout_list (is_silent Address index_of X s) ≡ none
      → Timely s s
  stop-Timely s v stops = record {
    linked = v;
    first = stops;
    changed = λ i. inl refl;
    same_time = refl;
  }

  remove_timeout-Dropped :
      (fuel : ℕ) (s : State)
      → Linked Address index_of X s
      → length (nodes s.timeout_list) < fuel
      → Dropped s (remove_timeout_relay_info Address index_of X fuel s)
  unfolding remove_timeout_relay_info kill_relay
  remove_timeout-Dropped zero s v h = omega (arith, h)
  remove_timeout-Dropped (suc fuel) s v h =
      elim (X.pop_head_if_lem s.timeout_list (is_silent Address index_of X s)) [
        | inl (e, stops) ↦ rw (stops, remove_timeout_relay_info) (stop-Timely s v stops)
        | inr (i, rest, head, inr (heard, stops)) ↦
            rw (stops, remove_timeout_relay_info) (stop-Timely s v stops)
        | inr (i, rest, head, inl (silent, pops)) ↦
            rw (pops, remove_timeout_relay_info, head_named s v i rest head, kill_relay)
              (Dropped-step s v i rest head silent (relay_dropped (s.relay_server_list i).info ∷ [])
                (remove_timeout_relay_info Address index_of X fuel (dropped s v i rest head))
                (remove_timeout-Dropped fuel (dropped s v i rest head)
                  (dropped-Linked s v i rest head)
                  (omega (arith, h, dropped_shorter s v i rest head))))
      ]

  -- The known relays are linked; the first of them has been heard of within the timeout; and a node
  -- is as it was, or its relay had been heard of no later than the timeout before `now`, and is no
  -- longer known.
  abbrev pub Expired : ℕ → State → Outcome Address index_of X → Type 0
  Expired now s none = ⊥
  Expired now s (some (t, es)) =
      Linked Address index_of X t
      × (t.now ≡ now)
      × ((i : ℕ) (rest : List ℕ)
          → nodes t.timeout_list ≡ i ∷ rest
          → now < (t.relay_server_list i).last_keep_alive_timestamp_ms + relay_heartbeat_timeout_ms)
      × ((i : ℕ)
          → (t.relay_server_list i ≡ s.relay_server_list i)
            ⊎ (((s.relay_server_list i).last_keep_alive_timestamp_ms + relay_heartbeat_timeout_ms
                  ≤ now)
                × (is_known Address index_of X t i ≡ false)))

  head_heard :
      (now : ℕ) (t : State)
      → relay_heartbeat_timeout_ms ≤ now
      → now < 2 ^ 64
      → t.now ≡ now
      → X.pop_head_if t.timeout_list (is_silent Address index_of X t) ≡ none
      → (i : ℕ) (rest : List ℕ) → nodes t.timeout_list ≡ i ∷ rest
      → now < (t.relay_server_list i).last_keep_alive_timestamp_ms + relay_heartbeat_timeout_ms
  head_heard now t late fits same stops i rest head =
      elim (X.pop_head_if_lem t.timeout_list (is_silent Address index_of X t)) [
        | inl (empty, e) ↦ absurd (ground (arith, empty, head))
        | inr (j, others, is_head, inl (silent, pops)) ↦ absurd (ground (arith, pops, stops))
        | inr (j, others, is_head, inr (heard, e)) ↦
            ground (arith, head, is_head, heard, same, late, fits)
      ]

  Dropped-Expired :
      (now : ℕ) (s : State) (o : Outcome Address index_of X)
      → relay_heartbeat_timeout_ms ≤ now
      → now < 2 ^ 64
      → Dropped (record s { now = now }) o
      → Expired now s o
  Dropped-Expired now s none late fits h = h
  Dropped-Expired now s (some (t, es)) late fits h = (
    h.linked,
    h.same_time,
    head_heard now t late fits h.same_time h.first,
    λ i. elim (h.changed i) [
      | inl stays ↦ inl stays
      | inr (silent, gone) ↦ inr (ground (arith, silent, late, fits), gone)
    ],
  )

  -- At a time not before the timeout, Tick ends with no assertion failed. It keeps the known relays
  -- linked, and only drops relays that have not been heard of for the timeout; the first relay that
  -- is left in the list has been.
  pub tick_relays-Dropped :
      (now : ℕ) (s : State)
      → relay_heartbeat_timeout_ms ≤ now
      → now < 2 ^ 64
      → Linked Address index_of X s
      → Expired now s (tick_relays Address index_of X now s)
  unfolding tick_relays
  tick_relays-Dropped now s late fits v =
      Dropped-Expired now s (tick_relays Address index_of X now s) late fits (
        remove_timeout-Dropped (suc (length (nodes s.timeout_list))) (record s { now = now })
          (record { linked = v.linked; placed = v.placed }) (omega arith))
