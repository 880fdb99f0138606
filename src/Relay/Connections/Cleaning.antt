-- ===== src/Relay/Connections/Cleaning.antt =====
-- DeferDestroyIdleConnections and CleanDyingConnections: the connections that are marked are
-- destroyed, and no other that is not idle.
use pp.Prelude.{
  ℕ, zero, suc, ◌<◌, ◌≡◌, ◌||◌, Bool, true, false, not, ◌∷◌, Option, none, some, arith,
  Option-cases, Bool-cases, inl, inr, refl, sym, subst, ◌∙◌, ap, ◌==◌, leb, sub64, length,
}
use pp.Xel.Storage.{Storage}
use pp.Xel.NodeList.{NodeList}
use pp.RequestMap.Counts.{length-without}
use pp.Relay.Connections.{
  Connection, Connections, grab_kill, defer_destroy, is_idle, defer_destroy_idle, clean_dying,
  idle_connection_timeout_ms, sweep_connections,
}
use pp.Relay.Connections.Marks.{Marks, is_marked, is_open, defer_destroy-Marks}

module _ (S : Storage Connection) (X : NodeList) where
  open S use {Pool, check_and_get, write}
  open X use {nodes}

  abbrev State : Type 0
  State = Connections S X

  -- Not marked, and heard of within the timeout.
  abbrev pub is_active : (now : ℕ) → Connection → Bool
  is_active now c = not (c.delete_mark || leb c.timestamp_ms (sub64 now idle_connection_timeout_ms))

  -- The marks agree with the lists; a connection that is open is as it was, and an active one stays.
  pub record Sweeps (s t : State) : Type 0 where
    pub marks : Marks S X t
    pub clock : t.now ≡ s.now
    pub kept :
        (j : ℕ) → is_open S X t.pool j ≡ true → check_and_get t.pool j ≡ check_and_get s.pool j
    pub stays :
        (j : ℕ) (c : Connection)
        → check_and_get s.pool j ≡ some c
        → is_active s.now c ≡ true
        → check_and_get t.pool j ≡ some c

  Sweeps-refl : (s : State) → Marks S X s → Sweeps s s
  Sweeps-refl s v = record { marks = v; clock = refl; kept = λ j h. refl; stays = λ j c e h. e }

  Sweeps-trans : (s t u : State) → Sweeps s t → Sweeps t u → Sweeps s u
  Sweeps-trans s t u h k = record {
    marks = k.marks;
    clock = k.clock ∙ h.clock;
    kept = λ j e. let same = k.kept j e in same ∙ h.kept j (subst (λ o. open_in o ≡ true) same e);
    stays = λ j c e active.
        k.stays j c (h.stays j c e active) (subst (λ n. is_active n c ≡ true) (sym h.clock) active);
  }
    where
      open_in : Option Connection → Bool
      open_in o = elim o [ none ↦ false | some c ↦ not c.delete_mark ]

  -- A round on the head of the idle list: the connection is marked, and the list is shorter.
  module _ (alive : ℕ → Bool) (s : State) (v : Marks S X s) (i : ℕ) (rest : X.Links)
      (head : nodes s.idle ≡ i ∷ nodes rest) where
    in_use : (c : Connection) × (check_and_get s.pool i ≡ some c) × (c.delete_mark ≡ false)
    in_use = elim (Option-cases (check_and_get s.pool i)) [
      | inl e ↦ absurd (ground (arith, v.waiting i, head, e))
      | inr (c, e) ↦ (c, e, ground (arith, v.waiting i, head, e))
    ]

    popped-Marks : Marks S X (record s { idle = rest })
    popped-Marks = record { killed = v.killed; waiting = λ j. ground (arith, v.waiting j, head) }

    shorter :
        (c : Connection)
        → length (nodes (defer_destroy S X alive i c (record s { idle = rest })).0.idle)
          < length (nodes s.idle)
    unfolding defer_destroy grab_kill
    shorter c = ground (arith, head, X.nodes-unlink rest i, length-without i (nodes rest))

    abbrev marked : Connection → Connection
    marked c = record c { delete_mark = true; create_connection_future_handle = 0 }

    -- Another connection stays.
    apart :
        (c : Connection)
        → check_and_get s.pool i ≡ some c
        → (j : ℕ) → (i == j) ≡ false
        → check_and_get (defer_destroy S X alive i c (record s { idle = rest })).0.pool j
          ≡ check_and_get s.pool j
    unfolding defer_destroy grab_kill
    apart c own j other = ground (arith, own, other, S.get-write s.pool i (marked c) c j own)

    -- The connection itself is open no more.
    closed :
        (c : Connection)
        → check_and_get s.pool i ≡ some c
        → is_open S X (defer_destroy S X alive i c (record s { idle = rest })).0.pool i ≡ false
    unfolding defer_destroy grab_kill
    closed c own = ground (arith, own, S.get-write s.pool i (marked c) c i own)

    same_clock :
        (c : Connection) → (defer_destroy S X alive i c (record s { idle = rest })).0.now ≡ s.now
    unfolding defer_destroy grab_kill
    same_clock c = ground arith

    idle_swept :
        (c : Connection)
        → check_and_get s.pool i ≡ some c
        → c.delete_mark ≡ false
        → is_idle S X s i ≡ true
        → Sweeps s (defer_destroy S X alive i c (record s { idle = rest })).0
    idle_swept c own fresh due = record {
      marks = defer_destroy-Marks S X alive i c (record s { idle = rest }) popped-Marks own;
      clock = same_clock c;
      kept = λ j h. elim (Bool-cases (i == j)) [
        | inl same ↦
            let at : i ≡ j = ground (arith, same) in
            absurd (
              ground (
                arith,
                h,
                closed c own,
                ap (is_open S X (defer_destroy S X alive i c (record s { idle = rest })).0.pool) at,
              ))
        | inr other ↦ apart c own j other
      ];
      stays = λ j d e active. elim (Bool-cases (i == j)) [
        | inl same ↦ absurd (ground (arith, same, own, e, due, active))
        | inr other ↦ apart c own j other ∙ e
      ];
    }

  abbrev Swept : State → Option State → Type 0
  Swept s none = ⊥
  Swept s (some t) = Sweeps s t

  Swept-trans : (s t : State) (o : Option State) → Sweeps s t → Swept t o → Swept s o
  Swept-trans s t none h k = k
  Swept-trans s t (some u) h k = Sweeps-trans s t u h k

  defer_destroy_idle-Swept :
      (alive : ℕ → Bool) (fuel : ℕ) (s : State)
      → Marks S X s
      → length (nodes s.idle) < fuel
      → Swept s (defer_destroy_idle S X alive fuel s)
  unfolding defer_destroy_idle
  defer_destroy_idle-Swept alive zero s v h = omega (arith, h)
  defer_destroy_idle-Swept alive (suc fuel) s v h =
      elim (X.pop_head_if_lem s.idle (is_idle S X s)) [
        | inl (e, stops) ↦ rw (stops, defer_destroy_idle) (Sweeps-refl s v)
        | inr (i, rest, head, inr (fresh, stops)) ↦ rw (stops, defer_destroy_idle) (Sweeps-refl s v)
        | inr (i, rest, head, inl (due, pops)) ↦
            let own = in_use alive s v i rest head in
            let swept = idle_swept alive s v i rest head own.0 own.1 own.2 due in
            rw (pops, defer_destroy_idle, own.1)
              (Swept-trans s (defer_destroy S X alive i own.0 (record s { idle = rest })).0 _ swept
                (defer_destroy_idle-Swept alive fuel
                  (defer_destroy S X alive i own.0 (record s { idle = rest })).0 swept.marks
                  (omega (arith, h, shorter alive s v i rest head own.0))))
      ]

  -- No connection that is marked is left.
  abbrev pub Clean : State → Option State → Type 0
  Clean s none = ⊥
  Clean s (some t) = Sweeps s t × ((j : ℕ) → is_marked S X t.pool j ≡ false)

  Clean-trans : (s t : State) (o : Option State) → Sweeps s t → Clean t o → Clean s o
  Clean-trans s t none h k = k
  Clean-trans s t (some u) h k = (Sweeps-trans s t u h k.0, k.1)

  module _ (s : State) (v : Marks S X s) (i : ℕ) (rest : X.Links)
      (head : nodes s.kill ≡ i ∷ nodes rest) where
    abbrev released : State
    released = record s {
      kill = rest;
      pool = S.release s.pool i;
      connection_count = sub64 s.connection_count 1;
    }

    released-Sweeps : Sweeps s released
    released-Sweeps = record {
      marks = record {
        killed = λ j. ground (arith, v.killed j, v.killed i, head, S.get-release s.pool i j);
        waiting = λ j. ground (arith, v.waiting j, v.killed i, head, S.get-release s.pool i j);
      };
      clock = refl;
      kept = λ j h. ground (arith, h, S.get-release s.pool i j);
      stays = λ j c e active. ground (arith, e, active, v.killed j, head, S.get-release s.pool i j);
    }

  clean_dying-Clean :
      (fuel : ℕ) (s : State)
      → Marks S X s
      → length (nodes s.kill) < fuel
      → Clean s (clean_dying S X fuel s)
  unfolding clean_dying
  clean_dying-Clean zero s v h = omega (arith, h)
  clean_dying-Clean (suc fuel) s v h = elim (X.pop_head_if_lem s.kill (λ i. true)) [
    | inl (e, stops) ↦ rw (stops, clean_dying) (Sweeps-refl s v, λ j. ground (arith, v.killed j, e))
    | inr (i, rest, head, inr (refused, stops)) ↦ absurd (ground (arith, refused))
    | inr (i, rest, head, inl (always, pops)) ↦
        let swept = released-Sweeps s v i rest head in
        rw (pops, clean_dying)
          (Clean-trans s (released s v i rest head)
            (clean_dying S X fuel (released s v i rest head)) swept
            (clean_dying-Clean fuel (released s v i rest head) swept.marks
              (omega (arith, h, ap length head))))
  ]

  pub sweep_connections-Clean :
      (alive : ℕ → Bool) (s : State) → Marks S X s → Clean s (sweep_connections S X alive s)
  unfolding sweep_connections
  sweep_connections-Clean alive s v =
      go (defer_destroy_idle S X alive (suc (length (nodes s.idle))) s)
        (defer_destroy_idle-Swept alive (suc (length (nodes s.idle))) s v (omega arith))
    where
      go :
          (o : Option State)
          → Swept s o
          → Clean s
              (elim o [ none ↦ none | some t ↦ clean_dying S X (suc (length (nodes t.kill))) t ])
      go none h = h
      go (some t) h =
          Clean-trans s t (clean_dying S X (suc (length (nodes t.kill))) t) h
            (clean_dying-Clean (suc (length (nodes t.kill))) t h.marks (omega arith))
