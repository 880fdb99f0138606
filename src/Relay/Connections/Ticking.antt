-- ===== src/Relay/Connections/Ticking.antt =====
-- Tick of ppp/lib_component/relay_local_device_service.cpp, for the connections.
use pp.Prelude.{
  ℕ, ◌+◌, ◌≤◌, ◌<◌, ◌^◌, ◌≡◌, ◌⊎◌, Bool, true, false, List, Option, none, some, arith, inl, inr,
  sym, subst, ◌∙◌,
}
use pp.Xel.Storage.{Storage}
use pp.Xel.NodeList.{NodeList}
use pp.Xel.NetAddress.{NetAddress}
use pp.Relay.Devices.{Device}
use pp.Relay.Connections.{
  Connection, Connections, Effect, sweep_connections, idle_connection_timeout_ms,
}
use pp.Relay.Connections.Resolved.{DnsFuture, process_dns_results, tick_connections}
use pp.Relay.Connections.Marks.{Marks, is_marked, is_open}
use pp.Relay.Connections.Cleaning.{Clean, is_active, sweep_connections-Clean}
use pp.Relay.Connections.Resolving.{
  Sided, OpensOneOf, Grows, Processed, process_dns_results-Processed,
}

module _ (N : NetAddress) (devices : List (Device N.Address)) (S : Storage Connection)
    (X : NodeList) (alive : ℕ → Bool) (fs : List (DnsFuture N.Address × Bool)) where
  open S use {check_and_get}

  abbrev State : Type 0
  State = Connections S X

  -- No marked connection is left; an open one was there as it is, or has been created for one of the
  -- futures; a connection of use stays.
  pub record Ticks (now : ℕ) (s t : State) : Type 0 where
    pub marks : Marks S X t
    pub clean : (j : ℕ) → is_marked S X t.pool j ≡ false
    pub opened :
        (j : ℕ)
        → is_open S X t.pool j ≡ true
        → (check_and_get t.pool j ≡ check_and_get s.pool j)
          ⊎ ((check_and_get s.pool j ≡ none)
              × OpensOneOf N devices S X alive fs (check_and_get t.pool j))
    pub stays :
        (j : ℕ) (c : Connection)
        → check_and_get s.pool j ≡ some c
        → is_active S X now c ≡ true
        → check_and_get t.pool j ≡ some c

  abbrev pub Ticked : (now : ℕ) → State → Option State → Type 0
  Ticked now s none = Sided N devices S X alive fs → ⊥
  Ticked now s (some t) = Ticks now s t

  pub tick_connections-Ticked :
      (now : ℕ) (s : State)
      → Marks S X s
      → Ticked now s (tick_connections N devices S X alive fs now s)
  unfolding tick_connections
  tick_connections-Ticked now s v =
      go (process_dns_results N devices S X alive fs (record s { now = now })) (
        process_dns_results-Processed N devices S X alive fs (record s { now = now })
          (record { killed = v.killed; waiting = v.waiting }))
    where
      swept :
          (t : State) (o : Option State)
          → Grows N devices S X alive (OpensOneOf N devices S X alive fs) (record s { now = now }) t
          → Clean S X t o
          → Ticked now s o
      swept t none h k = λ sided. k
      swept t (some u) h (w, clean) = record {
        marks = w.marks;
        clean = clean;
        opened = λ j open_j.
            let same = w.kept j open_j in
            elim (h.each j) [
              | inl old ↦ inl (same ∙ old)
              | inr (unused, new) ↦
                  inr (unused, subst (OpensOneOf N devices S X alive fs) (sym same) new)
            ];
        stays = λ j c e active. elim (h.each j) [
          | inl old ↦
              w.stays j c (old ∙ e) (subst (λ n. is_active S X n c ≡ true) (sym h.clock) active)
          | inr (unused, new) ↦ absurd (ground (arith, unused, e))
        ];
      }

      go :
          (o : Option (State × List Effect))
          → Processed N devices S X alive fs (record s { now = now }) o
          → Ticked now s (elim o [ none ↦ none | some (t, es) ↦ sweep_connections S X alive t ])
      go none h = h
      go (some (t, es)) h =
          swept t (sweep_connections S X alive t) h (sweep_connections-Clean S X alive t h.marks)

  -- Not marked for its end, and heard of within the timeout.
  abbrev pub InUse : (now : ℕ) → Connection → Type 0
  InUse now c = (c.delete_mark ≡ false) × (now < c.timestamp_ms + idle_connection_timeout_ms)

  abbrev pub Cleaned : (now : ℕ) → State → Option State → Type 0
  Cleaned now s none = ⊥
  Cleaned now s (some t) =
      Marks S X t
      × ((j : ℕ) → is_marked S X t.pool j ≡ false)
      × ((j : ℕ)
          → is_open S X t.pool j ≡ true
          → (check_and_get t.pool j ≡ check_and_get s.pool j)
            ⊎ ((check_and_get s.pool j ≡ none)
                × OpensOneOf N devices S X alive fs (check_and_get t.pool j)))
      × ((j : ℕ) (c : Connection)
          → check_and_get s.pool j ≡ some c
          → InUse now c
          → check_and_get t.pool j ≡ some c)

  -- Where the marks agree with the lists, every ready future names a connection of the proxy side,
  -- and the clock has run for the timeout, Tick ends and they agree afterwards. It leaves no
  -- connection that is marked for its end. An open connection is one that was there and is as it
  -- was, or a new one for a ready future that has not been given up, whose result has an address for
  -- its device to connect to. A connection that is not marked and was heard of within the timeout
  -- stays as it is.
  pub tick_connections-Cleaned :
      (now : ℕ) (s : State)
      → Marks S X s
      → Sided N devices S X alive fs
      → idle_connection_timeout_ms ≤ now
      → now < 2 ^ 64
      → Cleaned now s (tick_connections N devices S X alive fs now s)
  tick_connections-Cleaned now s v sided late short =
      go (tick_connections N devices S X alive fs now s) (tick_connections-Ticked now s v)
    where
      go : (o : Option State) → Ticked now s o → Cleaned now s o
      go none h = h sided
      go (some t) h = (
        h.marks,
        h.clean,
        h.opened,
        λ j c e used. h.stays j c e (ground (arith, used.0, used.1, late, short)),
      )
