-- ===== src/Relay/Connections/Steps.antt =====
-- Every operation on the connections keeps their marks and lists in step.
use pp.Prelude.{
  List, ℕ, ◌≡◌, Bool, [], none, some, arith, ◌==◌, Option-cases, Bool-cases, inl, inr, refl, Bytes,
  subst,
}
use pp.Xel.Storage.{Storage}
use pp.Xel.NodeList.{NodeList}
use pp.Relay.Connections.{
  Connection, Connections, keep_connection_alive, create_relay_connection, destroy_relayed,
  on_connected, on_target_close, on_target_data,
}
use pp.Relay.Connections.Marks.{Marks, write-Marks, defer_destroy-Marks, keep_alive-Marks}
use pp.Xel.NetAddress.{NetAddress}
use pp.Relay.Devices.{Device}
use pp.Relay.Connections.Resolved.{DnsFuture, tick_connections}
use pp.Relay.Connections.Creating.{create-Marks}
use pp.Relay.Connections.Ticking.{Ticked, tick_connections-Ticked}

module _ (N : NetAddress) (devices : List (Device N.Address)) (S : Storage Connection)
    (X : NodeList) where
  open S use {check_and_get}

  abbrev State : Type 0
  State = Connections S X

  -- An event of a connection comes with the connection that its identifier stands for.
  pub data Step (s : State) : State → Type 0 where
    creates :
        (can_connect : Bool) (proxy_side future : ℕ)
        → Step s (create_relay_connection S X can_connect proxy_side future s).0
    destroys : (alive : ℕ → Bool) (i : ℕ) → Step s (destroy_relayed S X alive i s).0
    connects :
        (alive : ℕ → Bool) (i : ℕ) (c : Connection)
        → check_and_get s.pool i ≡ some c
        → Step s (on_connected S X alive i c s).0
    closes :
        (alive : ℕ → Bool) (i : ℕ) (c : Connection)
        → check_and_get s.pool i ≡ some c
        → Step s (on_target_close S X alive i c s).0
    receives :
        (i : ℕ) (c : Connection) (payload : Bytes)
        → check_and_get s.pool i ≡ some c
        → Step s (on_target_data S X i c payload s).1
    ticks :
        {t : State} (alive : ℕ → Bool) (fs : List (DnsFuture N.Address × Bool)) (now : ℕ)
        → tick_connections N devices S X alive fs now s ≡ some t
        → Step s t

  pub data Reachable : State → Type 0 where
    start :
        (s : State)
        → ((i : ℕ) → check_and_get s.pool i ≡ none)
        → X.nodes s.idle ≡ []
        → X.nodes s.kill ≡ []
        → Reachable s
    next : {s t : State} → Reachable s → Step s t → Reachable t

  destroy-Marks :
      (alive : ℕ → Bool) (i : ℕ) (s : State)
      → Marks S X s
      → Marks S X (destroy_relayed S X alive i s).0
  unfolding destroy_relayed
  destroy-Marks alive i s v = elim (Option-cases (check_and_get s.pool i)) [
    | inl missing ↦ rw (missing, destroy_relayed) v
    | inr (c, own) ↦
        let c' : Connection = record c { create_connection_future_handle = 0 } in
        rw (own, destroy_relayed)
          (defer_destroy-Marks S X alive i c' (record s { pool = S.write s.pool i c' })
            (write-Marks S X s v i c own c' refl) (ground (arith, S.get-write s.pool i c' c i own)))
  ]

  connect-Marks :
      (alive : ℕ → Bool) (i : ℕ) (c : Connection) (s : State)
      → Marks S X s
      → check_and_get s.pool i ≡ some c
      → Marks S X (on_connected S X alive i c s).0
  unfolding on_connected
  connect-Marks alive i c s v own = elim (Bool-cases (c.create_connection_future_handle == 0)) [
    | inl done ↦ rw (done, on_connected) v
    | inr pending ↦ elim (Bool-cases (alive c.create_connection_future_handle)) [
      | inr lost ↦ rw (pending, on_connected, lost) written
      | inl there ↦
          rw (pending, on_connected, there)
            (keep_alive-Marks S X i c' (record s { pool = S.write s.pool i c' }) written
              (ground (arith, S.get-write s.pool i c' c i own)))
    ]
  ]
    where
      c' : Connection
      c' = record c { create_connection_future_handle = 0 }

      written : Marks S X (record s { pool = S.write s.pool i c' })
      written = write-Marks S X s v i c own c' refl

  receive-Marks :
      (i : ℕ) (c : Connection) (payload : Bytes) (s : State)
      → Marks S X s
      → check_and_get s.pool i ≡ some c
      → Marks S X (on_target_data S X i c payload s).1
  unfolding on_target_data
  receive-Marks i c payload s v own = elim (Bool-cases (keep_connection_alive S X i c s).0) [
    | inl alive ↦ rw (alive, on_target_data) (keep_alive-Marks S X i c s v own)
    | inr marked ↦ rw (marked, on_target_data) (keep_alive-Marks S X i c s v own)
  ]

  step-Marks : (s t : State) → Marks S X s → Step s t → Marks S X t
  unfolding on_target_close
  step-Marks s t v (creates can_connect proxy_side future) =
      create-Marks S X proxy_side future s can_connect v
  step-Marks s t v (destroys alive i) = destroy-Marks alive i s v
  step-Marks s t v (connects alive i c own) = connect-Marks alive i c s v own
  step-Marks s t v (closes alive i c own) = defer_destroy-Marks S X alive i c s v own
  step-Marks s t v (receives i c payload own) = receive-Marks i c payload s v own
  step-Marks s t v (ticks alive fs now e) =
      (subst (Ticked N devices S X alive fs now s) e
        (tick_connections-Ticked N devices S X alive fs now s v)).marks

  -- In every state that the service reaches from empty lists and pools, a connection that is marked
  -- for its end is linked once in the kill list and no other is, and the idle list has connections
  -- in use alone that are not marked, each at most once.
  pub reachable-Marks : (s : State) → Reachable s → Marks S X s
  reachable-Marks s (start s' none_used e1 e2) = record {
    killed = λ i. ground (arith, none_used i, e2);
    waiting = λ i. ground (arith, none_used i, e1);
  }
  reachable-Marks s (next {s = r} before step) = step-Marks r s (reachable-Marks r before) step
