-- ===== src/Relay/Connections/Creating.antt =====
-- A connection to an address is created: CreateConnection of
-- ppp/lib_component/relay_local_device_service.cpp.
use pp.Prelude.{
  ℕ, ◌≡◌, ◌⊎◌, Bool, true, false, none, some, arith, ◌==◌, if◌then◌else◌, Bool-cases, inl, inr,
  refl,
}
use pp.Xel.Storage.{Storage}
use pp.Xel.NodeList.{NodeList}
use pp.Relay.Connections.{Connection, Connections, create_relay_connection}
use pp.Relay.Connections.Marks.{Marks}

module _ (S : Storage Connection) (X : NodeList) where
  open S use {check_and_get}

  abbrev State : Type 0
  State = Connections S X

  module _ (proxy_side future : ℕ) (s : State) where
    abbrev fresh : ℕ
    fresh = (S.acquire s.pool).0

    -- The connection that is created.
    abbrev pub made : Connection
    made = record {
      connection_id = fresh;
      proxy_side_connection_id = proxy_side;
      create_connection_future_handle = future;
      delete_mark = false;
      timestamp_ms = 0;
    }

    acquired :
        ((fresh == 0) ≡ false)
        → (j : ℕ)
        → check_and_get (S.acquire s.pool).1 j
          ≡ (if fresh == j then some S.initial else check_and_get s.pool j)
    acquired room j = S.get-acquire s.pool j (ground (arith, room))

    written :
        ((fresh == 0) ≡ false)
        → (j : ℕ)
        → check_and_get (S.write (S.acquire s.pool).1 fresh made) j
          ≡ (if fresh == j then some made else check_and_get (S.acquire s.pool).1 j)
    written room j =
        S.get-write (S.acquire s.pool).1 fresh made S.initial j
          (ground (arith, acquired room fresh))

    pub create-now :
        (can_connect : Bool)
        → (create_relay_connection S X can_connect proxy_side future s).0.now ≡ s.now
    unfolding create_relay_connection
    create-now can_connect = ground arith

    -- Other connections stay, and a new one is the one that is created.
    pub create-pool :
        (can_connect : Bool) (j : ℕ)
        → (check_and_get (create_relay_connection S X can_connect proxy_side future s).0.pool j
            ≡ check_and_get s.pool j)
          ⊎ ((can_connect ≡ true)
              × (check_and_get s.pool j ≡ none)
              × (check_and_get
                    (create_relay_connection S X can_connect proxy_side future s).0.pool
                    j
                  ≡ some made))
    unfolding create_relay_connection
    create-pool can_connect j = elim (Bool-cases (fresh == 0)) [
      | inl full ↦
          rw (full, create_relay_connection)
            (inl (S.get-acquire_full s.pool j (ground (arith, full))))
      | inr room ↦ elim (Bool-cases can_connect) [
        | inr fails ↦
            rw (room, create_relay_connection, fails)
              (inl (
                ground (
                  arith,
                  S.acquire_fresh s.pool,
                  acquired room j,
                  S.get-release (S.acquire s.pool).1 fresh j,
                )))
        | inl works ↦ elim (Bool-cases (fresh == j)) [
          | inl same ↦
              rw (room, create_relay_connection, works)
                (inr (
                  refl,
                  ground (arith, same, S.acquire_fresh s.pool),
                  ground (arith, same, written room j),
                ))
          | inr other ↦
              rw (room, create_relay_connection, works)
                (inl (ground (arith, other, acquired room j, written room j)))
        ]
      ]
    ]

    pub create-Marks :
        (can_connect : Bool)
        → Marks S X s
        → Marks S X (create_relay_connection S X can_connect proxy_side future s).0
    unfolding create_relay_connection
    create-Marks can_connect v = elim (Bool-cases (fresh == 0)) [
      | inl full ↦
          rw (full, create_relay_connection)
            (record {
              killed = λ j.
                  ground (arith, v.killed j, S.get-acquire_full s.pool j (ground (arith, full)));
              waiting = λ j.
                  ground (arith, v.waiting j, S.get-acquire_full s.pool j (ground (arith, full)));
            })
      | inr room ↦ elim (Bool-cases can_connect) [
        | inr fails ↦
            rw (room, create_relay_connection, fails)
              (record {
                killed = λ j. ground (
                  arith,
                  v.killed j,
                  S.acquire_fresh s.pool,
                  acquired room j,
                  S.get-release (S.acquire s.pool).1 fresh j,
                );
                waiting = λ j. ground (
                  arith,
                  v.waiting j,
                  S.acquire_fresh s.pool,
                  acquired room j,
                  S.get-release (S.acquire s.pool).1 fresh j,
                );
              })
        | inl works ↦
            rw (room, create_relay_connection, works)
              (record {
                killed = λ j.
                    ground
                      (arith, v.killed j, S.acquire_fresh s.pool, acquired room j, written room j);
                waiting = λ j.
                    ground
                      (arith, v.waiting j, S.acquire_fresh s.pool, acquired room j, written room j);
              })
      ]
    ]
