-- ===== src/Relay/Connections/Marks.antt =====
-- The connections that are marked are those of the kill list.
use pp.Prelude.{
  ℕ, ◌≤◌, ◌≡◌, Bool, true, false, not, none, some, arith, Bool-cases, inl, inr, refl, sym,
}
use pp.Xel.Storage.{Storage}
use pp.Xel.NodeList.{NodeList}
use pp.Auth.References.{bit, occurrences}
use pp.Auth.References.Pool.{occurrences-append}
use pp.RequestMap.Counts.{occurrences-without}
use pp.Relay.Connections.{
  Connection, Connections, grab_idle, grab_kill, keep_connection_alive, defer_destroy,
}

module _ (S : Storage Connection) (X : NodeList) where
  open S use {Pool, check_and_get, write}
  open X use {nodes}

  abbrev pub is_marked : Pool → ℕ → Bool
  is_marked p i = elim (check_and_get p i) [ none ↦ false | some c ↦ c.delete_mark ]

  abbrev pub is_open : Pool → ℕ → Bool
  is_open p i = elim (check_and_get p i) [ none ↦ false | some c ↦ not c.delete_mark ]

  -- A marked connection is linked once in the kill list, and no other is; the idle list has open
  -- connections alone, each at most once.
  pub record Marks (s : Connections S X) : Type 0 where
    pub killed : (i : ℕ) → occurrences i (nodes s.kill) ≡ bit (is_marked s.pool i)
    pub waiting : (i : ℕ) → occurrences i (nodes s.idle) ≤ bit (is_open s.pool i)

  module _ (s : Connections S X) (v : Marks s) (i : ℕ) (c : Connection)
      (own : check_and_get s.pool i ≡ some c) where
    -- A write to a connection that keeps its mark.
    pub write-Marks :
        (d : Connection)
        → d.delete_mark ≡ c.delete_mark
        → Marks (record s { pool = write s.pool i d })
    write-Marks d e = record {
      killed = λ j. ground (arith, v.killed j, S.get-write s.pool i d c j own, own, e);
      waiting = λ j. ground (arith, v.waiting j, S.get-write s.pool i d c j own, own, e);
    }

    grab_idle-Marks : c.delete_mark ≡ false → Marks (grab_idle S X i s)
    unfolding grab_idle
    grab_idle-Marks e = record {
      killed = λ j. ground (
        arith,
        v.killed j,
        own,
        e,
        X.nodes-unlink s.kill i,
        occurrences-without i j (nodes s.kill),
      );
      waiting = λ j. ground (
        arith,
        v.waiting j,
        own,
        e,
        X.nodes-add_tail (X.unlink s.idle i) i,
        X.nodes-unlink s.idle i,
        occurrences-append j (nodes (X.unlink s.idle i)) i,
        occurrences-without i j (nodes s.idle),
      );
    }

  pub defer_destroy-Marks :
      (alive : ℕ → Bool) (i : ℕ) (c : Connection) (s : Connections S X)
      → Marks s
      → check_and_get s.pool i ≡ some c
      → Marks (defer_destroy S X alive i c s).0
  unfolding defer_destroy grab_kill
  defer_destroy-Marks alive i c s v own = elim (Bool-cases c.delete_mark) [
    | inl marked ↦ rw (marked, defer_destroy) v
    | inr fresh ↦
        rw (fresh, defer_destroy)
          (record {
            killed = λ j. ground (
              arith,
              v.killed j,
              S.get-write s.pool i
                  (record c { delete_mark = true; create_connection_future_handle = 0 }) c j own,
              own,
              fresh,
              X.nodes-add_tail (X.unlink s.kill i) i,
              X.nodes-unlink s.kill i,
              occurrences-append j (nodes (X.unlink s.kill i)) i,
              occurrences-without i j (nodes s.kill),
            );
            waiting = λ j. ground (
              arith,
              v.waiting j,
              S.get-write s.pool i
                  (record c { delete_mark = true; create_connection_future_handle = 0 }) c j own,
              own,
              fresh,
              X.nodes-unlink s.idle i,
              occurrences-without i j (nodes s.idle),
            );
          })
  ]

  pub keep_alive-Marks :
      (i : ℕ) (c : Connection) (s : Connections S X)
      → Marks s
      → check_and_get s.pool i ≡ some c
      → Marks (keep_connection_alive S X i c s).1
  unfolding keep_connection_alive
  keep_alive-Marks i c s v own = elim (Bool-cases c.delete_mark) [
    | inl marked ↦ rw (marked, keep_connection_alive) v
    | inr fresh ↦
        rw (fresh, keep_connection_alive)
          (grab_idle-Marks (record s { pool = write s.pool i d })
            (write-Marks s v i c own d (sym fresh)) i d
            (ground (arith, S.get-write s.pool i d c i own)) refl)
  ]
    where
      d : Connection
      d = record c { timestamp_ms = s.now; delete_mark = false }
