-- ===== src/RequestMap/Counts.antt =====
-- The requests in use are those that are linked, and they are counted.
use pp.Prelude.{
  ℕ, ◌+◌, ◌%◌, ◌^◌, ◌≡◌, ◌≢◌, List, [], ◌∷◌, none, some, arith, ◌==◌, if◌then◌else◌, Option-cases,
  Bool-cases, inl, inr, refl, length, length-append,
}
use pp.Xel.Storage.{Storage}
use pp.Xel.NodeList.{NodeList, without}
use pp.Auth.References.{bit, occurrences, is_some}
use pp.Auth.References.Pool.{occurrences-append}
use pp.RequestMap.{
  SourceRequest, SourceRequestNode, RequestMap, acquire, drop_node, get_and_release,
}

pub occurrences-without :
    (n i : ℕ) (xs : List ℕ)
    → occurrences i (without n xs) ≡ (if n == i then 0 else occurrences i xs)
occurrences-without n i [] = ground arith
occurrences-without n i (x ∷ xs) = ground (arith, occurrences-without n i xs)

pub length-without : (n : ℕ) (xs : List ℕ) → length (without n xs) + occurrences n xs ≡ length xs
length-without n [] = omega arith
length-without n (x ∷ xs) = ground (arith, length-without n xs)

module _ (Handle : Type 0) (S : Storage (SourceRequestNode Handle)) (X : NodeList) where
  open S use {Pool, check_and_get, write}
  open X use {nodes}

  abbrev State : Type 0
  State = RequestMap Handle S X

  -- A node in use is linked once and knows its identifier, and the counter is their number.
  pub record Counts (s : State) : Type 0 where
    pub listed :
        (i : ℕ) → occurrences i (nodes s.timeout_queue) ≡ bit (is_some (check_and_get s.pool i))
    pub counted : s.total_request_count ≡ length (nodes s.timeout_queue) % 2 ^ 64

  drop_node-Counts :
      (i : ℕ) (n : SourceRequestNode Handle) (s : State)
      → Counts s
      → check_and_get s.pool i ≡ some n
      → Counts (drop_node Handle S X i s)
  unfolding drop_node
  drop_node-Counts i n s v own = record {
    listed = λ j. ground (
      arith,
      v.listed j,
      S.get-release s.pool i j,
      X.nodes-unlink s.timeout_queue i,
      occurrences-without i j (nodes s.timeout_queue),
    );
    counted = ground (
      arith,
      v.counted,
      v.listed i,
      own,
      X.nodes-unlink s.timeout_queue i,
      length-without i (nodes s.timeout_queue),
    );
  }

  get_and_release-Counts :
      (i : ℕ) (s : State) → Counts s → Counts (get_and_release Handle S X i s).1
  unfolding get_and_release
  get_and_release-Counts i s v = elim (Option-cases (check_and_get s.pool i)) [
    | inl e ↦ rw (e, get_and_release) v
    | inr (n, e) ↦ rw (e, get_and_release) (drop_node-Counts i n s v e)
  ]

  found :
      (t : State) (i : ℕ) {n : SourceRequestNode Handle}
      → check_and_get t.pool i ≡ some n
      → (get_and_release Handle S X i t).0 ≡ some n.request
  unfolding get_and_release
  found t i e = rw (e, get_and_release) refl

  gone :
      (t : State) (i : ℕ)
      → (get_and_release Handle S X i (get_and_release Handle S X i t).1).0 ≡ none
  unfolding get_and_release drop_node
  gone t i = elim (Option-cases (check_and_get t.pool i)) [
    | inl e ↦ ground (arith, e)
    | inr (n, e) ↦ ground (arith, e, S.get-release t.pool i i)
  ]

  module _ (h : Handle) (r : ℕ) (s : State) where
    -- The identifier and the map after the registration, and what is registered.
    abbrev given : ℕ
    given = (acquire Handle S X h r s).0

    abbrev after : State
    after = (acquire Handle S X h r s).1

    abbrev registered : SourceRequest Handle
    registered = record {
      source_handle = h;
      source_request_id = r;
      source_request_timestamp_ms = s.now;
    }

    acquire-own :
        given ≢ 0
        → (check_and_get after.pool given
            ≡ some (record { request = registered; request_id = given }))
          × ((S.acquire s.pool).0 ≡ given)
    unfolding acquire
    acquire-own z = elim (Bool-cases ((S.acquire s.pool).0 == 0)) [
      | inl full ↦ absurd (ground (arith, full, z))
      | inr room ↦
          rw (room, acquire, after, given)
            (
              ground (
                arith,
                room,
                S.get-acquire s.pool (S.acquire s.pool).0 (ground (arith, room)),
                S.get-write (S.acquire s.pool).1 (S.acquire s.pool).0
                    (record { request = registered; request_id = (S.acquire s.pool).0 }) S.initial
                    (S.acquire s.pool).0
                    (ground (
                      arith,
                      room,
                      S.get-acquire s.pool (S.acquire s.pool).0 (ground (arith, room)),
                    )),
              ),
              refl,
            )
    ]

    pub acquire-Counts : Counts s → Counts after
    unfolding acquire
    acquire-Counts v = elim (Bool-cases ((S.acquire s.pool).0 == 0)) [
      | inl full ↦
          rw (full, acquire, after)
            (record {
              listed = λ j.
                  ground (arith, v.listed j, S.get-acquire_full s.pool j (ground (arith, full)));
              counted = v.counted;
            })
      | inr room ↦
          rw (room, acquire, after)
            (record {
              listed = λ j. ground (
                arith,
                v.listed j,
                S.acquire_fresh s.pool,
                S.get-acquire s.pool j (ground (arith, room)),
                S.get-write (S.acquire s.pool).1 (S.acquire s.pool).0
                    (record { request = registered; request_id = (S.acquire s.pool).0 }) S.initial j
                    (ground (
                      arith,
                      room,
                      S.get-acquire s.pool (S.acquire s.pool).0 (ground (arith, room)),
                    )),
                X.nodes-add_tail s.timeout_queue (S.acquire s.pool).0,
                occurrences-append j (nodes s.timeout_queue) (S.acquire s.pool).0,
              );
              counted = ground (
                arith,
                v.counted,
                X.nodes-add_tail s.timeout_queue (S.acquire s.pool).0,
                length-append (nodes s.timeout_queue) ((S.acquire s.pool).0 ∷ []),
              );
            })
    ]

    -- A request that is registered is given back once, with the handle and the identifier of its
    -- source and the time; the registration and its end keep the counter right.
    pub acquire-get :
        Counts s
        → given ≢ 0
        → Counts after
          × ((get_and_release Handle S X given after).0 ≡ some registered)
          × Counts (get_and_release Handle S X given after).1
          × ((get_and_release Handle S X given (get_and_release Handle S X given after).1).0 ≡ none)
    acquire-get v z = (
      acquire-Counts v,
      found after given (acquire-own z).0,
      get_and_release-Counts given after (acquire-Counts v),
      gone after given,
    )
