-- ===== src/Dns/Invariant/Settling.antt =====
-- A cache node that gets its result answers all the requests that wait for it.
use pp.Prelude.{
  ℕ, ◌≤◌, ◌<◌, ◌≡◌, Bool, true, List, [], ◌∷◌, none, some, ◌==◌, if◌then◌else◌, arith, Option-cases,
  Bool-cases, inl, inr, refl,
}
use pp.Xel.Storage.{Storage}
use pp.Xel.NodeList.{NodeList}
use pp.Auth.References.{bit, occurrences, is_some}
use pp.Dns.{RequestNode, SourceNode, CacheResult, Resolver, Answer, Give, Outcome}
use pp.Dns.Ticking.{Answered, answered_after, answer_all, settle}
use pp.Dns.Order.{Ascending, Ascending-same, Ascending-span}
use pp.Dns.Picks.{InRange, Gives}
use pp.Dns.Invariant.{Resolving, times}

module _ (Address : Type 0) (unknown : Address) (S : Storage (RequestNode Address))
    (T : Storage SourceNode) (X : NodeList) where
  open X use {Links, nodes}

  abbrev State : Type 0
  State = Resolver Address S T X

  -- All the requests are released, and no others.
  abbrev Releases : List ℕ → T.Pool → Answered Address unknown S T X → Type 0
  Releases is p none = ⊥
  Releases is p (some (r, q, es)) =
      InRange r
      × ((j : ℕ)
          → T.check_and_get q j ≡ (if occurrences j is == 0 then T.check_and_get p j else none))

  Releases-more :
      (i : ℕ) (is : List ℕ) (p : T.Pool) (o : Answered Address unknown S T X)
      → Releases is (T.release p i) o
      → Releases (i ∷ is) p o
  Releases-more i is p none h = h
  Releases-more i is p (some (r, q, fs)) h = (h.0, λ j. ground (arith, h.1 j, T.get-release p i j))

  Releases-after :
      (is : List ℕ) (p : T.Pool) (es : List (Answer Address)) (o : Answered Address unknown S T X)
      → Releases is p o
      → Releases is p (answered_after Address unknown S T X es o)
  Releases-after is p es none h = h
  Releases-after is p es (some (r, q, fs)) h = h

  module _ (give : Give Address unknown) (gives : Gives Address unknown give)
      (alive : ℕ → Bool) where
    answer_all-Releases :
        (is : List ℕ) (r : CacheResult Address) (p : T.Pool)
        → InRange r
        → ((j : ℕ) → occurrences j is ≤ bit (is_some (T.check_and_get p j)))
        → Releases is p (answer_all Address unknown S T X give alive is r p)
    unfolding answer_all
    answer_all-Releases [] r p v h = (v, λ j. refl)
    answer_all-Releases (i ∷ is) r p v h = elim (Option-cases (T.check_and_get p i)) [
      | inl e ↦ absurd (ground (arith, h i, e))
      | inr (n, e) ↦
          let rest : (j : ℕ)
              → occurrences j is ≤ bit (is_some (T.check_and_get (T.release p i) j)) =
            λ j. ground (arith, h j, h i, T.get-release p i j) in
          elim (Bool-cases (alive n.future_handle)) [
            | inr dead ↦
                rw (e, answer_all, dead)
                  (Releases-more i is p
                    (answer_all Address unknown S T X give alive is r (T.release p i))
                    (answer_all-Releases is r (T.release p i) v rest))
            | inl there ↦
                let (d, r', gave, v') = gives r v in
                rw (e, answer_all, there, gave)
                  (Releases-more i is p
                    (answered_after Address unknown S T X
                      (record { future = n.future_handle; answer = d } ∷ [])
                      (answer_all Address unknown S T X give alive is r' (T.release p i)))
                    (Releases-after is (T.release p i)
                      (record { future = n.future_handle; answer = d } ∷ [])
                      (answer_all Address unknown S T X give alive is r' (T.release p i))
                      (answer_all-Releases is r' (T.release p i) v' rest)))
          ]
    ]

  abbrev pub Ends : List ℕ → (ℕ → ℕ) → (now : ℕ) → Outcome Address S T X → Type 0
  Ends left owner now none = ⊥
  Ends left owner now (some (t, es)) = Resolving Address S T X left owner t × (t.now ≡ now)

  -- The node `k` leaves the list of running queries, and stands once in the list of results.
  module _ (left : List ℕ) (owner : ℕ → ℕ) (s : State) (v : Resolving Address S T X left owner s)
      (k : ℕ) (below : k < s.cache_node_count) (running finished : Links) (count : ℕ)
      (leaves : (j : ℕ)
        → occurrences j (nodes running)
          ≡ (if k == j then 0 else occurrences j (nodes s.cache_request_timeout_list)))
      (enters : (j : ℕ)
        → occurrences j (nodes finished)
          ≡ (if k == j then 1 else occurrences j (nodes s.cache_timeout_list)))
      (in_order : Ascending (times Address S T X s) 1 (nodes running) s.now) where
    abbrev moved : State
    moved = record s {
      cache_request_timeout_list = running;
      cache_timeout_list = finished;
      on_going_dns_request_count = count;
    }

    abbrev settled : CacheResult Address → T.Pool → State
    settled r q = record s {
      cache_request_timeout_list = running;
      cache_timeout_list = finished;
      on_going_dns_request_count = count;
      dns_source_request_pool = q;
      cache_node = λ j.
          if k == j
          then record {
            query_finished = true;
            timestamp_ms = s.now;
            pending_source_request_list = X.empty;
            result = some r;
          }
          else s.cache_node j;
    }

    settled-Resolving :
        (r : CacheResult Address) (q : T.Pool)
        → InRange r
        → ((j : ℕ)
            → T.check_and_get q j ≡ (
                if occurrences j (nodes (s.cache_node k).pending_source_request_list) == 0
                then T.check_and_get s.dns_source_request_pool j
                else none))
        → Resolving Address S T X left owner (settled r q)
    settled-Resolving r q in_range released = record {
      requests = v.requests;
      sources = λ i j. ground (arith, v.sources i j, v.sources i k, released i, X.nodes-empty);
      owners = λ i h. ground (arith, h, v.owners i, v.sources i k, released i);
      running = λ j. ground (arith, v.running j, leaves j);
      finished = λ j. ground (arith, v.finished j, enters j, below);
      results = λ j h. elim (Bool-cases (k == j)) [
        | inl same ↦ rw same in_range
        | inr other ↦ rw other (v.results j h)
      ];
      mapped = v.mapped;
      timed = λ j h. elim (Bool-cases (k == j)) [
        | inl same ↦
            rw (same, times)
              (λ z.
                omega (
                  arith,
                  z,
                  Ascending-span (times Address S T X s) 1 (nodes running) s.now in_order,
                ))
        | inr other ↦ rw (other, times) (v.timed j h)
      ];
      ascending =
          Ascending-same (times Address S T X s) (times Address S T X (settled r q)) 1
            (nodes running) s.now (λ j h. ground (arith, h, leaves j)) in_order;
    }

    module _ (give : Give Address unknown) (gives : Gives Address unknown give)
        (alive : ℕ → Bool) where
      pub settle-Ends :
          (r : CacheResult Address)
          → InRange r
          → Ends left owner s.now (settle Address unknown S T X give alive k r moved)
      unfolding settle
      settle-Ends r in_range =
          let pending = nodes (s.cache_node k).pending_source_request_list in
          answer (answer_all Address unknown S T X give alive pending r s.dns_source_request_pool) (
            answer_all-Releases give gives alive pending r s.dns_source_request_pool in_range
              (λ j. ground (arith, v.sources j k)))
        where
          answer :
              (o : Answered Address unknown S T X)
              → Releases
                  (nodes (s.cache_node k).pending_source_request_list)
                  s.dns_source_request_pool
                  o
              → Ends left owner s.now
                  (elim o [ none ↦ none | some (r', p, es) ↦ some (settled r' p, es) ])
          answer none h = h
          answer (some (r', p, es)) h = (settled-Resolving r' p h.0 h.1, refl)
