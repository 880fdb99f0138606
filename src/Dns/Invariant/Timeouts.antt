-- ===== src/Dns/Invariant/Timeouts.antt =====
-- The queries that take too long are given up, with no assertion failed.
use pp.Prelude.{
  ℕ, zero, suc, ◌<◌, ◌≡◌, Bool, true, false, List, [], ◌∷◌, Option, none, some, length, arith, inl,
  inr, refl, subst, ap,
}
use pp.Xel.Storage.{Storage}
use pp.Xel.NodeList.{NodeList}
use pp.Auth.References.Pool.{occurrences-append}
use pp.Dns.{
  RequestNode, SourceNode, CacheResult, Resolver, Answer, Outcome, after, set_node, give_nothing,
  dns_query_timeout_ms,
}
use pp.Dns.Ticking.{
  Answered, answer_all, settle, is_older, head_unfinished, no_result,
  process_request_timeout_cache_nodes,
}
use pp.Dns.Order.{Ascending-tail}
use pp.Dns.Picks.{give_nothing-Gives}
use pp.Dns.Invariant.{Resolving, times, HasResult}
use pp.Dns.Invariant.Settling.{Ends, settle-Ends}

module _ (Address : Type 0) (unknown : Address) (S : Storage (RequestNode Address))
    (T : Storage SourceNode) (X : NodeList) (owner : ℕ → ℕ) where
  open X use {Links, nodes}

  abbrev State : Type 0
  State = Resolver Address S T X

  abbrev Inv : List ℕ → State → Type 0
  Inv left s = Resolving Address S T X left owner s

  abbrev Done : List ℕ → (now : ℕ) → Outcome Address S T X → Type 0
  Done left now o = Ends Address unknown S T X left owner now o

  pub head-unfinished : (s : State) → Inv [] s → head_unfinished Address unknown S T X s ≡ true
  head-unfinished s v = go (nodes s.cache_request_timeout_list) refl
    where
      go :
          (l : List ℕ)
          → nodes s.cache_request_timeout_list ≡ l
          → head_unfinished Address unknown S T X s ≡ true
      go [] e = rw (e, head_unfinished) refl
      go (k ∷ ks) e = rw (e, head_unfinished) (ground (arith, v.running k, e))

  -- No query that runs is older than the timeout.
  abbrev pub Answers : (now : ℕ) → Outcome Address S T X → Type 0
  Answers now none = ⊥
  Answers now (some (t, es)) =
      Inv [] t
      × (t.now ≡ now)
      × (X.pop_head_if t.cache_request_timeout_list
            (is_older Address unknown S T X dns_query_timeout_ms t)
          ≡ none)

  Answers-after :
      (now : ℕ) (es : List (Answer Address)) (o : Outcome Address S T X)
      → Answers now o
      → Answers now (after Address S T X es o)
  Answers-after now es none h = h
  Answers-after now es (some (t, fs)) h = h

  unfinished_result :
      (finished : Bool) (o : Option (CacheResult Address))
      → HasResult Address S T X finished o
      → finished ≡ false
      → o ≡ none
  unfinished_result false none h e = refl
  unfinished_result false (some r) h e = absurd h
  unfinished_result true o h e = absurd (ground (arith, e))

  module _ (s : State) (v : Inv [] s) (k : ℕ) (rest : Links)
      (head : nodes s.cache_request_timeout_list ≡ k ∷ nodes rest) where
    below : k < s.cache_node_count
    below = ground (arith, v.running k, head)

    no_result_yet : (s.cache_node k).result ≡ none
    no_result_yet =
        unfinished_result (s.cache_node k).query_finished (s.cache_node k).result
          (v.results k below) (ground (arith, v.running k, head))

    abbrev popped : State
    popped = record s {
      cache_request_timeout_list = rest;
      cache_timeout_list = X.add_tail s.cache_timeout_list k;
    }

    popped-Ends :
        (alive : ℕ → Bool)
        → Done [] s.now (
            settle Address unknown S T X
              (give_nothing Address unknown)
              alive
              k
              (no_result Address unknown S T X)
              popped)
    popped-Ends alive =
        settle-Ends Address unknown S T X [] owner s v k below rest
          (X.add_tail s.cache_timeout_list k) s.on_going_dns_request_count
          (λ j. ground (arith, v.running j, v.running k, head))
          (λ j. ground (
            arith,
            v.running k,
            v.finished k,
            head,
            X.nodes-add_tail s.cache_timeout_list k,
            occurrences-append j (nodes s.cache_timeout_list) k,
          ))
          (Ascending-tail (times Address S T X s) 1 k (nodes rest) s.now (rw head at v.ascending))
          (give_nothing Address unknown) (give_nothing-Gives Address unknown) alive
          (no_result Address unknown S T X) (record { four = omega arith; six = omega arith })

  abbrev Sizes : ℕ → Outcome Address S T X → Type 0
  Sizes fuel none = Unit
  Sizes fuel (some (t, es)) = length (nodes t.cache_request_timeout_list) < fuel

  settle-Sizes :
      (alive : ℕ → Bool) (k fuel : ℕ) (s : State)
      → length (nodes s.cache_request_timeout_list) < fuel
      → Sizes fuel (
          settle Address unknown S T X
            (give_nothing Address unknown)
            alive
            k
            (no_result Address unknown S T X)
            s)
  unfolding settle
  settle-Sizes alive k fuel s h = go (
      answer_all Address unknown S T X (give_nothing Address unknown) alive
        (nodes (s.cache_node k).pending_source_request_list) (no_result Address unknown S T X)
        s.dns_source_request_pool)
    where
      go :
          (o : Answered Address unknown S T X)
          → Sizes fuel (elim o [
            | none ↦ none
            | some (r', p, es) ↦ some (
              record (set_node Address S T X k
                  (record {
                    query_finished = true;
                    timestamp_ms = s.now;
                    pending_source_request_list = X.empty;
                    result = some r';
                  })
                  s) { dns_source_request_pool = p },
              es,
            )
          ])
      go none = tt
      go (some (r', p, es)) = h

  pub process_request_timeout-Answers :
      (alive : ℕ → Bool) (fuel : ℕ) (s : State)
      → Inv [] s
      → length (nodes s.cache_request_timeout_list) < fuel
      → Answers s.now (process_request_timeout_cache_nodes Address unknown S T X fuel alive s)
  unfolding process_request_timeout_cache_nodes
  process_request_timeout-Answers alive zero s v h = omega (arith, h)
  process_request_timeout-Answers alive (suc fuel) s v h =
      elim (X.pop_head_if_lem s.cache_request_timeout_list
        (is_older Address unknown S T X dns_query_timeout_ms s)) [
          | inl (empty, stops) ↦
              rw (head-unfinished s v, stops, process_request_timeout_cache_nodes) (v, refl, stops)
          | inr (k, rest, head, inr (young, stops)) ↦
              rw (head-unfinished s v, stops, process_request_timeout_cache_nodes) (v, refl, stops)
          | inr (k, rest, head, inl (old, pops)) ↦
              rw
                (
                  head-unfinished s v,
                  pops,
                  no_result_yet s v k rest head,
                  process_request_timeout_cache_nodes,
                )
                (go
                  (λ t same shorter w.
                    subst
                      (λ n.
                        Answers n
                          (process_request_timeout_cache_nodes Address unknown S T X fuel alive t))
                      same (process_request_timeout-Answers alive fuel t w shorter))
                  (settle Address unknown S T X (give_nothing Address unknown) alive k
                    (no_result Address unknown S T X) (popped s v k rest head))
                  (settle-Sizes alive k fuel (popped s v k rest head)
                    (omega (arith, h, ap length head)))
                  (popped-Ends s v k rest head alive))
        ]
    where
      go :
          ((t : State)
            → t.now ≡ s.now
            → length (nodes t.cache_request_timeout_list) < fuel
            → Inv [] t
            → Answers s.now
                (process_request_timeout_cache_nodes Address unknown S T X fuel alive t))
          → (o : Outcome Address S T X) → Sizes fuel o
          → Done [] s.now o
          → Answers s.now (elim o [
            | none ↦ none
            | some (t, es) ↦
                after Address S T X es
                  (process_request_timeout_cache_nodes Address unknown S T X fuel alive t)
          ])
      go next none small h = absurd h
      go next (some (t, es)) small h =
          Answers-after s.now es
            (process_request_timeout_cache_nodes Address unknown S T X fuel alive t)
            (next t h.1 small h.0)
