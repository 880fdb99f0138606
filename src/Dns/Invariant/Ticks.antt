-- ===== src/Dns/Invariant/Ticks.antt =====
-- Tick ends with no assertion failed, and answers every request that has waited for too long.
use pp.Prelude.{
  ℕ, suc, ◌+◌, ◌≤◌, ◌<◌, ◌^◌, ◌≡◌, Bool, true, false, List, [], ◌∷◌, ◌++◌, none, some, ◌==◌, length,
  arith, Bool-cases, inl, inr, refl, subst,
}
use pp.Xel.Storage.{Storage}
use pp.Xel.NodeList.{NodeList}
use pp.Auth.References.{occurrences}
use pp.Dns.{
  RequestNode, SourceNode, Resolver, Answer, Outcome, dns_query_timeout_ms, dns_cache_timeout_ms,
}
use pp.Dns.Ticking.{
  dispatch_resolve_results, is_older, process_request_timeout_cache_nodes,
  process_timeout_cache_nodes, tick,
}
use pp.Dns.Order.{Ascending, Ascending-later, Ascending-member}
use pp.Dns.Invariant.{Resolving, is_waiting, times}
use pp.Dns.Invariant.Settling.{Ends}
use pp.Dns.Invariant.Dispatching.{dispatch-Ends}
use pp.Dns.Invariant.Timeouts.{Answers, head-unfinished, process_request_timeout-Answers}

module _ (Address : Type 0) (unknown : Address) (S : Storage (RequestNode Address))
    (T : Storage SourceNode) (X : NodeList) (owner : ℕ → ℕ) where
  open X use {Links, nodes}

  abbrev State : Type 0
  State = Resolver Address S T X

  abbrev Inv : List ℕ → State → Type 0
  Inv left s = Resolving Address S T X left owner s

  abbrev Done : List ℕ → (now : ℕ) → Outcome Address S T X → Type 0
  Done left now o = Ends Address unknown S T X left owner now o

  -- Every request that still waits belongs to a query that has been started since the timeout.
  abbrev pub Prompt : State → Type 0
  Prompt t =
      (i : ℕ)
      → is_waiting Address S T X t i ≡ true
      → t.now < times Address S T X t (owner i) + dns_query_timeout_ms

  -- The first node that runs, if there is one, is young, and so are the others.
  module _ (t : State) (v : Inv [] t) (late : dns_cache_timeout_ms ≤ t.now) (fits : t.now < 2 ^ 64)
      (stops : X.pop_head_if t.cache_request_timeout_list
          (is_older Address unknown S T X dns_query_timeout_ms t)
        ≡ none) where
    young :
        (k : ℕ)
        → is_older Address unknown S T X dns_query_timeout_ms t k ≡ false
        → t.now < times Address S T X t k + dns_query_timeout_ms
    young k h = ground (arith, h, late, fits)

    all_young :
        (k : ℕ)
        → 0 < occurrences k (nodes t.cache_request_timeout_list)
        → t.now < times Address S T X t k + dns_query_timeout_ms
    all_young k h =
        elim (X.pop_head_if_lem t.cache_request_timeout_list
          (is_older Address unknown S T X dns_query_timeout_ms t)) [
            | inl (empty, _) ↦ absurd (ground (arith, h, empty))
            | inr (j, rest, head, inl (old, pops)) ↦ absurd (ground (arith, stops, pops))
            | inr (j, rest, head, inr (fresh, _)) ↦
                let order : Ascending (times Address S T X t) 1 (j ∷ nodes rest) t.now =
                  rw head at v.ascending in
                elim (Bool-cases (j == k)) [
                  | inl same ↦ ground (arith, young j fresh, same)
                  | inr other ↦
                      let after_head =
                        Ascending-member (times Address S T X t) (times Address S T X t j) k
                          (nodes rest) t.now order.1 (ground (arith, h, head, other)) in
                      omega (arith, young j fresh, after_head)
                ]
          ]

    all-Prompt : Prompt t
    all-Prompt i h = all_young (owner i) (ground (arith, v.running (owner i), v.owners i h))

    none_expired : process_timeout_cache_nodes Address unknown S T X t ≡ some t
    unfolding process_timeout_cache_nodes
    none_expired =
        elim (X.pop_head_if_lem t.cache_request_timeout_list
          (is_older Address unknown S T X dns_cache_timeout_ms t)) [
            | inl (empty, stops') ↦
                rw
                  (
                    head-unfinished Address unknown S T X owner t v,
                    stops',
                    process_timeout_cache_nodes,
                  )
                  refl
            | inr (j, rest, head, inr (fresh, stops')) ↦
                rw
                  (
                    head-unfinished Address unknown S T X owner t v,
                    stops',
                    process_timeout_cache_nodes,
                  )
                  refl
            | inr (j, rest, head, inl (old, pops)) ↦
                absurd (ground (arith, all_young j (ground (arith, head)), old, late, fits))
          ]

  abbrev pub Ticked : (now : ℕ) → Outcome Address S T X → Type 0
  Ticked now none = ⊥
  Ticked now (some (t, es)) = Resolving Address S T X [] owner t × (t.now ≡ now) × Prompt t

  -- From a state in which the lists and pools agree no assertion fails in Tick, at a time that is
  -- not before the last one and not before the timeout of the cache. They agree afterwards, and every
  -- request that waits belongs to a query younger than its timeout.
  pub tick-Ticked :
      (alive : ℕ → Bool) (now : ℕ) (s : State)
      → Resolving Address S T X [] owner s
      → s.now ≤ now
      → dns_cache_timeout_ms ≤ now
      → now < 2 ^ 64
      → Ticked now (tick Address unknown S T X alive now s)
  unfolding tick
  tick-Ticked alive now s v later late fits =
      timeouts (dispatch_resolve_results Address unknown S T X alive (record s { now = now })) (
        dispatch-Ends Address unknown S T X owner alive (record s { now = now })
          (record {
            requests = v.requests;
            sources = v.sources;
            owners = v.owners;
            running = v.running;
            finished = v.finished;
            results = v.results;
            mapped = v.mapped;
            timed = v.timed;
            ascending =
                Ascending-later (times Address S T X s) 1 (nodes s.cache_request_timeout_list) s.now
                  now later v.ascending;
          }))
    where
      finish :
          (es : List (Answer Address)) (o : Outcome Address S T X)
          → Answers Address unknown S T X owner now o
          → Ticked now (elim o [
            | none ↦ none
            | some (u, fs) ↦ elim (process_timeout_cache_nodes Address unknown S T X u) [
              | none ↦ none
              | some w ↦ some (w, es ++ fs)
            ]
          ])
      finish es none h = h
      finish es (some (u, fs)) h =
          let late' : dns_cache_timeout_ms ≤ u.now = omega (arith, late, h.1) in
          let fits' : u.now < 2 ^ 64 = omega (arith, fits, h.1) in
          rw (none_expired u h.0 late' fits' h.2) (h.0, h.1, all-Prompt u h.0 late' fits' h.2)

      timeouts :
          (o : Outcome Address S T X)
          → Done [] now o
          → Ticked now (elim o [
            | none ↦ none
            | some (t, es) ↦
                elim (process_request_timeout_cache_nodes Address unknown S T X
                  (suc (length (nodes t.cache_request_timeout_list)))
                  alive
                  t) [
                    | none ↦ none
                    | some (u, fs) ↦ elim (process_timeout_cache_nodes Address unknown S T X u) [
                      | none ↦ none
                      | some w ↦ some (w, es ++ fs)
                    ]
                  ]
          ])
      timeouts none h = h
      timeouts (some (t, es)) h =
          finish es
            (process_request_timeout_cache_nodes Address unknown S T X
              (suc (length (nodes t.cache_request_timeout_list))) alive t)
            (subst
              (λ n. Answers Address unknown S T X owner n (
                process_request_timeout_cache_nodes Address unknown S T X
                  (suc (length (nodes t.cache_request_timeout_list))) alive t))
              h.1
              (process_request_timeout-Answers Address unknown S T X owner alive
                (suc (length (nodes t.cache_request_timeout_list))) t h.0 (omega arith)))
