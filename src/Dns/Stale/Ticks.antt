-- ===== src/Dns/Stale/Ticks.antt =====
-- Tick keeps the results of names.
use pp.Prelude.{
  ◌≡◌, ◌≢◌, ◌==◌, false, ℕ, zero, suc, Bool, true, List, [], ◌∷◌, ◌++◌, none, some, arith, sub64,
  Bytes, length, Bool-cases, Option-cases, inl, inr,
}
use pp.Xel.Storage.{Storage}
use pp.Xel.NodeList.{NodeList}
use pp.Dns.{
  RequestNode, SourceNode, CacheResult, Resolver, Answer, Outcome, after, set_node, Give,
  give_picked, give_nothing, dns_query_timeout_ms, dns_cache_timeout_ms,
}
use pp.Dns.Ticking.{
  answer_all, settle, dispatch_one, dispatch_all, dispatch_resolve_results, is_older,
  head_unfinished, no_result, process_request_timeout_cache_nodes, process_timeout_cache_nodes,
  tick, Answered,
}
use pp.Dns.Stale.{Cached, Keeps, Keeps-after}

module _ (Address : Type 0) (unknown : Address) (S : Storage (RequestNode Address))
    (T : Storage SourceNode) (X : NodeList) where
  open X use {Links, nodes, unlink, add_tail}

  abbrev State : Type 0
  State = Resolver Address S T X

  module _ (name : Bytes) (k : ℕ) (four six : List Address) where
    abbrev Kept : Outcome Address S T X → Type 0
    Kept = Keeps Address unknown S T X name k four six

    settle-Keeps :
        (give : Give Address unknown) (alive : ℕ → Bool) (j : ℕ) (r : CacheResult Address)
        (s : State)
        → Cached Address unknown S T X name k four six s
        → (j == k) ≡ false
        → Kept (settle Address unknown S T X give alive j r s)
    unfolding settle
    settle-Keeps give alive j r s v differs = go (
        answer_all Address unknown S T X give alive
          (nodes (s.cache_node j).pending_source_request_list) r s.dns_source_request_pool)
      where
        go :
            (o : Answered Address unknown S T X)
            → Kept (elim o [
              | none ↦ none
              | some (r', p, es) ↦ some (
                record (set_node Address S T X j
                    (record {
                      query_finished = true;
                      timestamp_ms = s.now;
                      pending_source_request_list = X.empty;
                      result = some r';
                    })
                    s) { dns_source_request_pool = p },
                es,
              )
            ])
        go none = tt
        go (some (r', p, es)) = record {
          mapped = v.mapped;
          finished = rw differs v.finished;
          made = v.made;
          own = v.own;
          quiet = v.quiet;
          found = rw differs v.found;
        }

    dispatch_one-Keeps :
        (alive : ℕ → Bool) (i : ℕ) (request : RequestNode Address) (s : State)
        → Cached Address unknown S T X name k four six s
        → request.hostname ≢ name
        → Kept (dispatch_one Address unknown S T X alive i request s)
    unfolding dispatch_one
    dispatch_one-Keeps alive i request s v other =
        elim (Option-cases (s.cache_map request.hostname)) [
          | inl missing ↦
              rw (dispatch_one, missing)
                (record {
                  mapped = v.mapped;
                  finished = v.finished;
                  made = v.made;
                  own = v.own;
                  quiet = v.quiet;
                  found = v.found;
                })
          | inr (j, e) ↦
              rw (dispatch_one, e)
                (settle-Keeps (give_picked Address unknown) alive j
                  (record {
                    a4_list = request.a4_list;
                    a6_list = request.a6_list;
                    last_a4_result_index = 0;
                    last_a6_result_index = 0;
                  })
                  (record s {
                    on_going_dns_request_count = sub64 s.on_going_dns_request_count 1;
                    cache_request_timeout_list = unlink s.cache_request_timeout_list j;
                    cache_timeout_list = add_tail (unlink s.cache_timeout_list j) j;
                  })
                  (record {
                    mapped = v.mapped;
                    finished = v.finished;
                    made = v.made;
                    own = v.own;
                    quiet = v.quiet;
                    found = v.found;
                  })
                  (elim (Bool-cases (j == k)) [
                    | inl same ↦ absurd (other (v.own request.hostname (ground (arith, e, same))))
                    | inr differs ↦ differs
                  ]))
        ]

    dispatch_all-Keeps :
        (alive : ℕ → Bool) (is : List ℕ) (s : State)
        → Cached Address unknown S T X name k four six s
        → Kept (dispatch_all Address unknown S T X alive is s)
    unfolding dispatch_all
    dispatch_all-Keeps alive [] s v = v
    dispatch_all-Keeps alive (i ∷ is) s v =
        elim (Option-cases (S.check_and_get s.dns_request_pool i)) [
          | inl missing ↦ rw (dispatch_all, missing) tt
          | inr (request, e) ↦
              rw (dispatch_all, e)
                (go
                  (λ t w.
                    dispatch_all-Keeps alive is
                      (record t { dns_request_pool = S.release t.dns_request_pool i })
                      (record {
                        mapped = w.mapped;
                        finished = w.finished;
                        made = w.made;
                        own = w.own;
                        quiet = λ l q at.
                            w.quiet l q (ground (arith, at, S.get-release t.dns_request_pool i l));
                        found = w.found;
                      }))
                  (dispatch_one Address unknown S T X alive i request s)
                  (dispatch_one-Keeps alive i request s v (v.quiet i request e)))
        ]
      where
        go :
            ((t : State)
              → Cached Address unknown S T X name k four six t
              → Kept (
                  dispatch_all Address unknown S T X alive is
                    (record t { dns_request_pool = S.release t.dns_request_pool i })))
            → (o : Outcome Address S T X) → Kept o
            → Kept (elim o [
              | none ↦ none
              | some (t, es) ↦ after Address S T X es (
                  dispatch_all Address unknown S T X alive is
                    (record t { dns_request_pool = S.release t.dns_request_pool i }))
            ])
        go rest none h = h
        go rest (some (t, es)) h =
            Keeps-after Address unknown S T X name k four six es
              (dispatch_all Address unknown S T X alive is
                (record t { dns_request_pool = S.release t.dns_request_pool i }))
              (rest t h)

    timeouts-Keeps :
        (fuel : ℕ) (alive : ℕ → Bool) (s : State)
        → Cached Address unknown S T X name k four six s
        → Kept (process_request_timeout_cache_nodes Address unknown S T X fuel alive s)
    unfolding process_request_timeout_cache_nodes
    timeouts-Keeps zero alive s v = tt
    timeouts-Keeps (suc fuel) alive s v =
        elim (Bool-cases (head_unfinished Address unknown S T X s)) [
          | inr finished ↦ rw (process_request_timeout_cache_nodes, finished) tt
          | inl unfinished ↦
              elim (X.pop_head_if_lem s.cache_request_timeout_list
                (is_older Address unknown S T X dns_query_timeout_ms s)) [
                  | inl (empty, e) ↦ rw (process_request_timeout_cache_nodes, unfinished, e) v
                  | inr (j, rest, nodes_are, inr (early, e)) ↦
                      rw (process_request_timeout_cache_nodes, unfinished, e) v
                  | inr (j, rest, nodes_are, inl (due, e)) ↦
                      elim (Option-cases ((s.cache_node j).result)) [
                        | inr (r, has) ↦
                            rw (process_request_timeout_cache_nodes, unfinished, e, has) tt
                        | inl without ↦
                            let s' : State = record s {
                              cache_request_timeout_list = rest;
                              cache_timeout_list = add_tail s.cache_timeout_list j;
                            } in
                            rw (process_request_timeout_cache_nodes, unfinished, e, without)
                              (go (λ t w. timeouts-Keeps fuel alive t w)
                                (settle Address unknown S T X (give_nothing Address unknown) alive j
                                  (no_result Address unknown S T X) s')
                                (settle-Keeps (give_nothing Address unknown) alive j
                                  (no_result Address unknown S T X) s'
                                  (record {
                                    mapped = v.mapped;
                                    finished = v.finished;
                                    made = v.made;
                                    own = v.own;
                                    quiet = v.quiet;
                                    found = v.found;
                                  })
                                  (elim (Bool-cases (j == k)) [
                                    | inl same ↦
                                        absurd
                                          (ground (arith, unfinished, nodes_are, v.finished, same))
                                    | inr differs ↦ differs
                                  ])))
                      ]
                ]
        ]
      where
        go :
            ((t : State)
              → Cached Address unknown S T X name k four six t
              → Kept (process_request_timeout_cache_nodes Address unknown S T X fuel alive t))
            → (o : Outcome Address S T X) → Kept o
            → Kept (elim o [
              | none ↦ none
              | some (t, es) ↦
                  after Address S T X es
                    (process_request_timeout_cache_nodes Address unknown S T X fuel alive t)
            ])
        go rest none h = h
        go rest (some (t, es)) h =
            Keeps-after Address unknown S T X name k four six es
              (process_request_timeout_cache_nodes Address unknown S T X fuel alive t) (rest t h)

    pub tick-Keeps :
        (alive : ℕ → Bool) (now : ℕ) (s : State)
        → Cached Address unknown S T X name k four six s
        → Kept (tick Address unknown S T X alive now s)
    unfolding tick dispatch_resolve_results
    tick-Keeps alive now s v =
        dispatched (dispatch_resolve_results Address unknown S T X alive (record s { now = now })) (
          dispatch_all-Keeps alive (nodes s.request_finished_list)
            (record s { now = now; request_finished_list = X.empty })
            (record {
              mapped = v.mapped;
              finished = v.finished;
              made = v.made;
              own = v.own;
              quiet = v.quiet;
              found = v.found;
            }))
      where
        unpopped :
            (es : List (Answer Address)) (u : State)
            → Cached Address unknown S T X name k four six u
            → Kept (elim (process_timeout_cache_nodes Address unknown S T X u) [
              | none ↦ none
              | some w ↦ some (w, es)
            ])
        unpopped es u w = elim (Bool-cases (head_unfinished Address unknown S T X u)) [
          | inr finished ↦ rw (process_timeout_cache_nodes, finished) tt
          | inl unfinished ↦
              elim (X.pop_head_if_lem u.cache_request_timeout_list
                (is_older Address unknown S T X dns_cache_timeout_ms u)) [
                  | inl (empty, e) ↦ rw (process_timeout_cache_nodes, unfinished, e) w
                  | inr (j, rest, nodes_are, inr (early, e)) ↦
                      rw (process_timeout_cache_nodes, unfinished, e) w
                  | inr (j, rest, nodes_are, inl (due, e)) ↦
                      rw (process_timeout_cache_nodes, unfinished, e) tt
                ]
        ]

        timed_out :
            (es : List (Answer Address)) (o : Outcome Address S T X)
            → Kept o
            → Kept (elim o [
              | none ↦ none
              | some (u, fs) ↦ elim (process_timeout_cache_nodes Address unknown S T X u) [
                | none ↦ none
                | some w ↦ some (w, es ++ fs)
              ]
            ])
        timed_out es none h = h
        timed_out es (some (u, fs)) h = unpopped (es ++ fs) u h

        dispatched :
            (o : Outcome Address S T X)
            → Kept o
            → Kept (elim o [
              | none ↦ none
              | some (t, es) ↦
                  elim (process_request_timeout_cache_nodes Address unknown S T X
                    (suc (length (nodes t.cache_request_timeout_list)))
                    alive
                    t) [
                      | none ↦ none
                      | some (u, fs) ↦ elim (process_timeout_cache_nodes Address unknown S T X u) [
                        | none ↦ none
                        | some w ↦ some (w, es ++ fs)
                      ]
                    ]
            ])
        dispatched none h = h
        dispatched (some (t, es)) h =
            timed_out es
              (process_request_timeout_cache_nodes Address unknown S T X
                (suc (length (nodes t.cache_request_timeout_list))) alive t)
              (timeouts-Keeps (suc (length (nodes t.cache_request_timeout_list))) alive t h)
