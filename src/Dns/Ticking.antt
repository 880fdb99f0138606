-- ===== src/Dns/Ticking.antt =====
-- Tick of the resolver: the requests that have finished, and those that take too long.
use pp.Prelude.{
  ℕ, zero, suc, Bool, true, false, not, List, [], ◌∷◌, ◌++◌, Option, none, some, leb, if◌then◌else◌,
  sub64, length,
}
use pp.Xel.Storage.{Storage}
use pp.Xel.NodeList.{NodeList}
use pp.Dns.{
  RequestNode, SourceNode, CacheResult, Answer, Resolver, Outcome, after, set_node, Give,
  give_picked, give_nothing, dns_query_timeout_ms, dns_cache_timeout_ms,
}

module _ (Address : Type 0) (unknown : Address) (S : Storage (RequestNode Address))
    (T : Storage SourceNode) (X : NodeList) where
  open X use {Links, add_tail, unlink, nodes}

  abbrev State : Type 0
  State = Resolver Address S T X

  abbrev pub Answered : Type 0
  Answered = Option (CacheResult Address × T.Pool × List (Answer Address))

  abbrev pub answered_after : List (Answer Address) → Answered → Answered
  answered_after es none = none
  answered_after es (some (r, p, fs)) = some (r, p, es ++ fs)

  -- The loop over the pending requests of a cache node: a future that is still there is set ready.
  unfoldable pub answer_all :
      Give Address unknown → (alive : ℕ → Bool) → List ℕ → CacheResult Address → T.Pool → Answered
  answer_all give alive [] r p = some (r, p, [])
  answer_all give alive (i ∷ is) r p = elim (T.check_and_get p i) [
    | none ↦ none
    | some n ↦ elim (alive n.future_handle) [
      | false ↦ answer_all give alive is r (T.release p i)
      | true ↦ elim (give r) [
        | none ↦ none
        | some (d, r') ↦
            answered_after (record { future = n.future_handle; answer = d } ∷ [])
              (answer_all give alive is r' (T.release p i))
      ]
    ]
  ]

  -- A cache node gets its result, and its pending requests are answered.
  unfoldable pub settle :
      Give Address unknown
      → (alive : ℕ → Bool) → ℕ
      → CacheResult Address
      → State
      → Outcome Address S T X
  unfolding answer_all
  settle give alive k r s =
      elim (answer_all give alive (nodes (s.cache_node k).pending_source_request_list) r
        s.dns_source_request_pool) [
          | none ↦ none
          | some (r', p, es) ↦ some (
            record (set_node Address S T X k
                (record {
                  query_finished = true;
                  timestamp_ms = s.now;
                  pending_source_request_list = X.empty;
                  result = some r';
                })
                s) { dns_source_request_pool = p },
            es,
          )
        ]

  -- The body of DispatchResolveResults for a request that has finished.
  unfoldable pub dispatch_one :
      (alive : ℕ → Bool) → ℕ → RequestNode Address → State → Outcome Address S T X
  unfolding settle give_picked
  dispatch_one alive i request s =
      let s' : State = record s {
        on_going_dns_request_count = sub64 s.on_going_dns_request_count 1;
      } in
      elim (s.cache_map request.hostname) [
        | none ↦ some (s', [])
        | some k ↦
            settle (give_picked Address unknown) alive k
              (record {
                a4_list = request.a4_list;
                a6_list = request.a6_list;
                last_a4_result_index = 0;
                last_a6_result_index = 0;
              })
              (record s' {
                cache_request_timeout_list = unlink s.cache_request_timeout_list k;
                cache_timeout_list = add_tail (unlink s.cache_timeout_list k) k;
              })
      ]

  unfoldable pub dispatch_all : (alive : ℕ → Bool) → List ℕ → State → Outcome Address S T X
  unfolding dispatch_one
  dispatch_all alive [] s = some (s, [])
  dispatch_all alive (i ∷ is) s = elim (S.check_and_get s.dns_request_pool i) [
    | none ↦ none
    | some request ↦ elim (dispatch_one alive i request s) [
      | none ↦ none
      | some (t, es) ↦
          after Address S T X es
            (dispatch_all alive is (record t { dns_request_pool = S.release t.dns_request_pool i }))
    ]
  ]

  unfoldable pub dispatch_resolve_results : (alive : ℕ → Bool) → State → Outcome Address S T X
  unfolding dispatch_all
  dispatch_resolve_results alive s =
      dispatch_all alive (nodes s.request_finished_list)
        (record s { request_finished_list = X.empty })

  -- `N.TimestampMS <= KillTimestamp`
  abbrev pub is_older : (timeout : ℕ) → State → ℕ → Bool
  is_older timeout s k = leb (s.cache_node k).timestamp_ms (sub64 s.now timeout)

  -- The assertion on the node that a condition is tested on.
  abbrev pub head_unfinished : State → Bool
  head_unfinished s = elim (nodes s.cache_request_timeout_list) [
    | [] ↦ true
    | k ∷ _ ↦ not (s.cache_node k).query_finished
  ]

  abbrev pub no_result : CacheResult Address
  no_result = record {
    a4_list = [];
    a6_list = [];
    last_a4_result_index = 0;
    last_a6_result_index = 0;
  }

  -- ProcessRequestTimeoutCacheNodes, with fuel; also `none` where that runs out.
  unfoldable pub process_request_timeout_cache_nodes :
      ℕ → (alive : ℕ → Bool) → State → Outcome Address S T X
  unfolding settle give_nothing
  process_request_timeout_cache_nodes zero alive s = none
  process_request_timeout_cache_nodes (suc fuel) alive s =
      if not (head_unfinished s)
      then none
      else elim (X.pop_head_if s.cache_request_timeout_list (is_older dns_query_timeout_ms s)) [
        | none ↦ some (s, [])
        | some (k, rest) ↦ elim ((s.cache_node k).result) [
          | some _ ↦ none
          | none ↦
              elim (settle (give_nothing Address unknown) alive k no_result (record s {
                cache_request_timeout_list = rest;
                cache_timeout_list = add_tail s.cache_timeout_list k;
              })) [
                | none ↦ none
                | some (t, es) ↦
                    after Address S T X es (process_request_timeout_cache_nodes fuel alive t)
              ]
        ]
      ]

  -- ProcessTimeoutCacheNodes; the assertion on what it pops fails for an unfinished query, and the
  -- one in its condition for a finished one.
  unfoldable pub process_timeout_cache_nodes : State → Option State
  process_timeout_cache_nodes s =
      if not (head_unfinished s)
      then none
      else elim (X.pop_head_if s.cache_request_timeout_list (is_older dns_cache_timeout_ms s)) [
        | none ↦ some s
        | some (k, rest) ↦ none
      ]

  unfoldable pub tick : (alive : ℕ → Bool) → (now : ℕ) → State → Outcome Address S T X
  unfolding dispatch_resolve_results process_request_timeout_cache_nodes process_timeout_cache_nodes
  tick alive now s = elim (dispatch_resolve_results alive (record s { now = now })) [
    | none ↦ none
    | some (t, es) ↦
        elim (process_request_timeout_cache_nodes
          (suc (length (nodes t.cache_request_timeout_list))) alive t) [
            | none ↦ none
            | some (u, fs) ↦ elim (process_timeout_cache_nodes u) [
              | none ↦ none
              | some w ↦ some (w, es ++ fs)
            ]
          ]
  ]
