-- ===== src/Dns/Requests.antt =====
-- ResolveDns, and the query threads.
use pp.Prelude.{
  ℕ, ◌+◌, Bool, true, false, List, [], ◌∷◌, ◌++◌, Option, none, some, ◌==◌, if◌then◌else◌, Bytes,
  bytes_eq, add64,
}
use pp.Xel.Storage.{Storage}
use pp.Xel.NodeList.{NodeList}
use pp.Auth.References.{occurrences}
use pp.Dns.{RequestNode, SourceNode, Answer, Resolver, set_node, pick_dns_result}

module _ (Address : Type 0) (unknown : Address) (S : Storage (RequestNode Address))
    (T : Storage SourceNode) (X : NodeList) where
  open X use {Links, add_tail, unlink, nodes}

  abbrev State : Type 0
  State = Resolver Address S T X

  -- What ResolveDns leaves, what it returns, and the future that it sets ready at once.
  abbrev pub Resolved : Type 0
  Resolved = Option (Bool × State × List (Answer Address))

  -- The branch of ResolveDns for a name that is not in the map.
  unfoldable pub new_query : Bytes → (future : ℕ) → State → Resolved
  new_query name future s =
      let (i, p) = T.acquire s.dns_source_request_pool in
      if i == 0
      then some (false, record s { dns_source_request_pool = p }, [])
      else (let p' = T.write p i (record { future_handle = future }) in
          let (j, q) = S.acquire s.dns_request_pool in
          if j == 0
          then some (
            false,
            record s { dns_source_request_pool = T.release p' i; dns_request_pool = q },
            [],
          )
          else some (
            true,
            record (set_node Address S T X s.cache_node_count
                (record {
                  query_finished = false;
                  timestamp_ms = s.now;
                  pending_source_request_list = add_tail X.empty i;
                  result = none;
                })
                s) {
                  dns_source_request_pool = p';
                  dns_request_pool =
                      S.write q j (record { hostname = name; a4_list = []; a6_list = [] });
                  cache_map =
                      λ n. if bytes_eq name n then some s.cache_node_count else s.cache_map n;
                  cache_node_count = s.cache_node_count + 1;
                  cache_request_timeout_list =
                      add_tail s.cache_request_timeout_list s.cache_node_count;
                  request_list = add_tail s.request_list j;
                  on_going_dns_request_count = add64 s.on_going_dns_request_count 1;
                },
            [],
          ))

  -- The query for the name is still running.
  unfoldable pub append_request : ℕ → (future : ℕ) → State → Resolved
  append_request k future s =
      let (i, p) = T.acquire s.dns_source_request_pool in
      let n = s.cache_node k in
      if i == 0
      then some (false, record s { dns_source_request_pool = p }, [])
      else some (
        true,
        record (set_node Address S T X k
            (record n { pending_source_request_list = add_tail n.pending_source_request_list i })
            s) { dns_source_request_pool = T.write p i (record { future_handle = future }) },
        [],
      )

  -- The name has a result.
  unfoldable pub answer_cached : ℕ → (future : ℕ) → State → Resolved
  unfolding pick_dns_result
  answer_cached k future s = elim ((s.cache_node k).result) [
    | none ↦ none
    | some r ↦ elim (pick_dns_result Address unknown r) [
      | none ↦ none
      | some (d, r') ↦ some (
        true,
        set_node Address S T X k (record (s.cache_node k) { result = some r' }) s,
        record { future = future; answer = some d } ∷ [],
      )
    ]
  ]

  unfoldable pub resolve_dns : Bytes → (future : ℕ) → State → Resolved
  unfolding new_query append_request answer_cached
  resolve_dns name future s = elim (s.cache_map name) [
    | none ↦ new_query name future s
    | some k ↦
        if (s.cache_node k).timestamp_ms == 0
        then none
        else if (s.cache_node k).query_finished
        then answer_cached k future s
        else append_request k future s
  ]

  -- QueryThreadFunc: a thread takes all the requests that wait.
  unfoldable pub take_requests : State → State
  take_requests s = record s {
    taken = X.grab_list_tail s.taken s.request_list;
    request_list = X.empty;
  }

  -- A request that a thread has taken is finished, with the addresses that were found. A request
  -- that is not there changes nothing.
  unfoldable pub finish_request : ℕ → (a4 a6 : List Address) → State → State
  finish_request j a4 a6 s = elim (S.check_and_get s.dns_request_pool j) [
    | none ↦ s
    | some r ↦ if occurrences j (nodes s.taken) == 0 then s else record s {
      taken = unlink s.taken j;
      request_finished_list = add_tail s.request_finished_list j;
      dns_request_pool =
          S.write s.dns_request_pool j
            (record r { a4_list = r.a4_list ++ a4; a6_list = r.a6_list ++ a6 });
    }
  ]
