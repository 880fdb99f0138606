-- ===== src/Dns/Stale.antt =====
-- A name whose query has found its addresses keeps them: nothing empties the cache.
pub mod Ticks
pub mod Asks
pub mod Answers
use pp.Prelude.{
  ℕ, zero, suc, ◌+◌, ◌<◌, ◌≡◌, ◌≢◌, Bool, true, false, not, List, [], ◌∷◌, ◌++◌, Option, none, some,
  arith, ◌==◌, sub64, if◌then◌else◌, Bytes, bytes_eq, length, bytes_eq_iff, Bool-cases,
  Option-cases, inl, inr, refl, ap,
}
use pp.Xel.Storage.{Storage}
use pp.Xel.NodeList.{NodeList}
use pp.Auth.References.{occurrences}
use pp.Dns.{
  RequestNode, SourceNode, CacheResult, CacheNode, Resolver, Answer, Outcome, after, set_node, Give,
  give_picked, give_nothing, pick_dns_result, dns_query_timeout_ms, dns_cache_timeout_ms,
}
use pp.Dns.Ticking.{
  answer_all, settle, dispatch_one, dispatch_all, dispatch_resolve_results, is_older,
  head_unfinished, no_result, process_request_timeout_cache_nodes, process_timeout_cache_nodes,
  tick, Answered,
}
use pp.Dns.Requests.{
  Resolved, new_query, append_request, answer_cached, resolve_dns, take_requests, finish_request,
}
use pp.Dns.Runs.{
  DnsEvent, asks, ticks, takes, finishes, Timed, Safe, Runs, without_reply, step_dns, run_dns,
  run_dns-Runs,
}

module _ (Address : Type 0) (unknown : Address) (S : Storage (RequestNode Address))
    (T : Storage SourceNode) (X : NodeList) where
  open X use {Links, nodes, unlink, add_tail}

  abbrev State : Type 0
  State = Resolver Address S T X

  -- The name has the node `k`, whose query has found the addresses of `four` and `six`; no other
  -- name has the node, and no query for the name runs.
  pub record Cached (name : Bytes) (k : ℕ) (four six : List Address) (s : State) : Type 0 where
    pub mapped : s.cache_map name ≡ some k
    pub finished : (s.cache_node k).query_finished ≡ true
    pub made : k < s.cache_node_count
    pub own : (n : Bytes) → s.cache_map n ≡ some k → n ≡ name
    pub quiet :
        (i : ℕ) (r : RequestNode Address)
        → S.check_and_get s.dns_request_pool i ≡ some r
        → r.hostname ≢ name
    pub found :
        (r : CacheResult Address) × ((s.cache_node k).result ≡ some r)
        × (r.a4_list ≡ four)
        × (r.a6_list ≡ six)

  module _ (name : Bytes) (k : ℕ) (four six : List Address) where
    abbrev pub Keeps : Outcome Address S T X → Type 0
    Keeps none = Unit
    Keeps (some (t, es)) = Cached name k four six t

    pub Keeps-after :
        (es : List (Answer Address)) (o : Outcome Address S T X)
        → Keeps o
        → Keeps (after Address S T X es o)
    Keeps-after es none h = h
    Keeps-after es (some (t, fs)) h = h
