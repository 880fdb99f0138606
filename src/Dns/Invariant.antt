-- ===== src/Dns/Invariant.antt =====
-- What holds of a resolver between its operations.
pub mod Settling
pub mod Dispatching
pub mod Timeouts
pub mod Ticks
pub mod Appending
pub mod Picking
pub mod Asks
use pp.Prelude.{
  ℕ, ◌+◌, ◌≤◌, ◌<◌, ◌≡◌, ◌≢◌, Bool, true, false, not, ◌&&◌, List, [], ◌∷◌, Option, none, some, ◌==◌,
  ltb, if◌then◌else◌, Bytes, arith,
}
use pp.Xel.Storage.{Storage}
use pp.Xel.NodeList.{NodeList, without}
use pp.Auth.References.{bit, occurrences, is_some}
use pp.Dns.{RequestNode, SourceNode, CacheResult, CacheNode, Resolver}
use pp.Dns.Order.{Ascending}
use pp.Dns.Picks.{InRange}

module _ (Address : Type 0) (S : Storage (RequestNode Address)) (T : Storage SourceNode)
    (X : NodeList) where
  open X use {Links, nodes}

  abbrev State : Type 0
  State = Resolver Address S T X

  abbrev pub HasResult : Bool → Option (CacheResult Address) → Type 0
  HasResult false none = Unit
  HasResult false (some r) = ⊥
  HasResult true none = ⊥
  HasResult true (some r) = InRange r

  abbrev pub is_running : State → ℕ → Bool
  is_running s k = ltb k s.cache_node_count && not (s.cache_node k).query_finished

  abbrev pub is_finished : State → ℕ → Bool
  is_finished s k = ltb k s.cache_node_count && (s.cache_node k).query_finished

  abbrev pub is_waiting : State → ℕ → Bool
  is_waiting s i = is_some (T.check_and_get s.dns_source_request_pool i)

  abbrev pub times : State → ℕ → ℕ
  times s k = (s.cache_node k).timestamp_ms

  -- `owner` gives for each waiting request the cache node that it waits for; `left` are the requests
  -- that DispatchResolveResults has before it.
  pub record Resolving (left : List ℕ) (owner : ℕ → ℕ) (s : State) : Type 0 where
    -- A request of the pool stands in one of the lists, once.
    pub requests :
        (i : ℕ)
        → occurrences i (nodes s.request_list)
            + occurrences i (nodes s.taken)
            + occurrences i (nodes s.request_finished_list)
            + occurrences i left
          ≡ bit (is_some (S.check_and_get s.dns_request_pool i))
    -- A waiting request is pending for its owner, once, and for no other.
    pub sources :
        (i k : ℕ)
        → occurrences i (nodes (s.cache_node k).pending_source_request_list)
          ≡ bit (is_waiting s i && owner i == k)
    pub owners : (i : ℕ) → is_waiting s i ≡ true → is_running s (owner i) ≡ true
    pub running :
        (k : ℕ) → occurrences k (nodes s.cache_request_timeout_list) ≡ bit (is_running s k)
    pub finished : (k : ℕ) → occurrences k (nodes s.cache_timeout_list) ≡ bit (is_finished s k)
    pub results :
        (k : ℕ)
        → k < s.cache_node_count
        → HasResult (s.cache_node k).query_finished (s.cache_node k).result
    pub mapped : (name : Bytes) (k : ℕ) → s.cache_map name ≡ some k → k < s.cache_node_count
    pub timed : (k : ℕ) → k < s.cache_node_count → times s k ≢ 0
    pub ascending : Ascending (times s) 1 (nodes s.cache_request_timeout_list) s.now
