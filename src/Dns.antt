-- ===== src/Dns.antt =====
-- The resolver: ppp/lib_component/dns_local_service.
pub mod Ticking
pub mod Requests
pub mod Picks
pub mod Order
pub mod Invariant
pub mod Runs
pub mod Stale
mod Tests
use pp.Prelude.{
  ℕ, zero, suc, ◌+◌, ◌*◌, Bool, true, false, not, ◌&&◌, List, [], ◌∷◌, ◌++◌, Option, none, some,
  ◌==◌, leb, ltb, if◌then◌else◌, Bytes, bytes_eq, add64, sub64, length, get_elem?,
}
use pp.Xel.Storage.{Storage}
use pp.Xel.NodeList.{NodeList}
use pp.Auth.References.{occurrences}

abbrev pub dns_query_timeout_ms : ℕ
dns_query_timeout_ms = 5_000

abbrev pub dns_cache_timeout_ms : ℕ
dns_cache_timeout_ms = 45 * 60_000

pub record DnsResult (Address : Type 0) : Type 0 where
  pub a4 : Address
  pub a6 : Address

-- `xDnsRequestNode`, of a pool; its node in lists is its identifier.
pub record RequestNode (Address : Type 0) : Type 0 where
  pub hostname : Bytes
  pub a4_list : List Address
  pub a6_list : List Address

-- `xDnsLocalSourceRequestNode`; the handle is the identifier of the future.
pub record SourceNode : Type 0 where
  pub future_handle : ℕ

pub record CacheResult (Address : Type 0) : Type 0 where
  pub a4_list : List Address
  pub a6_list : List Address
  pub last_a4_result_index : ℕ
  pub last_a6_result_index : ℕ

pub record CacheNode (Address Links : Type 0) : Type 0 where
  pub query_finished : Bool
  pub timestamp_ms : ℕ
  pub pending_source_request_list : Links
  pub result : Option (CacheResult Address)

-- A future that is set ready, with a result or without.
pub record Answer (Address : Type 0) : Type 0 where
  pub future : ℕ
  pub answer : Option (DnsResult Address)

module _ (Address : Type 0) (unknown : Address) where
  -- One of the two parts of PickDnsResult: the address and the new index; `none` for an index out of
  -- bounds.
  unfoldable pub pick_next : List Address → ℕ → Option (Address × ℕ)
  pick_next [] last = some (unknown, last)
  pick_next (x ∷ xs) last =
      let next = if leb (length (x ∷ xs)) (last + 1) then 0 else last + 1 in
      elim (get_elem? (x ∷ xs) next) [ none ↦ none | some a ↦ some (a, next) ]

  unfoldable pub pick_dns_result :
      CacheResult Address → Option (DnsResult Address × CacheResult Address)
  unfolding pick_next
  pick_dns_result r = elim (pick_next r.a4_list r.last_a4_result_index) [
    | none ↦ none
    | some (a4, i4) ↦ elim (pick_next r.a6_list r.last_a6_result_index) [
      | none ↦ none
      | some (a6, i6) ↦ some (
        record { a4 = a4; a6 = a6 },
        record r { last_a4_result_index = i4; last_a6_result_index = i6 },
      )
    ]
  ]

  -- What a future is given: the next result that is picked, or nothing.
  abbrev pub Give : Type 0
  Give = CacheResult Address → Option (Option (DnsResult Address) × CacheResult Address)

  unfoldable pub give_picked : Give
  unfolding pick_dns_result
  give_picked r = elim (pick_dns_result r) [ none ↦ none | some (d, r') ↦ some (some d, r') ]

  unfoldable pub give_nothing : Give
  give_nothing r = some (none, r)

module _ (Address : Type 0) (S : Storage (RequestNode Address)) (T : Storage SourceNode)
    (X : NodeList) where
  open X use {Links}

  -- The cache nodes are never deleted; a pointer to one is its number, in the order of creation.
  pub record Resolver : Type 0 where
    pub now : ℕ  -- LocalTicker()
    pub request_list : Links
    pub taken : Links  -- the lists TmpRequestList of the query threads, as one list
    pub request_finished_list : Links
    pub dns_request_pool : S.Pool
    pub dns_source_request_pool : T.Pool
    pub cache_map : Bytes → Option ℕ
    pub cache_node : ℕ → CacheNode Address Links
    pub cache_node_count : ℕ
    pub cache_request_timeout_list : Links
    pub cache_timeout_list : Links
    pub on_going_dns_request_count : ℕ

  -- `none` for a failed assertion.
  abbrev pub Outcome : Type 0
  Outcome = Option (Resolver × List (Answer Address))

  abbrev pub after : List (Answer Address) → Outcome → Outcome
  after es none = none
  after es (some (t, fs)) = some (t, es ++ fs)

  abbrev pub set_node : ℕ → CacheNode Address Links → Resolver → Resolver
  set_node k n s = record s { cache_node = λ j. if k == j then n else s.cache_node j }
