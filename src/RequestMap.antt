-- ===== src/RequestMap.antt =====
-- ppp/lib_component/request_mapping: the requests that a relay of requests has not answered yet.
pub mod Counts
pub mod Expiry
mod Tests
use pp.Prelude.{
  ℕ, zero, suc, ◌+◌, ◌*◌, Bool, true, false, List, [], ◌∷◌, Option, none, some, ◌==◌, leb, ltb,
  if◌then◌else◌, add64, sub64, length,
}
use pp.Xel.Storage.{Storage}
use pp.Xel.NodeList.{NodeList}

abbrev pub min_request_timeout : ℕ
min_request_timeout = 100

abbrev pub max_request_timeout : ℕ
max_request_timeout = 10 * 60_000

-- std::min and std::max
abbrev pub min64 : ℕ → ℕ → ℕ
min64 a b = if ltb b a then b else a

abbrev pub max64 : ℕ → ℕ → ℕ
max64 a b = if ltb a b then b else a

-- The timeout that Init keeps.
unfoldable pub clamp_timeout : ℕ → ℕ
clamp_timeout t = min64 (max64 min_request_timeout t) max_request_timeout

-- `xSourceRequest`
pub record SourceRequest (Handle : Type 0) : Type 0 where
  pub source_handle : Handle
  pub source_request_id : ℕ
  pub source_request_timestamp_ms : ℕ

-- `xSourceRequestNode`
pub record SourceRequestNode (Handle : Type 0) : Type 0 where
  pub request : SourceRequest Handle
  pub request_id : ℕ

module _ (Handle : Type 0) (S : Storage (SourceRequestNode Handle)) (X : NodeList) where
  open S use {Pool, check_and_get, write}

  pub record RequestMap : Type 0 where
    pub now : ℕ  -- LocalTicker()
    pub request_timeout_ms : ℕ
    pub pool : Pool
    pub timeout_queue : X.Links
    pub total_request_count : ℕ

  unfoldable pub acquire : Handle → ℕ → RequestMap → ℕ × RequestMap
  acquire source_handle source_request_id s =
      let (i, p) = S.acquire s.pool in
      if i == 0 then (0, record s { pool = p }) else (
        i,
        record s {
          pool = write p i (record {
            request = record {
              source_handle = source_handle;
              source_request_id = source_request_id;
              source_request_timestamp_ms = s.now;
            };
            request_id = i;
          });
          timeout_queue = X.add_tail s.timeout_queue i;
          total_request_count = add64 s.total_request_count 1;
        },
      )

  -- SourceRequestPool.Release, and what follows of it: the node leaves its list.
  unfoldable pub drop_node : ℕ → RequestMap → RequestMap
  drop_node i s = record s {
    pool = S.release s.pool i;
    timeout_queue = X.unlink s.timeout_queue i;
    total_request_count = sub64 s.total_request_count 1;
  }

  -- GetAndRelease; `none` stands for the empty request that it returns on an unknown identifier.
  unfoldable pub get_and_release : ℕ → RequestMap → Option (SourceRequest Handle) × RequestMap
  unfolding drop_node
  get_and_release i s = elim (check_and_get s.pool i) [
    | none ↦ (none, s)
    | some n ↦ (some n.request, drop_node i s)
  ]

  -- Release; `none` is the failure of its assertion.
  unfoldable pub release : ℕ → RequestMap → Option RequestMap
  unfolding drop_node
  release i s = elim (check_and_get s.pool i) [ none ↦ none | some n ↦ some (drop_node i s) ]

  -- `SourceRequestTimestampMS <= KillTimepointMS`, of the node with an identifier.
  abbrev pub is_due : RequestMap → ℕ → Bool
  is_due s i = elim (check_and_get s.pool i) [
    | none ↦ false
    | some n ↦ leb n.request.source_request_timestamp_ms (sub64 s.now s.request_timeout_ms)
  ]

  -- The loop of Tick, which pops a node and releases it; `none`: out of fuel.
  unfoldable pub expire : ℕ → RequestMap → Option RequestMap
  unfolding drop_node
  expire zero s = none
  expire (suc fuel) s = elim (X.pop_head_if s.timeout_queue (is_due s)) [
    | none ↦ some s
    | some (i, rest) ↦ expire fuel (drop_node i (record s { timeout_queue = rest }))
  ]

  -- Tick; one round for each node, and one for the end, are enough.
  unfoldable pub tick : ℕ → RequestMap → Option RequestMap
  unfolding expire
  tick now s = expire (suc (length (X.nodes s.timeout_queue))) (record s { now = now })
