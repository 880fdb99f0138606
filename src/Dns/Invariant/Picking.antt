-- ===== src/Dns/Invariant/Picking.antt =====
-- A result of the cache from which the next address is picked.
use pp.Prelude.{
  ℕ, ◌≡◌, Bool, true, false, [], Option, none, some, ◌==◌, arith, Bool-cases, inl, inr, refl,
}
use pp.Xel.Storage.{Storage}
use pp.Xel.NodeList.{NodeList}
use pp.Dns.{RequestNode, SourceNode, CacheResult, Resolver, set_node}
use pp.Dns.Order.{Ascending-same}
use pp.Dns.Picks.{InRange}
use pp.Dns.Invariant.{Resolving, times, HasResult}

module _ (Address : Type 0) (unknown : Address) (S : Storage (RequestNode Address))
    (T : Storage SourceNode) (X : NodeList) where
  open X use {Links, nodes}

  abbrev State : Type 0
  State = Resolver Address S T X

  module _ (owner : ℕ → ℕ) (s : State) (v : Resolving Address S T X [] owner s) where
    pub finished_result :
        (finished : Bool) (o : Option (CacheResult Address))
        → HasResult Address S T X finished o
        → finished ≡ true
        → (r : CacheResult Address) × (o ≡ some r) × InRange r
    finished_result false o h e = absurd (ground (arith, e))
    finished_result true none h e = absurd h
    finished_result true (some r) h e = (r, refl, h)

    pub picked-Resolving :
        (k : ℕ) (r : CacheResult Address)
        → (s.cache_node k).query_finished ≡ true
        → InRange r
        → Resolving Address S T X [] owner
            (set_node Address S T X k (record (s.cache_node k) { result = some r }) s)
    picked-Resolving k r finishes in_range = record {
      requests = v.requests;
      sources = λ i j. ground (arith, v.sources i j);
      owners = λ i h. ground (arith, v.owners i h);
      running = λ j. ground (arith, v.running j);
      finished = λ j. ground (arith, v.finished j);
      results = λ j h. elim (Bool-cases (k == j)) [
        | inl same ↦ rw (same, finishes) in_range
        | inr other ↦ rw other (v.results j h)
      ];
      mapped = v.mapped;
      timed = λ j h. elim (Bool-cases (k == j)) [
        | inl same ↦ rw (same, times) (v.timed k (ground (arith, same, h)))
        | inr other ↦ rw (other, times) (v.timed j h)
      ];
      ascending =
          Ascending-same (times Address S T X s) _ 1 (nodes s.cache_request_timeout_list) s.now
            (λ j h. ground arith) v.ascending;
    }
