-- ===== src/Dns/Invariant/Appending.antt =====
-- A request that is added to those of a query.
use pp.Prelude.{
  ℕ, ◌+◌, ◌≤◌, ◌<◌, ◌≡◌, ◌≢◌, false, [], none, some, ◌==◌, if◌then◌else◌, Bytes, bytes_eq, add64,
  arith, Bool-cases, inl, inr,
}
use pp.Xel.Storage.{Storage}
use pp.Xel.NodeList.{NodeList}
use pp.Auth.References.Pool.{occurrences-append}
use pp.Dns.{RequestNode, SourceNode, CacheNode, Resolver, set_node}
use pp.Dns.Order.{Ascending-append, Ascending-same, Ascending-span}
use pp.Dns.Invariant.{Resolving, times}

module _ (Address : Type 0) (unknown : Address) (S : Storage (RequestNode Address))
    (T : Storage SourceNode) (X : NodeList) where
  open X use {Links, nodes}

  abbrev State : Type 0
  State = Resolver Address S T X

  module _ (owner : ℕ → ℕ) (s : State) (v : Resolving Address S T X [] owner s) (future : ℕ) where
    pub same_pools :
        (p : T.Pool) (q : S.Pool)
        → ((i : ℕ) → T.check_and_get p i ≡ T.check_and_get s.dns_source_request_pool i)
        → ((i : ℕ) → S.check_and_get q i ≡ S.check_and_get s.dns_request_pool i)
        → Resolving Address S T X [] owner
            (record s { dns_source_request_pool = p; dns_request_pool = q })
    same_pools p q h h' = record {
      requests = λ i. ground (arith, v.requests i, h' i);
      sources = λ i k. ground (arith, v.sources i k, h i);
      owners = λ i w. v.owners i (ground (arith, w, h i));
      running = v.running;
      finished = v.finished;
      results = v.results;
      mapped = v.mapped;
      timed = v.timed;
      ascending = v.ascending;
    }

    started : 1 ≤ s.now
    started =
        Ascending-span (times Address S T X s) 1 (nodes s.cache_request_timeout_list) s.now
          v.ascending

    -- A source request that is acquired for the node `k`.
    module _ (got : (T.acquire s.dns_source_request_pool).0 ≢ 0) where
      abbrev pub source : ℕ
      source = (T.acquire s.dns_source_request_pool).0

      abbrev pub sources_after : T.Pool
      sources_after =
          T.write (T.acquire s.dns_source_request_pool).1 source (record { future_handle = future })

      pub get_after :
          (j : ℕ)
          → T.check_and_get sources_after j ≡ (
              if source == j
              then some (record { future_handle = future })
              else T.check_and_get s.dns_source_request_pool j)
      get_after j = ground (
        arith,
        T.get-write (T.acquire s.dns_source_request_pool).1 source
            (record { future_handle = future }) T.initial j
            (ground (arith, T.get-acquire s.dns_source_request_pool source got)),
        T.get-acquire s.dns_source_request_pool j got,
      )

      pub fresh : T.check_and_get s.dns_source_request_pool source ≡ none
      fresh = T.acquire_fresh s.dns_source_request_pool

      abbrev pub owner_after : ℕ → ℕ → ℕ
      owner_after k j = if source == j then k else owner j

      pub appended-Resolving :
          (k : ℕ)
          → k < s.cache_node_count
          → (s.cache_node k).query_finished ≡ false
          → Resolving Address S T X []
              (owner_after k)
              (record (set_node Address S T X k
                (record (s.cache_node k) {
                  pending_source_request_list =
                      X.add_tail (s.cache_node k).pending_source_request_list source;
                })
                s) { dns_source_request_pool = sources_after })
      appended-Resolving k below runs = record {
        requests = v.requests;
        sources = λ i j. ground (
          arith,
          v.sources i j,
          v.sources i k,
          get_after i,
          fresh,
          X.nodes-add_tail (s.cache_node k).pending_source_request_list source,
          occurrences-append i (nodes (s.cache_node k).pending_source_request_list) source,
        );
        owners = λ i h. ground (arith, h, get_after i, v.owners i, below, runs);
        running = λ j. ground (arith, v.running j);
        finished = λ j. ground (arith, v.finished j);
        results = λ j h. elim (Bool-cases (k == j)) [
          | inl same ↦ rw same (v.results k below)
          | inr other ↦ rw other (v.results j h)
        ];
        mapped = v.mapped;
        timed = λ j h. elim (Bool-cases (k == j)) [
          | inl same ↦ rw (same, times) (v.timed k below)
          | inr other ↦ rw (other, times) (v.timed j h)
        ];
        ascending =
            Ascending-same (times Address S T X s) _ 1 (nodes s.cache_request_timeout_list) s.now
              (λ j h. ground arith) v.ascending;
      }

      module _ (name : Bytes) (taken : (S.acquire s.dns_request_pool).0 ≢ 0) where
        abbrev pub request : ℕ
        request = (S.acquire s.dns_request_pool).0

        abbrev pub new_request : RequestNode Address
        new_request = record { hostname = name; a4_list = []; a6_list = [] }

        abbrev pub requests_after : S.Pool
        requests_after = S.write (S.acquire s.dns_request_pool).1 request new_request

        pub request_after :
            (j : ℕ)
            → S.check_and_get requests_after j
              ≡ (if request == j then some new_request else S.check_and_get s.dns_request_pool j)
        request_after j = ground (
          arith,
          S.get-write (S.acquire s.dns_request_pool).1 request new_request S.initial j
              (ground (arith, S.get-acquire s.dns_request_pool request taken)),
          S.get-acquire s.dns_request_pool j taken,
        )

        abbrev pub new_node : CacheNode Address Links
        new_node = record {
          query_finished = false;
          timestamp_ms = s.now;
          pending_source_request_list = X.add_tail X.empty source;
          result = none;
        }

        abbrev pub created : State
        created = record (set_node Address S T X s.cache_node_count new_node s) {
          dns_source_request_pool = sources_after;
          dns_request_pool = requests_after;
          cache_map = λ n. if bytes_eq name n then some s.cache_node_count else s.cache_map n;
          cache_node_count = s.cache_node_count + 1;
          cache_request_timeout_list = X.add_tail s.cache_request_timeout_list s.cache_node_count;
          request_list = X.add_tail s.request_list request;
          on_going_dns_request_count = add64 s.on_going_dns_request_count 1;
        }

        pub created-Resolving : Resolving Address S T X [] (owner_after s.cache_node_count) created
        created-Resolving = record {
          requests = λ i. ground (
            arith,
            v.requests i,
            request_after i,
            S.acquire_fresh s.dns_request_pool,
            X.nodes-add_tail s.request_list request,
            occurrences-append i (nodes s.request_list) request,
          );
          sources = λ i j. ground (
            arith,
            v.sources i j,
            v.sources i s.cache_node_count,
            v.owners i,
            get_after i,
            fresh,
            X.nodes-empty,
            X.nodes-add_tail X.empty source,
          );
          owners = λ i h. ground (arith, h, get_after i, v.owners i);
          running = λ j. ground (
            arith,
            v.running j,
            X.nodes-add_tail s.cache_request_timeout_list s.cache_node_count,
            occurrences-append j (nodes s.cache_request_timeout_list) s.cache_node_count,
          );
          finished = λ j. ground (arith, v.finished j);
          results = λ j h. elim (Bool-cases (s.cache_node_count == j)) [
            | inl same ↦ rw same tt
            | inr other ↦ rw other (v.results j (ground (arith, h, other)))
          ];
          mapped = λ n k h. ground (arith, h, v.mapped n k);
          timed = λ j h. elim (Bool-cases (s.cache_node_count == j)) [
            | inl same ↦ rw (same, times) (λ z. omega (arith, z, started))
            | inr other ↦ rw (other, times) (v.timed j (ground (arith, h, other)))
          ];
          ascending = rw (X.nodes-add_tail s.cache_request_timeout_list s.cache_node_count) (
              Ascending-append (times Address S T X created) 1 (nodes s.cache_request_timeout_list)
                s.now s.cache_node_count (ground arith)
                (Ascending-same (times Address S T X s) (times Address S T X created) 1
                  (nodes s.cache_request_timeout_list) s.now (λ j h. ground (arith, h, v.running j))
                  v.ascending));
        }
