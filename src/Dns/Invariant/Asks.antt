-- ===== src/Dns/Invariant/Asks.antt =====
-- A request for a name waits for its query, or is answered at once.
use pp.Prelude.{
  ℕ, ◌<◌, ◌≡◌, ◌≢◌, ◌⊎◌, Bool, true, false, List, [], ◌∷◌, none, some, ◌==◌, if◌then◌else◌, Bytes,
  arith, Option-cases, Bool-cases, inl, inr, refl, sym, subst,
}
use pp.Xel.Storage.{Storage}
use pp.Xel.NodeList.{NodeList}
use pp.Dns.{RequestNode, SourceNode, DnsResult, Resolver, Answer}
use pp.Dns.Requests.{Resolved, new_query, append_request, answer_cached, resolve_dns}
use pp.Dns.Picks.{pick_dns_result-InRange}
use pp.Dns.Invariant.{Resolving}
use pp.Dns.Invariant.Appending.{
  same_pools, get_after, appended-Resolving, created-Resolving, fresh, source, sources_after,
  owner_after,
}
use pp.Dns.Invariant.Picking.{finished_result, picked-Resolving}

module _ (Address : Type 0) (unknown : Address) (S : Storage (RequestNode Address))
    (T : Storage SourceNode) (X : NodeList) where
  open X use {Links, nodes}

  abbrev State : Type 0
  State = Resolver Address S T X

  -- The future waits, or is answered at once; it is refused with no answer.
  abbrev pub Accepted : (future : ℕ) → Bool → State → List (Answer Address) → Type 0
  Accepted future false t es = es ≡ []
  Accepted future true t es =
      ((i : ℕ) × (T.check_and_get t.dns_source_request_pool i
          ≡ some (record { future_handle = future }))
        × (es ≡ []))
      ⊎ ((d : DnsResult Address) × (es ≡ record { future = future; answer = some d } ∷ []))

  abbrev pub Asked : (now future : ℕ) → Resolved Address unknown S T X → Type 0
  Asked now future none = ⊥
  Asked now future (some (kept, t, es)) =
      (owner : ℕ → ℕ) × Resolving Address S T X [] owner t
      × (t.now ≡ now)
      × Accepted future kept t es

  module _ (owner : ℕ → ℕ) (s : State) (v : Resolving Address S T X [] owner s) (future : ℕ) where
    refused_pool :
        (p : T.Pool) (q : S.Pool)
        → ((i : ℕ) → T.check_and_get p i ≡ T.check_and_get s.dns_source_request_pool i)
        → ((i : ℕ) → S.check_and_get q i ≡ S.check_and_get s.dns_request_pool i)
        → Asked s.now future
            (some (false, record s { dns_source_request_pool = p; dns_request_pool = q }, []))
    refused_pool p q h h' =
        (owner, same_pools Address unknown S T X owner s v future p q h h', refl, refl)

    new_query-Asked :
        (name : Bytes) → Asked s.now future (new_query Address unknown S T X name future s)
    unfolding new_query
    new_query-Asked name = elim (Bool-cases ((T.acquire s.dns_source_request_pool).0 == 0)) [
      | inl full ↦
          rw (full, new_query)
            (refused_pool (T.acquire s.dns_source_request_pool).1 s.dns_request_pool
              (λ i. T.get-acquire_full s.dns_source_request_pool i (ground (arith, full)))
              (λ i. refl))
      | inr free ↦
          let got : (T.acquire s.dns_source_request_pool).0 ≢ 0 = ground (arith, free) in
          elim (Bool-cases ((S.acquire s.dns_request_pool).0 == 0)) [
            | inl full ↦
                rw (free, full, new_query)
                  (refused_pool
                    (T.release (sources_after Address unknown S T X owner s v future got)
                      (source Address unknown S T X owner s v future got))
                    (S.acquire s.dns_request_pool).1
                    (λ i. ground (
                      arith,
                      get_after Address unknown S T X owner s v future got i,
                      fresh Address unknown S T X owner s v future got,
                      T.get-release (sources_after Address unknown S T X owner s v future got)
                          (source Address unknown S T X owner s v future got) i,
                    ))
                    (λ i. S.get-acquire_full s.dns_request_pool i (ground (arith, full))))
            | inr free' ↦
                let taken : (S.acquire s.dns_request_pool).0 ≢ 0 = ground (arith, free') in
                rw (free, free', new_query)
                  (
                    owner_after Address unknown S T X owner s v future got s.cache_node_count,
                    created-Resolving Address unknown S T X owner s v future got name taken,
                    refl,
                    inl (
                      source Address unknown S T X owner s v future got,
                      ground (
                        arith,
                        get_after Address unknown S T X owner s v future got
                            (source Address unknown S T X owner s v future got),
                      ),
                      refl,
                    ),
                  )
          ]
    ]

    append_request-Asked :
        (k : ℕ)
        → k < s.cache_node_count
        → (s.cache_node k).query_finished ≡ false
        → Asked s.now future (append_request Address unknown S T X k future s)
    unfolding append_request
    append_request-Asked k below runs =
        elim (Bool-cases ((T.acquire s.dns_source_request_pool).0 == 0)) [
          | inl full ↦
              rw (full, append_request)
                (refused_pool (T.acquire s.dns_source_request_pool).1 s.dns_request_pool
                  (λ i. T.get-acquire_full s.dns_source_request_pool i (ground (arith, full)))
                  (λ i. refl))
          | inr free ↦
              let got : (T.acquire s.dns_source_request_pool).0 ≢ 0 = ground (arith, free) in
              rw (free, append_request)
                (
                  owner_after Address unknown S T X owner s v future got k,
                  appended-Resolving Address unknown S T X owner s v future got k below runs,
                  refl,
                  inl (
                    source Address unknown S T X owner s v future got,
                    ground (
                      arith,
                      get_after Address unknown S T X owner s v future got
                          (source Address unknown S T X owner s v future got),
                    ),
                    refl,
                  ),
                )
        ]

    answer_cached-Asked :
        (k : ℕ)
        → k < s.cache_node_count
        → (s.cache_node k).query_finished ≡ true
        → Asked s.now future (answer_cached Address unknown S T X k future s)
    unfolding answer_cached
    answer_cached-Asked k below finishes =
        let (r, has, in_range) =
          finished_result Address unknown S T X owner s v (s.cache_node k).query_finished
            (s.cache_node k).result (v.results k below) finishes in
        let (d, r', picks, in_range') = pick_dns_result-InRange Address unknown r in_range in
        rw (has, picks, answer_cached)
          (
            owner,
            picked-Resolving Address unknown S T X owner s v k r' finishes in_range',
            refl,
            inr (d, refl),
          )

    by_state :
        (k : ℕ)
        → k < s.cache_node_count
        → (finished : Bool) → (s.cache_node k).query_finished ≡ finished
        → Asked s.now future (
            if finished
            then answer_cached Address unknown S T X k future s
            else append_request Address unknown S T X k future s)
    by_state k below true finishes = answer_cached-Asked k below finishes
    by_state k below false runs = append_request-Asked k below runs

    -- From a state in which the lists and pools agree no assertion fails in ResolveDns, and they
    -- agree afterwards. It returns true where the future waits for a query, or has been given a
    -- result at once; where it returns false nothing has been answered.
    pub resolve_dns-Asked :
        (name : Bytes) → Asked s.now future (resolve_dns Address unknown S T X name future s)
    unfolding resolve_dns
    resolve_dns-Asked name = elim (Option-cases (s.cache_map name)) [
      | inl e ↦ rw (e, resolve_dns) (new_query-Asked name)
      | inr (k, e) ↦
          let below : k < s.cache_node_count = v.mapped name k e in
          let timed : ((s.cache_node k).timestamp_ms == 0) ≡ false =
            ground (arith, v.timed k below) in
          subst (Asked s.now future) (sym (rw (e, timed, resolve_dns) refl))
            (by_state k below (s.cache_node k).query_finished refl)
    ]
