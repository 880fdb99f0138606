-- ===== src/Dns/Invariant/Dispatching.antt =====
-- The queries that have finished are dispatched, with no assertion failed.
use pp.Prelude.{
  ℕ, ◌<◌, ◌≡◌, Bool, List, [], ◌∷◌, none, some, sub64, arith, Option-cases, inl, inr, refl, subst,
}
use pp.Xel.Storage.{Storage}
use pp.Xel.NodeList.{NodeList}
use pp.Auth.References.Pool.{occurrences-append}
use pp.RequestMap.Counts.{occurrences-without}
use pp.Dns.{RequestNode, SourceNode, Resolver, Answer, Outcome, after, give_picked}
use pp.Dns.Ticking.{dispatch_one, dispatch_all, dispatch_resolve_results}
use pp.Dns.Order.{Ascending-without}
use pp.Dns.Picks.{give_picked-Gives}
use pp.Dns.Invariant.{Resolving, times}
use pp.Dns.Invariant.Settling.{Ends, settle-Ends}

module _ (Address : Type 0) (unknown : Address) (S : Storage (RequestNode Address))
    (T : Storage SourceNode) (X : NodeList) (owner : ℕ → ℕ) where
  open X use {Links, nodes}

  abbrev State : Type 0
  State = Resolver Address S T X

  abbrev Inv : List ℕ → State → Type 0
  Inv left s = Resolving Address S T X left owner s

  abbrev Done : List ℕ → (now : ℕ) → Outcome Address S T X → Type 0
  Done left now o = Ends Address unknown S T X left owner now o

  dispatch_one-Ends :
      (alive : ℕ → Bool) (i : ℕ) (left : List ℕ) (request : RequestNode Address) (s : State)
      → Inv left s
      → Done left s.now (dispatch_one Address unknown S T X alive i request s)
  unfolding dispatch_one
  dispatch_one-Ends alive i left request s v = elim (Option-cases (s.cache_map request.hostname)) [
    | inl e ↦
        rw (e, dispatch_one)
          (
            (record {
              requests = v.requests;
              sources = v.sources;
              owners = v.owners;
              running = v.running;
              finished = v.finished;
              results = v.results;
              mapped = v.mapped;
              timed = v.timed;
              ascending = v.ascending;
            }),
            refl,
          )
    | inr (k, e) ↦
        let below : k < s.cache_node_count = v.mapped request.hostname k e in
        rw (e, dispatch_one)
          (settle-Ends Address unknown S T X left owner s v k below
            (X.unlink s.cache_request_timeout_list k)
            (X.add_tail (X.unlink s.cache_timeout_list k) k) (sub64 s.on_going_dns_request_count 1)
            (λ j. ground (
              arith,
              X.nodes-unlink s.cache_request_timeout_list k,
              occurrences-without k j (nodes s.cache_request_timeout_list),
            ))
            (λ j. ground (
              arith,
              X.nodes-add_tail (X.unlink s.cache_timeout_list k) k,
              X.nodes-unlink s.cache_timeout_list k,
              occurrences-append j (nodes (X.unlink s.cache_timeout_list k)) k,
              occurrences-without k j (nodes s.cache_timeout_list),
            ))
            (rw (X.nodes-unlink s.cache_request_timeout_list k) (
              Ascending-without (times Address S T X s) k 1 (nodes s.cache_request_timeout_list)
                s.now v.ascending))
            (give_picked Address unknown) (give_picked-Gives Address unknown) alive
            (record {
              a4_list = request.a4_list;
              a6_list = request.a6_list;
              last_a4_result_index = 0;
              last_a6_result_index = 0;
            })
            (record { four = omega arith; six = omega arith }))
  ]

  pub Done-after :
      (left : List ℕ) (now : ℕ) (es : List (Answer Address)) (o : Outcome Address S T X)
      → Done left now o
      → Done left now (after Address S T X es o)
  Done-after left now es none h = h
  Done-after left now es (some (t, fs)) h = h

  release-Resolving :
      (i : ℕ) (is : List ℕ) (t : State)
      → Inv (i ∷ is) t
      → Inv is (record t { dns_request_pool = S.release t.dns_request_pool i })
  release-Resolving i is t v = record {
    requests =
        λ j. ground (arith, v.requests j, v.requests i, S.get-release t.dns_request_pool i j);
    sources = v.sources;
    owners = v.owners;
    running = v.running;
    finished = v.finished;
    results = v.results;
    mapped = v.mapped;
    timed = v.timed;
    ascending = v.ascending;
  }

  dispatch_all-Ends :
      (alive : ℕ → Bool) (is : List ℕ) (s : State)
      → Inv is s
      → Done [] s.now (dispatch_all Address unknown S T X alive is s)
  unfolding dispatch_all
  dispatch_all-Ends alive [] s v = (v, refl)
  dispatch_all-Ends alive (i ∷ is) s v =
      elim (Option-cases (S.check_and_get s.dns_request_pool i)) [
        | inl e ↦ absurd (ground (arith, v.requests i, e))
        | inr (request, e) ↦
            rw (e, dispatch_all)
              (go
                (λ t same w.
                  subst
                    (λ n. Done [] n (
                      dispatch_all Address unknown S T X alive is
                        (record t { dns_request_pool = S.release t.dns_request_pool i })))
                    same
                    (dispatch_all-Ends alive is
                      (record t { dns_request_pool = S.release t.dns_request_pool i }) w))
                (dispatch_one Address unknown S T X alive i request s)
                (dispatch_one-Ends alive i (i ∷ is) request s v))
      ]
    where
      go :
          ((t : State)
            → t.now ≡ s.now
            → Inv is (record t { dns_request_pool = S.release t.dns_request_pool i })
            → Done [] s.now (
                dispatch_all Address unknown S T X alive is
                  (record t { dns_request_pool = S.release t.dns_request_pool i })))
          → (o : Outcome Address S T X) → Done (i ∷ is) s.now o
          → Done [] s.now (elim o [
            | none ↦ none
            | some (t, es) ↦ after Address S T X es (
                dispatch_all Address unknown S T X alive is
                  (record t { dns_request_pool = S.release t.dns_request_pool i }))
          ])
      go next none h = h
      go next (some (t, es)) h =
          Done-after [] s.now es
            (dispatch_all Address unknown S T X alive is
              (record t { dns_request_pool = S.release t.dns_request_pool i }))
            (next t h.1 (release-Resolving i is t h.0))

  pub dispatch-Ends :
      (alive : ℕ → Bool) (s : State)
      → Inv [] s
      → Done [] s.now (dispatch_resolve_results Address unknown S T X alive s)
  unfolding dispatch_resolve_results
  dispatch-Ends alive s v =
      dispatch_all-Ends alive (nodes s.request_finished_list)
        (record s { request_finished_list = X.empty })
        (record {
          requests = λ i. ground (arith, v.requests i, X.nodes-empty);
          sources = v.sources;
          owners = v.owners;
          running = v.running;
          finished = v.finished;
          results = v.results;
          mapped = v.mapped;
          timed = v.timed;
          ascending = v.ascending;
        })
