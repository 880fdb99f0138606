-- ===== src/Dns/Stale/Answers.antt =====
-- A name that has its result is answered from it through any run.
use pp.Prelude.{
  ◌++◌, ◌∙◌, ap, subst, arith, true, false, ℕ, ◌≡◌, List, [], ◌∷◌, none, some, ◌==◌, if◌then◌else◌,
  Bytes, Bool-cases, Option-cases, inl, inr, refl,
}
use pp.Xel.Storage.{Storage}
use pp.Xel.NodeList.{NodeList}
use pp.Auth.References.{occurrences}
use pp.Dns.Picks.{FromList, due, pick_dns_result-Picked, turn-FromList}
use pp.Dns.Invariant.Picking.{finished_result}
use pp.Dns.{
  CacheResult, pick_dns_result, set_node, DnsResult, RequestNode, SourceNode, Resolver, Outcome,
  after,
}
use pp.Dns.Requests.{answer_cached, resolve_dns, take_requests, finish_request}
use pp.Dns.Runs.{
  DnsEvent, asks, ticks, takes, finishes, Timed, Safe, Runs, step_dns, run_dns, run_dns-Runs,
}
use pp.Dns.Stale.{Cached, Keeps, Keeps-after}
use pp.Dns.Stale.Ticks.{tick-Keeps}
use pp.Dns.Stale.Asks.{resolve_dns-Keeps}

module _ (Address : Type 0) (unknown : Address) (S : Storage (RequestNode Address))
    (T : Storage SourceNode) (X : NodeList) where
  open X use {Links, nodes, unlink, add_tail}

  abbrev State : Type 0
  State = Resolver Address S T X

  module _ (name : Bytes) (k : ℕ) (four six : List Address) where
    abbrev Kept : Outcome Address S T X → Type 0
    Kept = Keeps Address unknown S T X name k four six

    finish_request-Keeps :
        (j : ℕ) (a4 a6 : List Address) (s : State)
        → Cached Address unknown S T X name k four six s
        → Cached Address unknown S T X name k four six
            (finish_request Address unknown S T X j a4 a6 s)
    unfolding finish_request
    finish_request-Keeps j a4 a6 s v = elim (Option-cases (S.check_and_get s.dns_request_pool j)) [
      | inl missing ↦ rw (finish_request, missing) v
      | inr (r, e) ↦ elim (Bool-cases (occurrences j (nodes s.taken) == 0)) [
        | inl absent ↦ rw (finish_request, e, absent) v
        | inr present ↦
            rw (finish_request, e, present)
              (record {
                mapped = v.mapped;
                finished = v.finished;
                made = v.made;
                own = v.own;
                quiet = λ i q at. elim (Bool-cases (j == i)) [
                  | inl same ↦
                      λ named. v.quiet j r e ((ground (arith, at, written r e i, same)) ∙ named)
                  | inr apart ↦ v.quiet i q (ground (arith, at, written r e i, apart))
                ];
                found = v.found;
              })
      ]
    ]
      where
        written :
            (r : RequestNode Address)
            → S.check_and_get s.dns_request_pool j ≡ some r
            → (i : ℕ)
            → S.check_and_get
                (S.write s.dns_request_pool j
                  (record r { a4_list = r.a4_list ++ a4; a6_list = r.a6_list ++ a6 }))
                i
              ≡ (if j == i
                  then some (record r { a4_list = r.a4_list ++ a4; a6_list = r.a6_list ++ a6 })
                  else S.check_and_get s.dns_request_pool i)
        written r e i =
            S.get-write s.dns_request_pool j
              (record r { a4_list = r.a4_list ++ a4; a6_list = r.a6_list ++ a6 }) r i e

    step_dns-Keeps :
        (event : DnsEvent Address) (s : State)
        → Cached Address unknown S T X name k four six s
        → Kept (step_dns Address unknown S T X event s)
    unfolding step_dns take_requests
    step_dns-Keeps (asks other future) s v =
        resolve_dns-Keeps Address unknown S T X name k four six other future s v
    step_dns-Keeps (ticks alive now) s v =
        tick-Keeps Address unknown S T X name k four six alive now s v
    step_dns-Keeps takes s v = record {
      mapped = v.mapped;
      finished = v.finished;
      made = v.made;
      own = v.own;
      quiet = v.quiet;
      found = v.found;
    }
    step_dns-Keeps (finishes j a4 a6) s v = finish_request-Keeps j a4 a6 s v

    run_dns-Keeps :
        (events : List (DnsEvent Address)) (s : State)
        → Cached Address unknown S T X name k four six s
        → Kept (run_dns Address unknown S T X events s)
    unfolding run_dns
    run_dns-Keeps [] s v = v
    run_dns-Keeps (event ∷ events) s v =
        elim (step_dns Address unknown S T X event s)
            as (λ o.
              Kept o
              → Kept (elim o [
                | none ↦ none
                | some (t, es) ↦ after Address S T X es (run_dns Address unknown S T X events t)
              ])) [
                | none ↦ λ h. h
                | some (t, es) ↦ λ h.
                    Keeps-after Address unknown S T X name k four six es
                      (run_dns Address unknown S T X events t) (run_dns-Keeps events t h)
              ]
          (step_dns-Keeps event s v)

    -- The addresses stay with the node, and a call of ResolveDns for the name returns true and sets
    -- its future ready with one of each of them; there is nothing more for the query threads.
    abbrev pub Answers : Outcome Address S T X → Type 0
    Answers none = ⊥
    Answers (some (t, es)) =
        Cached Address unknown S T X name k four six t
        × ((future : ℕ)
            → (d : DnsResult Address) × (u : State) × (resolve_dns Address unknown S T X name future
                  t
                ≡ some (true, u, record { future = future; answer = some d } ∷ []))
              × FromList Address unknown four d.a4
              × FromList Address unknown six d.a6
              × (u.request_list ≡ t.request_list))

    module _ (t : State) (future : ℕ) where
      asks_cache :
          t.cache_map name ≡ some k
          → ((t.cache_node k).timestamp_ms == 0) ≡ false
          → (t.cache_node k).query_finished ≡ true
          → resolve_dns Address unknown S T X name future t
            ≡ answer_cached Address unknown S T X k future t
      unfolding resolve_dns
      asks_cache mapped timed finished = rw (resolve_dns, mapped, timed, finished) refl

      gives_cached :
          (r r' : CacheResult Address) (d : DnsResult Address)
          → (t.cache_node k).result ≡ some r
          → pick_dns_result Address unknown r ≡ some (d, r')
          → answer_cached Address unknown S T X k future t
            ≡ some (
              true,
              set_node Address S T X k (record (t.cache_node k) { result = some r' }) t,
              record { future = future; answer = some d } ∷ [],
            )
      unfolding answer_cached
      gives_cached r r' d has gives = rw (answer_cached, has, gives) refl

    answered :
        (t : State)
        → Safe Address unknown S T X t
        → Cached Address unknown S T X name k four six t
        → Answers (some (t, []))
    answered t (owner, v) c = (
      c,
      λ future.
          let (q, has, in_range) =
            finished_result Address unknown S T X owner t v (t.cache_node k).query_finished
              (t.cache_node k).result (v.results k c.made) c.finished in
          let (r, at, fours, sixes) = c.found in
          let is : q ≡ r = ground (arith, has, at) in
          let (q', picked) = pick_dns_result-Picked Address unknown q in_range in
          let timed : ((t.cache_node k).timestamp_ms == 0) ≡ false =
            ground (arith, v.timed k c.made) in
          (
            due Address unknown q 0,
            set_node Address S T X k (record (t.cache_node k) { result = some q' }) t,
            asks_cache t future c.mapped timed c.finished
                ∙ gives_cached t future q q' (due Address unknown q 0) has picked.gives,
            subst (λ xs. FromList Address unknown xs (due Address unknown q 0).a4)
                (ap (λ q. q.a4_list) is ∙ fours)
                (turn-FromList Address unknown q.a4_list q.last_a4_result_index 0),
            subst (λ xs. FromList Address unknown xs (due Address unknown q 0).a6)
                (ap (λ q. q.a6_list) is ∙ sixes)
                (turn-FromList Address unknown q.a6_list q.last_a6_result_index 0),
            refl,
          ),
    )

    -- From a state in which the lists and pools agree, a name whose query has found its addresses
    -- keeps them through any order of requests, ticks, and steps of the query threads in which the
    -- clock is as it must be, however far it runs: every later call of ResolveDns for it gives one
    -- of the addresses of each kind (the unknown one where there is none), and asks no thread. No
    -- query for the name must be running any more, as for one that has timed out before it ended.
    pub run_dns-Answers :
        (events : List (DnsEvent Address)) (s : State)
        → Safe Address unknown S T X s
        → Timed s.now events
        → Cached Address unknown S T X name k four six s
        → Answers (run_dns Address unknown S T X events s)
    run_dns-Answers events s safe timed v =
        both (run_dns Address unknown S T X events s)
          (run_dns-Runs Address unknown S T X events s safe timed) (run_dns-Keeps events s v)
      where
        both : (o : Outcome Address S T X) → Runs Address unknown S T X o → Kept o → Answers o
        both none h w = h
        both (some (t, es)) h w = answered t h w
