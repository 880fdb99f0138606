-- ===== src/Dns/Stale/Asks.antt =====
-- ResolveDns keeps the results of names.
use pp.Prelude.{
  List, Option, ◌≢◌, [], some, refl, sym, subst, ◌∙◌, ℕ, ◌≡◌, Bool, true, false, none, arith, ◌==◌,
  if◌then◌else◌, Bytes, bytes_eq, bytes_eq_iff, Bool-cases, Option-cases, inl, inr, ap,
}
use pp.Xel.Storage.{Storage}
use pp.Xel.NodeList.{NodeList}
use pp.Dns.Picks.{pick_dns_result-lists}
use pp.Dns.{CacheResult, RequestNode, SourceNode, Resolver, Outcome, pick_dns_result}
use pp.Dns.Requests.{new_query, append_request, answer_cached, resolve_dns}
use pp.Dns.Runs.{without_reply}
use pp.Dns.Stale.{Cached, Keeps}

module _ (Address : Type 0) (unknown : Address) (S : Storage (RequestNode Address))
    (T : Storage SourceNode) (X : NodeList) where
  open X use {Links, nodes, unlink, add_tail}

  abbrev State : Type 0
  State = Resolver Address S T X

  module _ (name : Bytes) (k : ℕ) (four six : List Address) where
    abbrev Kept : Outcome Address S T X → Type 0
    Kept = Keeps Address unknown S T X name k four six

    abbrev FoundAt : Option (CacheResult Address) → Type 0
    FoundAt o = (r : CacheResult Address) × (o ≡ some r) × (r.a4_list ≡ four) × (r.a6_list ≡ six)

    -- The request of a query for another name.
    asked_quiet :
        (other : Bytes) (s : State)
        → Cached Address unknown S T X name k four six s
        → bytes_eq other name ≡ false
        → ((S.acquire s.dns_request_pool).0 == 0) ≡ false
        → (i : ℕ) (r : RequestNode Address)
        → S.check_and_get
            (S.write
              (S.acquire s.dns_request_pool).1
              (S.acquire s.dns_request_pool).0
              (record { hostname = other; a4_list = []; a6_list = [] }))
            i
          ≡ some r
        → r.hostname ≢ name
    asked_quiet other s v differs space i r at named =
        elim (Bool-cases ((S.acquire s.dns_request_pool).0 == i)) [
          | inl same ↦
              let host : other ≡ r.hostname = ground (arith, at, stored, same) in
              absurd (ground (arith, (bytes_eq_iff other name).1 (host ∙ named), differs))
          | inr apart ↦ v.quiet i r (ground (arith, at, stored, apart, before i)) named
        ]
      where
        got : (S.acquire s.dns_request_pool).0 ≢ 0
        got = ground (arith, space)

        before :
            (l : ℕ)
            → S.check_and_get (S.acquire s.dns_request_pool).1 l ≡ (
                if (S.acquire s.dns_request_pool).0 == l
                then some S.initial
                else S.check_and_get s.dns_request_pool l)
        before l = S.get-acquire s.dns_request_pool l got

        stored :
            S.check_and_get
              (S.write
                (S.acquire s.dns_request_pool).1
                (S.acquire s.dns_request_pool).0
                (record { hostname = other; a4_list = []; a6_list = [] }))
              i
            ≡ (if (S.acquire s.dns_request_pool).0 == i
                then some (record { hostname = other; a4_list = []; a6_list = [] })
                else S.check_and_get (S.acquire s.dns_request_pool).1 i)
        stored =
            S.get-write (S.acquire s.dns_request_pool).1 (S.acquire s.dns_request_pool).0
              (record { hostname = other; a4_list = []; a6_list = [] }) S.initial i
              (ground (arith, before (S.acquire s.dns_request_pool).0))

    new_query-Keeps :
        (other : Bytes) (future : ℕ) (s : State)
        → Cached Address unknown S T X name k four six s
        → s.cache_map other ≡ none
        → Kept
            (without_reply Address unknown S T X (new_query Address unknown S T X other future s))
    unfolding new_query
    new_query-Keeps other future s v missing =
        elim (Bool-cases ((T.acquire s.dns_source_request_pool).0 == 0)) [
          | inl full ↦
              rw (new_query, full)
                (record {
                  mapped = v.mapped;
                  finished = v.finished;
                  made = v.made;
                  own = v.own;
                  quiet = v.quiet;
                  found = v.found;
                })
          | inr room ↦ elim (Bool-cases ((S.acquire s.dns_request_pool).0 == 0)) [
            | inl full ↦
                rw (new_query, room, full)
                  (record {
                    mapped = v.mapped;
                    finished = v.finished;
                    made = v.made;
                    own = v.own;
                    quiet = λ i r at. v.quiet i r (
                        ground (
                          arith,
                          at,
                          S.get-acquire_full s.dns_request_pool i (ground (arith, full)),
                        ));
                    found = v.found;
                  })
            | inr space ↦
                rw (new_query, room, space)
                  (record {
                    mapped = rw differs v.mapped;
                    finished = rw newer v.finished;
                    made = omega (arith, v.made);
                    own = λ n at. elim (Bool-cases (bytes_eq other n)) [
                      | inl same ↦ absurd (ground (arith, at, same, v.made))
                      | inr apart ↦ v.own n (ground (arith, at, apart))
                    ];
                    quiet = asked_quiet other s v differs space;
                    found = rw newer v.found;
                  })
          ]
        ]
      where
        newer : (s.cache_node_count == k) ≡ false
        newer = ground (arith, v.made)

        differs : bytes_eq other name ≡ false
        differs = elim (Bool-cases (bytes_eq other name)) [
          | inl same ↦
              absurd (
                ground
                  (arith, ap s.cache_map ((bytes_eq_iff other name).0 same), missing, v.mapped))
          | inr other ↦ other
        ]

    append_request-Keeps :
        (j future : ℕ) (s : State)
        → Cached Address unknown S T X name k four six s
        → Kept
            (without_reply Address unknown S T X (append_request Address unknown S T X j future s))
    unfolding append_request
    append_request-Keeps j future s v =
        elim (Bool-cases ((T.acquire s.dns_source_request_pool).0 == 0)) [
          | inl full ↦
              rw (append_request, full)
                (record {
                  mapped = v.mapped;
                  finished = v.finished;
                  made = v.made;
                  own = v.own;
                  quiet = v.quiet;
                  found = v.found;
                })
          | inr room ↦
              rw (append_request, room)
                (record {
                  mapped = v.mapped;
                  finished = ground (arith, v.finished);
                  made = v.made;
                  own = v.own;
                  quiet = v.quiet;
                  found = elim (Bool-cases (j == k)) [
                    | inl same ↦
                        let at : j ≡ k = ground (arith, same) in
                        rw same (subst (λ l. FoundAt (s.cache_node l).result) (sym at) v.found)
                    | inr differs ↦ rw differs v.found
                  ];
                })
        ]

    answer_cached-Keeps :
        (j future : ℕ) (s : State)
        → Cached Address unknown S T X name k four six s
        → Kept
            (without_reply Address unknown S T X (answer_cached Address unknown S T X j future s))
    unfolding answer_cached
    answer_cached-Keeps j future s v = elim (Option-cases ((s.cache_node j).result)) [
      | inl nothing ↦ rw (answer_cached, nothing) tt
      | inr (r, e) ↦ elim (Option-cases (pick_dns_result Address unknown r)) [
        | inl out ↦ rw (answer_cached, e, out) tt
        | inr ((d, r'), picked) ↦
            rw (answer_cached, e, picked)
              (record {
                mapped = v.mapped;
                finished = ground (arith, v.finished);
                made = v.made;
                own = v.own;
                quiet = v.quiet;
                found = elim (Bool-cases (j == k)) [
                  | inl same ↦
                      let (q, at, fours, sixes) = v.found in
                      let kept = pick_dns_result-lists Address unknown r d r' picked in
                      let is : q ≡ r = ground (arith, same, e, at) in
                      rw same (
                        r',
                        refl,
                        kept.0 ∙ ap (λ q. q.a4_list) (sym is) ∙ fours,
                        kept.1 ∙ ap (λ q. q.a6_list) (sym is) ∙ sixes,
                      )
                  | inr differs ↦ rw differs v.found
                ];
              })
      ]
    ]

    pub resolve_dns-Keeps :
        (other : Bytes) (future : ℕ) (s : State)
        → Cached Address unknown S T X name k four six s
        → Kept
            (without_reply Address unknown S T X (resolve_dns Address unknown S T X other future s))
    unfolding resolve_dns
    resolve_dns-Keeps other future s v = elim (Option-cases (s.cache_map other)) [
      | inl missing ↦ rw (resolve_dns, missing) (new_query-Keeps other future s v missing)
      | inr (j, e) ↦ elim (Bool-cases ((s.cache_node j).timestamp_ms == 0)) [
        | inl never ↦ rw (resolve_dns, e, never) tt
        | inr stamped ↦ rw (resolve_dns, e, stamped) (known j (s.cache_node j).query_finished)
      ]
    ]
      where
        known :
            (j : ℕ) (b : Bool)
            → Kept (
                without_reply Address unknown S T X (
                  if b
                  then answer_cached Address unknown S T X j future s
                  else append_request Address unknown S T X j future s))
        known j true = answer_cached-Keeps j future s v
        known j false = append_request-Keeps j future s v
