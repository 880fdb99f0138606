-- ===== src/Dns/Runs.antt =====
-- The resolver with its query threads: any order of requests, ticks and finished queries.
use pp.Prelude.{
  ℕ, ◌+◌, ◌≤◌, ◌<◌, ◌^◌, ◌≡◌, Bool, List, [], ◌∷◌, ◌++◌, none, some, ◌==◌, Bytes, arith,
  Option-cases, Bool-cases, inl, inr, refl, sym, subst,
}
use pp.Xel.Storage.{Storage}
use pp.Xel.NodeList.{NodeList}
use pp.Auth.References.{occurrences}
use pp.Auth.References.Pool.{occurrences-append}
use pp.RequestMap.Counts.{occurrences-without}
use pp.Dns.{RequestNode, SourceNode, Resolver, Answer, Outcome, after, dns_cache_timeout_ms}
use pp.Dns.Ticking.{tick}
use pp.Dns.Requests.{Resolved, resolve_dns, take_requests, finish_request}
use pp.Dns.Invariant.{Resolving}
use pp.Dns.Invariant.Ticks.{Ticked, tick-Ticked}
use pp.Dns.Invariant.Asks.{Asked, resolve_dns-Asked}

occurrences-both :
    (i : ℕ) (xs ys : List ℕ) → occurrences i (xs ++ ys) ≡ occurrences i xs + occurrences i ys
occurrences-both i [] ys = omega arith
occurrences-both i (x ∷ xs) ys = omega (arith, occurrences-both i xs ys)

pub data DnsEvent (Address : Type 0) : Type 0 where
  asks : (name : Bytes) (future : ℕ) → DnsEvent Address
  ticks : (alive : ℕ → Bool) (now : ℕ) → DnsEvent Address
  takes : DnsEvent Address
  finishes : (request : ℕ) (a4 a6 : List Address) → DnsEvent Address

-- The clock does not run back, and has run for the timeout of the cache before the first tick.
abbrev pub Timed : {Address : Type 0} → ℕ → List (DnsEvent Address) → Type 0
Timed now [] = Unit {0}
Timed now (ticks alive next ∷ es) =
    (now ≤ next) × (dns_cache_timeout_ms ≤ next) × (next < 2 ^ 64) × Timed next es
Timed now (asks name future ∷ es) = Timed now es
Timed now (takes ∷ es) = Timed now es
Timed now (finishes j a4 a6 ∷ es) = Timed now es

module _ (Address : Type 0) (unknown : Address) (S : Storage (RequestNode Address))
    (T : Storage SourceNode) (X : NodeList) where
  open X use {Links, nodes}

  abbrev State : Type 0
  State = Resolver Address S T X

  abbrev pub without_reply : Resolved Address unknown S T X → Outcome Address S T X
  without_reply none = none
  without_reply (some (kept, t, es)) = some (t, es)

  unfoldable pub step_dns : DnsEvent Address → State → Outcome Address S T X
  unfolding resolve_dns tick take_requests finish_request
  step_dns (asks name future) s = without_reply (resolve_dns Address unknown S T X name future s)
  step_dns (ticks alive now) s = tick Address unknown S T X alive now s
  step_dns takes s = some (take_requests Address unknown S T X s, [])
  step_dns (finishes j a4 a6) s = some (finish_request Address unknown S T X j a4 a6 s, [])

  unfoldable pub run_dns : List (DnsEvent Address) → State → Outcome Address S T X
  unfolding step_dns
  run_dns [] s = some (s, [])
  run_dns (event ∷ events) s = elim (step_dns event s) [
    | none ↦ none
    | some (t, es) ↦ after Address S T X es (run_dns events t)
  ]

  abbrev pub Safe : State → Type 0
  Safe s = (owner : ℕ → ℕ) × Resolving Address S T X [] owner s

  module _ (owner : ℕ → ℕ) (s : State) (v : Resolving Address S T X [] owner s) where
    take_requests-Resolving :
        Resolving Address S T X [] owner (take_requests Address unknown S T X s)
    unfolding take_requests
    take_requests-Resolving = record {
      requests = λ i. ground (
        arith,
        v.requests i,
        X.nodes-empty,
        X.nodes-grab_list_tail s.taken s.request_list,
        occurrences-both i (nodes s.taken) (nodes s.request_list),
      );
      sources = v.sources;
      owners = v.owners;
      running = v.running;
      finished = v.finished;
      results = v.results;
      mapped = v.mapped;
      timed = v.timed;
      ascending = v.ascending;
    }

    finish_request-Resolving :
        (j : ℕ) (a4 a6 : List Address)
        → Resolving Address S T X [] owner (finish_request Address unknown S T X j a4 a6 s)
    unfolding finish_request
    finish_request-Resolving j a4 a6 = elim (Option-cases (S.check_and_get s.dns_request_pool j)) [
      | inl e ↦ rw (e, finish_request) v
      | inr (r, e) ↦ elim (Bool-cases (occurrences j (nodes s.taken) == 0)) [
        | inl absent ↦ rw (e, absent, finish_request) v
        | inr present ↦
            rw (e, present, finish_request)
              (record {
                requests = λ i. ground (
                  arith,
                  v.requests i,
                  v.requests j,
                  present,
                  e,
                  X.nodes-unlink s.taken j,
                  occurrences-without j i (nodes s.taken),
                  X.nodes-add_tail s.request_finished_list j,
                  occurrences-append i (nodes s.request_finished_list) j,
                  S.get-write s.dns_request_pool j
                      (record r { a4_list = r.a4_list ++ a4; a6_list = r.a6_list ++ a6 }) r i e,
                );
                sources = v.sources;
                owners = v.owners;
                running = v.running;
                finished = v.finished;
                results = v.results;
                mapped = v.mapped;
                timed = v.timed;
                ascending = v.ascending;
              })
      ]
    ]

  -- The time after an event is that of the last tick.
  abbrev time_after : ℕ → DnsEvent Address → ℕ
  time_after now (asks name future) = now
  time_after now (ticks alive next) = next
  time_after now takes = now
  time_after now (finishes j a4 a6) = now

  abbrev Arrives : ℕ → Outcome Address S T X → Type 0
  Arrives now none = ⊥
  Arrives now (some (t, es)) = Safe t × (t.now ≡ now)

  Asked-Arrives :
      (now future : ℕ) (o : Resolved Address unknown S T X)
      → Asked Address unknown S T X now future o
      → Arrives now (without_reply o)
  Asked-Arrives now future none h = h
  Asked-Arrives now future (some (kept, t, es)) (owner, v, same, accepted) = ((owner, v), same)

  Ticked-Arrives :
      (owner : ℕ → ℕ) (now : ℕ) (o : Outcome Address S T X)
      → Ticked Address unknown S T X owner now o
      → Arrives now o
  Ticked-Arrives owner now none h = h
  Ticked-Arrives owner now (some (t, es)) h = ((owner, h.0), h.1)

  step_dns-Arrives :
      (event : DnsEvent Address) (events : List (DnsEvent Address)) (s : State)
      → Safe s
      → Timed s.now (event ∷ events)
      → Arrives (time_after s.now event) (step_dns event s)
  unfolding step_dns
  step_dns-Arrives (asks name future) events s (owner, v) h =
      Asked-Arrives s.now future (resolve_dns Address unknown S T X name future s)
        (resolve_dns-Asked Address unknown S T X owner s v future name)
  step_dns-Arrives (ticks alive now) events s (owner, v) h =
      Ticked-Arrives owner now (tick Address unknown S T X alive now s)
        (tick-Ticked Address unknown S T X owner alive now s v h.0 h.1 h.2)
  step_dns-Arrives takes events s (owner, v) h = ((owner, take_requests-Resolving owner s v), refl)
  step_dns-Arrives (finishes j a4 a6) events s (owner, v) h =
      ((owner, finish_request-Resolving owner s v j a4 a6), ground arith)

  later_events :
      (event : DnsEvent Address) (events : List (DnsEvent Address)) (now : ℕ)
      → Timed now (event ∷ events)
      → Timed (time_after now event) events
  later_events (asks name future) events now h = h
  later_events (ticks alive next) events now h = h.3
  later_events takes events now h = h
  later_events (finishes j a4 a6) events now h = h

  abbrev pub Runs : Outcome Address S T X → Type 0
  Runs none = ⊥
  Runs (some (t, es)) = Safe t

  Runs-after :
      (es : List (Answer Address)) (o : Outcome Address S T X)
      → Runs o
      → Runs (after Address S T X es o)
  Runs-after es none h = h
  Runs-after es (some (t, fs)) h = h

  -- From a state in which the lists and pools agree, in any order of requests, ticks, and steps of
  -- the query threads, no assertion fails, and they agree afterwards. The clock does not run back,
  -- and has run for the timeout of the cache at every tick.
  pub run_dns-Runs :
      (events : List (DnsEvent Address)) (s : State)
      → Safe s
      → Timed s.now events
      → Runs (run_dns events s)
  unfolding run_dns
  run_dns-Runs [] s v h = v
  run_dns-Runs (event ∷ events) s v h =
      go
        (λ t same w.
          run_dns-Runs events t w
            (subst (λ n. Timed n events) (sym same) (later_events event events s.now h)))
        (step_dns event s) (step_dns-Arrives event events s v h)
    where
      go :
          ((t : State) → t.now ≡ time_after s.now event → Safe t → Runs (run_dns events t))
          → (o : Outcome Address S T X) → Arrives (time_after s.now event) o
          → Runs (elim o [ none ↦ none | some (t, es) ↦ after Address S T X es (run_dns events t) ])
      go next none a = a
      go next (some (t, es)) a = Runs-after es (run_dns events t) (next t a.1 a.0)
