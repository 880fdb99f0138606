-- ===== src/Dns/Tests.antt =====
-- The resolver on concrete inputs.
use pp.Prelude.{
  ℕ, arith, true, false, List, [], ◌∷◌, none, some, refl, bytes_eq, bytes_eq_iff, sym, Bool-cases,
  inl, inr,
}
use pp.Xel.Storage.{Storage}
use pp.Xel.Instances.{counting_storage, plain_list, no_counted}
use pp.Dns.{RequestNode, SourceNode, CacheResult, Resolver, pick_next, pick_dns_result}
use pp.Dns.Ticking.{tick}
use pp.Dns.Requests.{resolve_dns}
use pp.Dns.Picks.{InTurn, pick_many-InTurn}
use pp.Dns.Invariant.{Resolving}
use pp.Dns.Invariant.Ticks.{Ticked, tick-Ticked}
use pp.Dns.Invariant.Asks.{Asked, resolve_dns-Asked}
use pp.Dns.Stale.{Cached}
use pp.Dns.Stale.Answers.{Answers, run_dns-Answers}
use pp.Dns.Runs.{DnsEvent, asks, ticks, takes, finishes, run_dns, Runs, run_dns-Runs}

abbrev two_lists : CacheResult ℕ
two_lists = record {
  a4_list = 7 ∷ 8 ∷ 9 ∷ [];
  a6_list = [];
  last_a4_result_index = 0;
  last_a6_result_index = 0;
}

four_picked_example : InTurn ℕ 0 4 two_lists (
    some (
      record { a4 = 8; a6 = 0 }
      ∷ record { a4 = 9; a6 = 0 }
      ∷ record { a4 = 7; a6 = 0 }
      ∷ record { a4 = 8; a6 = 0 }
      ∷ []))
unfolding pick_dns_result pick_next
four_picked_example =
    pick_many-InTurn ℕ 0 4 two_lists (record { four = omega arith; six = omega arith })

abbrev requests : Storage (RequestNode ℕ)
requests = counting_storage (RequestNode ℕ) (record { hostname = []; a4_list = []; a6_list = [] })

abbrev sources : Storage SourceNode
sources = counting_storage SourceNode (record { future_handle = 0 })

abbrev start : Resolver ℕ requests sources plain_list
start = record {
  now = 3_000_000;
  request_list = [];
  taken = [];
  request_finished_list = [];
  dns_request_pool = no_counted;
  dns_source_request_pool = no_counted;
  cache_map = λ n. none;
  cache_node = λ k. record {
    query_finished = false;
    timestamp_ms = 0;
    pending_source_request_list = [];
    result = none;
  };
  cache_node_count = 0;
  cache_request_timeout_list = [];
  cache_timeout_list = [];
  on_going_dns_request_count = 0;
}

start-Resolving : Resolving ℕ requests sources plain_list [] (λ i. 0) start
start-Resolving = record {
  requests = λ i. ground arith;
  sources = λ i k. ground arith;
  owners = λ i h. ground (arith, h);
  running = λ k. ground arith;
  finished = λ k. ground arith;
  results = λ k h. absurd (omega (arith, h));
  mapped = λ n k h. ground (arith, h);
  timed = λ k h. absurd (omega (arith, h));
  ascending = omega arith;
}

abbrev two_names : List (DnsEvent ℕ)
two_names =
    asks (1 ∷ []) 5
    ∷ takes
    ∷ asks (2 ∷ []) 6
    ∷ finishes 1 (70 ∷ []) []
    ∷ ticks (λ f. true) 3_000_100
    ∷ asks (1 ∷ []) 7
    ∷ []

two_names_example :
    Runs ℕ 0 requests sources plain_list (run_dns ℕ 0 requests sources plain_list two_names start)
two_names_example =
    run_dns-Runs ℕ 0 requests sources plain_list two_names start (λ i. 0, start-Resolving)
      (omega arith)

first_name_example :
    Asked ℕ 0 requests sources plain_list 3_000_000 5
      (resolve_dns ℕ 0 requests sources plain_list (1 ∷ []) 5 start)
first_name_example =
    resolve_dns-Asked ℕ 0 requests sources plain_list (λ i. 0) start start-Resolving 5 (1 ∷ [])

quiet_tick_example :
    Ticked ℕ 0 requests sources plain_list
      (λ i. 0)
      3_000_200
      (tick ℕ 0 requests sources plain_list (λ f. true) 3_000_200 start)
quiet_tick_example =
    tick-Ticked ℕ 0 requests sources plain_list (λ i. 0) (λ f. true) 3_000_200 start start-Resolving
      (omega arith) (omega arith) (omega arith)

-- After the two names.
abbrev served : Resolver ℕ requests sources plain_list
unfolding run_dns
served = elim (run_dns ℕ 0 requests sources plain_list two_names start) [
  | none ↦ start
  | some (t, es) ↦ t
]

served-Cached : Cached ℕ 0 requests sources plain_list (1 ∷ []) 0 (70 ∷ []) [] served
unfolding run_dns bytes_eq
served-Cached = record {
  mapped = refl;
  finished = refl;
  made = omega arith;
  own = λ n at. elim (Bool-cases (bytes_eq (2 ∷ []) n)) [
    | inl other ↦ absurd (ground (arith, at, other))
    | inr apart ↦ elim (Bool-cases (bytes_eq (1 ∷ []) n)) [
      | inl same ↦ sym ((bytes_eq_iff (1 ∷ []) n).0 same)
      | inr neither ↦ absurd (ground (arith, at, apart, neither))
    ]
  ];
  quiet = λ i r at named. ground (arith, at, named);
  found = (
    record { a4_list = 70 ∷ []; a6_list = []; last_a4_result_index = 0; last_a6_result_index = 0 },
    refl,
    refl,
    refl,
  );
}

kept_name_example :
    Answers ℕ 0 requests sources plain_list
      (1 ∷ [])
      0
      (70 ∷ [])
      []
      (run_dns ℕ 0 requests sources plain_list (ticks (λ f. true) 90_000_000 ∷ []) served)
unfolding run_dns bytes_eq
kept_name_example =
    run_dns-Answers ℕ 0 requests sources plain_list (1 ∷ []) 0 (70 ∷ []) []
      (ticks (λ f. true) 90_000_000 ∷ []) served
      (run_dns-Runs ℕ 0 requests sources plain_list two_names start (λ i. 0, start-Resolving)
        (omega arith))
      (omega arith) served-Cached
