-- ===== src/RequestMap/Tests.antt =====
-- The map of requests on concrete inputs.
use pp.Prelude.{ℕ, ◌≡◌, ◌≢◌, refl, arith, [], none, some}
use pp.Xel.Storage.{Storage}
use pp.Xel.Instances.{counting_storage, plain_list, no_counted}
use pp.RequestMap.{SourceRequestNode, RequestMap, acquire, get_and_release, tick}
use pp.RequestMap.Counts.{Counts, acquire-Counts, acquire-get}
use pp.RequestMap.Expiry.{Expired, tick-Expired}

abbrev new_request : SourceRequestNode ℕ
new_request = record {
  request = record { source_handle = 0; source_request_id = 0; source_request_timestamp_ms = 0 };
  request_id = 0;
}

abbrev requests : Storage (SourceRequestNode ℕ)
requests = counting_storage (SourceRequestNode ℕ) new_request

abbrev empty_map : RequestMap ℕ requests plain_list
empty_map = record {
  now = 5_000;
  request_timeout_ms = 1_000;
  pool = no_counted;
  timeout_queue = [];
  total_request_count = 0;
}

empty_map-Counts : Counts ℕ requests plain_list empty_map
empty_map-Counts = record { listed = λ i. ground arith; counted = refl }

fresh : (acquire ℕ requests plain_list 42 7 empty_map).0 ≢ 0
unfolding acquire
fresh = omega arith

acquire_get_example :
    Counts ℕ requests plain_list (acquire ℕ requests plain_list 42 7 empty_map).1
    × ((get_and_release ℕ requests plain_list
          (acquire ℕ requests plain_list 42 7 empty_map).0
          (acquire ℕ requests plain_list 42 7 empty_map).1).0
        ≡ some (record {
          source_handle = 42;
          source_request_id = 7;
          source_request_timestamp_ms = 5_000;
        }))
    × Counts ℕ requests plain_list
        (get_and_release ℕ requests plain_list
          (acquire ℕ requests plain_list 42 7 empty_map).0
          (acquire ℕ requests plain_list 42 7 empty_map).1).1
    × ((get_and_release ℕ requests plain_list
          (acquire ℕ requests plain_list 42 7 empty_map).0
          (get_and_release ℕ requests plain_list
            (acquire ℕ requests plain_list 42 7 empty_map).0
            (acquire ℕ requests plain_list 42 7 empty_map).1).1).0
        ≡ none)
acquire_get_example = acquire-get ℕ requests plain_list 42 7 empty_map empty_map-Counts fresh

expiry_example :
    Expired ℕ requests plain_list
      (tick ℕ requests plain_list 9_000 (acquire ℕ requests plain_list 42 7 empty_map).1)
expiry_example =
    tick-Expired ℕ requests plain_list 9_000 (acquire ℕ requests plain_list 42 7 empty_map).1
      (acquire-Counts ℕ requests plain_list 42 7 empty_map empty_map-Counts)
