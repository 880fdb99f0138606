-- ===== src/Auth/Tests.antt =====
-- The account service on concrete inputs.
use pp.Prelude.{bytes_eq, ℕ, ◌^◌, ◌<◌, ◌≡◌, refl, arith, true, [], ◌∷◌, none, some}
use pp.Xel.Storage.{Storage}
use pp.Xel.Instances.{counting_storage, plain_list, no_counted}
use pp.Auth.Types.{debug, AuditNode, LocalRecord, no_usage}
use pp.Auth.Service.{AuthService, take_new_map, acquire_auth_info}
use pp.Auth.Reporting.{release_auth_info, tick}
use pp.Audit.Usage.{AuditBlockAccount, bandwidth_limit}
use pp.Auth.Service.{
  answer_record, acquire_from_map, check_and_set_local_auth_id, lift_block, exceeded,
  total_consumed, refused,
}
use pp.Auth.Blocking.{acquire-stays_blocked}
use pp.Auth.Decision.{Decided, answer_record-Decided}
use pp.Auth.References.{Inv, refs}
use pp.Auth.References.Answer.{Acquired, acquire-Acquired}
use pp.Auth.References.Report.{remove_one, release-Inv}
use pp.Auth.References.Tick.{Ended, tick-Ended}

abbrev new_node : AuditNode
new_node = record {
  local_auth_id = 0;
  global_auth_id = 0;
  reference_count = 0;
  last_report_timestamp_ms = 0;
  audit = no_usage;
}

abbrev nodes : Storage AuditNode
nodes = counting_storage AuditNode new_node

-- An account without limits, at the addresses 1 and 2.
abbrev an_account : ℕ → LocalRecord ℕ
an_account id = record {
  local_auth_id = id;
  global_auth_id = 77;
  country_id = 0;
  enable_tcp = true;
  enable_udp = true;
  bandwidth_limit = 0;
  connection_limit = 0;
  proxy_client_address = 1;
  static_export_address = 2;
  block_start_timestamp_ms = 0;
}

-- The account has no node yet.
abbrev unused : AuthService ℕ debug nodes plain_list
unused = record {
  now = 1_000;
  auth_local_map = (5 ∷ [], an_account 0) ∷ [];
  pool = no_counted;
  timeout_list = [];
  new_map = none;
  un_released_auth_info_count = 0;
  cached_auth_info_count = 1;
  cached_auth_info_map_version = 1;
}

unused-Inv : Inv ℕ debug nodes plain_list unused []
unused-Inv = record {
  counted = λ i n h. absurd (ground (arith, h));
  live = λ i z h. absurd (ground (arith, z, h));
  listed = λ i. ground arith;
  given = refl;
  unset = λ m h. absurd (ground (arith, h));
}

acquire_example :
    Acquired ℕ debug nodes plain_list
      (take_new_map ℕ debug nodes plain_list unused)
      []
      (acquire_auth_info ℕ debug nodes plain_list (5 ∷ []) unused)
acquire_example = acquire-Acquired ℕ debug nodes plain_list (5 ∷ []) unused [] unused-Inv

-- The account is granted to one client.
abbrev used : AuthService ℕ debug nodes plain_list
used = record {
  now = 1_000;
  auth_local_map = (5 ∷ [], an_account 1) ∷ [];
  pool = record {
    last = 1;
    at = λ i. some (record {
      local_auth_id = 1;
      global_auth_id = 77;
      reference_count = 2;
      last_report_timestamp_ms = 1_000;
      audit = no_usage;
    });
  };
  timeout_list = 1 ∷ [];
  new_map = none;
  un_released_auth_info_count = 1;
  cached_auth_info_count = 1;
  cached_auth_info_map_version = 1;
}

used-Inv : Inv ℕ debug nodes plain_list used (1 ∷ [])
used-Inv = record {
  counted = λ i n h. ground (arith, h);
  live = λ i z h. ground (arith, z, h);
  listed = λ i. ground arith;
  given = refl;
  unset = λ m h. absurd (ground (arith, h));
}

release_example :
    (t : AuthService ℕ debug nodes plain_list) × (release_auth_info ℕ debug nodes plain_list 1
        no_usage used
      ≡ some t)
    × Inv ℕ debug nodes plain_list t (remove_one 1 (1 ∷ []))
release_example =
    release-Inv ℕ debug nodes plain_list 1 no_usage used (1 ∷ []) used-Inv (omega arith)

used-bounded : (i : ℕ) → refs ℕ debug nodes plain_list i used (1 ∷ []) < 2 ^ 64
used-bounded i = ground arith

tick_example :
    Ended ℕ debug nodes plain_list
      (record used { now = 100_000 })
      (1 ∷ [])
      (tick ℕ debug nodes plain_list 100_000 used)
tick_example =
    tick-Ended ℕ debug nodes plain_list 100_000 used (1 ∷ []) used-Inv used-bounded (omega arith)
      (omega arith)

abbrev used_node : AuditNode
used_node = record {
  local_auth_id = 1;
  global_auth_id = 77;
  reference_count = 2;
  last_report_timestamp_ms = 1_000;
  audit = no_usage;
}

decision_example :
    Decided ℕ debug nodes plain_list 1_000
      (an_account 1)
      no_usage
      (answer_record ℕ debug nodes plain_list (5 ∷ []) (an_account 1) used).1
decision_example =
    answer_record-Decided ℕ debug nodes plain_list (5 ∷ []) (an_account 1) used used_node refl

-- An account that may send ten bytes, and has sent eleven.
abbrev limited : ℕ → LocalRecord ℕ
limited since = record (an_account 1) { bandwidth_limit = 10; block_start_timestamp_ms = since }

abbrev spent_at : ℕ → AuthService ℕ debug nodes plain_list
spent_at since = record used {
  auth_local_map = (5 ∷ [], limited since) ∷ [];
  pool = record {
    last = 1;
    at =
        λ i. some (record used_node { audit = record no_usage { total_tcp_bytes_to_client = 11 } });
  };
}

spent-Inv : Inv ℕ debug nodes plain_list (spent_at 0) (1 ∷ [])
spent-Inv = record {
  counted = λ i n h. ground (arith, h);
  live = λ i z h. ground (arith, z, h);
  listed = λ i. ground arith;
  given = refl;
  unset = λ m h. absurd (ground (arith, h));
}

abbrev over_bandwidth : AuditBlockAccount
over_bandwidth = record {
  auth_id = 77;
  start_timestamp_ms = 1_000;
  period_ms = 60_000;
  reason = bandwidth_limit;
  threshold = 10;
  trigger_value = 11;
}

spent_call :
    acquire_from_map ℕ debug nodes plain_list (5 ∷ []) (spent_at 0)
    ≡ some (spent_at 1_000, record { result = none; reported = some over_bandwidth })
unfolding acquire_from_map check_and_set_local_auth_id answer_record lift_block exceeded
    total_consumed bytes_eq
spent_call = refl

stays_blocked_example :
    acquire_from_map ℕ debug nodes plain_list (5 ∷ []) (record (spent_at 1_000) { now = 30_000 })
    ≡ some (record (spent_at 1_000) { now = 30_000 }, refused)
stays_blocked_example =
    acquire-stays_blocked ℕ debug nodes plain_list (5 ∷ []) (spent_at 0) (spent_at 1_000)
      (record { result = none; reported = some over_bandwidth }) over_bandwidth (1 ∷ []) 30_000
      spent-Inv spent_call refl (omega arith) (omega arith) (omega arith)
