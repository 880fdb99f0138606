-- ===== src/Audit/Tests.antt =====
-- The audit service on concrete inputs.
use pp.Prelude.{ℕ, ◌≡◌, refl, arith, ◌⊎◌, inl, List, [], ◌∷◌, ℕ-eq}
use pp.Xel.Instances.{counting_client_pool, add_counted, no_counted}
use pp.Audit.Usage.{Report, audit_report}
use pp.Audit.Collectors.{
  ServerInfo, Collectors, st_audit_collector, on_server_list_updated, post_report,
}
use pp.Audit.Collectors.Sync.{InSync}
use pp.Audit.Collectors.Update.{Updated, update-Updated}
use pp.Audit.Collectors.Kept.{StaysIn, update-StaysIn}
use pp.Audit.Collectors.Reports.{Posted, post_report-Posted}
use pp.Audit.Domain.{extract_second_level_domain, last_dot_below}
use pp.Audit.Domain.Labels.{Whole, LastTwo, extract-Whole-or-LastTwo}

-- "a.b.c"
abbrev three_labels : List ℕ
three_labels = b'a' ∷ b'.' ∷ b'b' ∷ b'.' ∷ b'c' ∷ []

extract_three_labels : extract_second_level_domain three_labels ≡ b'b' ∷ b'.' ∷ b'c' ∷ []
unfolding extract_second_level_domain last_dot_below
extract_three_labels = refl

extract_three_labels_example :
    Whole three_labels (extract_second_level_domain three_labels)
    ⊎ LastTwo three_labels (extract_second_level_domain three_labels)
extract_three_labels_example = extract-Whole-or-LastTwo three_labels

-- Two collectors, at the addresses 10 and 30.
abbrev two_collectors : Collectors (counting_client_pool ℕ)
two_collectors = record {
  list =
      (record { info = record { server_id = 1; address = 10 }; connection_id = 1 })
      ∷ (record { info = record { server_id = 3; address = 30 }; connection_id = 2 })
      ∷ [];
  reporter = (add_counted (add_counted no_counted 10).1 30).1;
  no_server_report = 0;
}

-- The first stays, the second moves, and there is a third between them.
abbrev next_list : List (ServerInfo ℕ)
next_list =
    (record { server_id = 1; address = 10 })
    ∷ (record { server_id = 2; address = 20 })
    ∷ (record { server_id = 3; address = 31 })
    ∷ []

two_collectors-InSync : InSync (counting_client_pool ℕ) two_collectors.reporter two_collectors.list
two_collectors-InSync = record { open_for = λ c. ground arith; distinct = λ c. ground arith }

update_example :
    Updated
      (counting_client_pool ℕ)
      next_list
      (on_server_list_updated (counting_client_pool ℕ) st_audit_collector next_list two_collectors)
update_example =
    update-Updated (counting_client_pool ℕ) next_list two_collectors two_collectors-InSync

stays_example :
    StaysIn
      (counting_client_pool ℕ)
      (record { info = record { server_id = 1; address = 10 }; connection_id = 1 })
      (on_server_list_updated (counting_client_pool ℕ) st_audit_collector next_list two_collectors)
stays_example =
    update-StaysIn (counting_client_pool ℕ)
      (record { info = record { server_id = 1; address = 10 }; connection_id = 1 }) next_list
      two_collectors ((omega arith, tt), (tt, tt))
      ((omega arith, (omega arith, tt)), ((omega arith, tt), (tt, tt))) (inl refl) (inl refl)

abbrev a_report : Report
a_report = audit_report (record {
  global_auth_id = 5;
  start_timestamp_ms = 0;
  period_ms = 0;
  total_tcp_connections = 1;
  total_tcp_bytes_from_client = 0;
  total_tcp_bytes_to_client = 0;
  total_udp_channels = 0;
  total_udp_bytes_from_client = 0;
  total_udp_bytes_to_client = 0;
})

post_report_example :
    Posted
      (counting_client_pool ℕ)
      two_collectors
      a_report
      (post_report (counting_client_pool ℕ) two_collectors 5 a_report)
post_report_example =
    post_report-Posted (counting_client_pool ℕ) two_collectors 5 a_report two_collectors-InSync
