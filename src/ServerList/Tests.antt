-- ===== src/ServerList/Tests.antt =====
-- Server lists on concrete inputs.
use pp.Prelude.{refl, arith, inl, List, [], ◌∷◌, none, some, false}
use pp.Xel.Instances.{
  counting_client_pool, no_counted, plain_ids, plain_address, plain_address-eq, plain_list,
  PlainAddress,
}
use pp.Xel.NetAddress.{is4}
use pp.Audit.Collectors.{ServerInfo}
use pp.ServerList.{no_server, small_index}
use pp.ServerList.Client.{
  Client, update_server_list, post_message, update_servers, index_servers, update_server, connect,
  same_server,
}
use pp.ServerList.Client.Connected.{Connected}
use pp.ServerList.Client.Indexing.{Listed}
use pp.ServerList.Client.Updates.{Updated, update_server_list-Updated}
use pp.ServerList.Client.Posting.{Posted, post_message-Posted}
use pp.ServerList.Publisher.{Publisher, new_list}
use pp.ServerList.Downloader.{Update}
use pp.ServerList.System.{
  System, ListEvent, publishes, adds, serves, delivers, enables, ticks, step_lists, run_lists,
}
use pp.ServerList.System.Consistent.{Consistent}
use pp.ServerList.System.Shown.{Allows, Shown, run_lists-Shown}
use pp.ServerList.System.Served.{run_lists-Updated}

abbrev first_address : PlainAddress
first_address = record { kind = is4; octets = 10 ∷ 0 ∷ 0 ∷ 1 ∷ []; port = 80 }

abbrev second_address : PlainAddress
second_address = record { kind = is4; octets = 10 ∷ 0 ∷ 0 ∷ 2 ∷ []; port = 80 }

abbrev two_servers : List (ServerInfo PlainAddress)
two_servers =
    (record { server_id = 1_001; address = first_address })
    ∷ (record { server_id = 1_003; address = second_address })
    ∷ []

two_servers-Listed : Listed plain_ids two_servers
two_servers-Listed = (
  omega arith,
  omega arith,
  omega arith,
  (omega arith, tt),
  (omega arith, omega arith, omega arith, tt, tt),
)

abbrev no_connections : Client plain_address.unknown plain_ids (counting_client_pool PlainAddress)
no_connections = record {
  server_info_container =
      λ i. record { connection_id = 0; server_info = no_server plain_address.unknown };
  client_pool = no_counted;
  packed_server_list = [];
  next_post_data_server_index = 0;
}

no_connections-Connected :
    Connected plain_address.unknown plain_ids (counting_client_pool PlainAddress) no_connections
no_connections-Connected = record {
  open_for = λ i h. absurd (h refl);
  named = λ i h. absurd (h refl);
  placed = λ i h. absurd (h refl);
  distinct = λ i j h. absurd (h refl);
  held = λ k. inl (ground arith);
}

two_servers_example :
    Updated plain_address.unknown plain_ids
      (counting_client_pool PlainAddress)
      two_servers
      no_connections
      (update_server_list plain_address.unknown plain_ids
        (counting_client_pool PlainAddress)
        two_servers
        no_connections)
two_servers_example =
    update_server_list-Updated plain_address.unknown plain_ids (counting_client_pool PlainAddress)
      two_servers no_connections no_connections-Connected two_servers-Listed

-- After the update.
abbrev connected_two : Client plain_address.unknown plain_ids (counting_client_pool PlainAddress)
unfolding update_server_list
connected_two =
    elim (update_server_list plain_address.unknown plain_ids (counting_client_pool PlainAddress)
      two_servers no_connections) [ none ↦ no_connections | some d ↦ d ]

fourth_post_example :
    Posted plain_address.unknown plain_ids
      (counting_client_pool PlainAddress)
      two_servers
      3
      connected_two
      (post_message plain_address.unknown plain_ids
        (counting_client_pool PlainAddress)
        3
        connected_two)
unfolding update_server_list index_servers small_index update_servers update_server connect
    same_server
fourth_post_example =
    post_message-Posted plain_address.unknown plain_ids (counting_client_pool PlainAddress)
      two_servers no_connections connected_two 3 no_connections-Connected two_servers-Listed refl

abbrev Lists : Type 0
Lists = System plain_address plain_ids 60_000 plain_list

-- No group is published.
abbrev first_publisher : Publisher plain_address plain_ids
first_publisher = λ g. none

abbrev start : Lists
start = record {
  publisher = first_publisher;
  downloader = record {
    now = 0;
    server_list_server_master_address = first_address;
    server_list_server_list = [];
    enabled_server_group_list = [];
    enabled_server_group_map = λ g. record {
      enabled = false;
      server_group = 0;
      version_timestamp_ms = 0;
      last_update_timestamp_ms = 0;
      server_list_size = 0;
      server_list = none;
    };
    last_update_server_list_slave_list_timestamp_ms = 0;
  };
  requests = [];
  replies = [];
  updates = [];
  past = first_publisher ∷ [];
}

start-Consistent : Consistent plain_address plain_ids 60_000 plain_list start
start-Consistent = record {
  sound = record {
    slots = λ g l e. ground (arith, e);
    current = λ g l e. inl (l, e, refl);
    built = λ g l e clean. ground (arith, e, clean);
  };
  showing = record {
    on = λ g e. ground (arith, e);
    off = λ g e. (refl, refl);
    linked = λ g. refl;
    no_slaves = refl;
  };
  own = tt;
  replied_well = tt;
  updated_well = tt;
}

-- A group is published, a server registers, the list of its group is asked for, and the reply arrives twice.
abbrev events : List (ListEvent PlainAddress)
events =
    publishes 1
    ∷ adds 1_001 second_address
    ∷ enables 1
    ∷ ticks (λ n. 0) 60_000
    ∷ serves 1 60_010
    ∷ delivers 0
    ∷ delivers 0
    ∷ []

events-Allows : Allows plain_address plain_ids 60_000 plain_list events start
unfolding step_lists
events-Allows = (
  refl,
  (
    (((new_list plain_address plain_ids, refl), omega arith), λ l e. ground (arith, e)),
    ((omega arith, omega arith, refl), (tt, (tt, (tt, (tt, tt))))),
  ),
)

repeated_reply_example :
    Shown plain_address plain_ids 60_000 plain_list
      (run_lists plain_address plain_ids 60_000 plain_list events start)
repeated_reply_example =
    run_lists-Shown plain_address plain_ids 60_000 plain_list events start start-Consistent
      events-Allows

-- The state after the events.
abbrev finish : Lists
unfolding run_lists
finish = elim (run_lists plain_address plain_ids 60_000 plain_list events start) [
  | none ↦ start
  | some t ↦ t
]

abbrev one_server : Update PlainAddress
one_server = record {
  group = 1;
  servers = (record { server_id = 1_001; address = second_address }) ∷ [];
  version = 60_010;
}

followed_update_example :
    Updated plain_address.unknown plain_ids
      (counting_client_pool PlainAddress)
      one_server.servers
      no_connections
      (update_server_list plain_address.unknown plain_ids
        (counting_client_pool PlainAddress)
        one_server.servers
        no_connections)
unfolding run_lists
followed_update_example =
    run_lists-Updated plain_address plain_ids 60_000 plain_list (counting_client_pool PlainAddress)
      events start finish 0 one_server no_connections start-Consistent events-Allows refl refl
      no_connections-Connected
