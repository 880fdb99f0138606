-- ===== src/ServerList/Downloader.antt =====
-- ppp/lib_component/small_server_list_downloader.cpp
pub mod Views
pub mod Enabling
pub mod Responses
pub mod Asking
use pp.Prelude.{
  ℕ, Bool, true, false, not, ◌||◌, ◌&&◌, List, [], ◌∷◌, ◌++◌, Option, none, some, ◌==◌, leb, ltb,
  if◌then◌else◌, sub64, length, get_elem?, take, drop, replicate,
}
use pp.Xel.NodeList.{NodeList}
use pp.Auth.References.{occurrences, is_some}
use pp.Audit.Collectors.{ServerInfo}
use pp.ServerList.{no_server, Response, Reply, Request, max_small_server_list_size}

-- A call of OnServerListUpdated.
pub record Update (Address : Type 0) : Type 0 where
  pub group : ℕ
  pub servers : List (ServerInfo Address)
  pub version : ℕ

-- `xEnabledServerGroupNode`
pub record GroupNode (Address : Type 0) : Type 0 where
  pub enabled : Bool
  pub server_group : ℕ
  pub version_timestamp_ms : ℕ
  pub last_update_timestamp_ms : ℕ
  pub server_list_size : ℕ
  pub server_list : Option (List (ServerInfo Address))

-- UPDATE_SERVER_LIST_TIMEOUT_MS is `timeout`: 60_000 in a debug build, else 15 * 60_000.
module _ (Address : Type 0) (unknown : Address) (timeout : ℕ) (X : NodeList) where
  open X use {Links, add_tail, unlink, nodes}

  pub record Downloader : Type 0 where
    pub now : ℕ  -- LocalTicker()
    pub server_list_server_master_address : Address
    pub server_list_server_list : List Address
    pub enabled_server_group_list : Links
    pub enabled_server_group_map : ℕ → GroupNode Address
    pub last_update_server_list_slave_list_timestamp_ms : ℕ

  abbrev pub set_node : ℕ → GroupNode Address → Downloader → Downloader
  set_node g n d = record d {
    enabled_server_group_map = λ h. if g == h then n else d.enabled_server_group_map h;
  }

  abbrev pub is_linked : ℕ → Downloader → Bool
  is_linked g d = not (occurrences g (nodes d.enabled_server_group_list) == 0)

  -- `none` for a failed assertion and for an index out of bounds.
  unfoldable pub enable_server_group : ℕ → Downloader → Option Downloader
  enable_server_group g d =
      let n = d.enabled_server_group_map g in
      if g == 0 || leb max_small_server_list_size g
      then none
      else if (n.enabled || is_linked g d) || (is_some n.server_list || not (n.server_group == 0))
      then none
      else some
          (record (set_node g
            (record n {
              enabled = true;
              server_group = g;
              server_list = some (replicate max_small_server_list_size (no_server unknown));
              server_list_size = 0;
            })
            d) { enabled_server_group_list = add_tail d.enabled_server_group_list g })

  unfoldable pub disable_server_group : ℕ → Downloader → Option Downloader
  disable_server_group g d =
      let n = d.enabled_server_group_map g in
      if leb max_small_server_list_size g
      then none
      else if (n.enabled && is_linked g d) && (is_some n.server_list && not (n.server_group == 0))
      then some
          (record (set_node g
            (record n {
              enabled = false;
              server_group = 0;
              last_update_timestamp_ms = 0;
              server_list_size = 0;
              server_list = none;
            })
            d) { enabled_server_group_list = unlink d.enabled_server_group_list g })
      else none

  -- The view of a group that is not enabled is empty.
  unfoldable pub get_server_list_view : ℕ → Downloader → Option (List (ServerInfo Address))
  get_server_list_view g d =
      let n = d.enabled_server_group_map g in
      if n.enabled
      then elim n.server_list [ none ↦ none | some l ↦ some (take n.server_list_size l) ]
      else some []

  unfoldable pub select_server_list_server : (random : ℕ → ℕ) → Downloader → Option Address
  select_server_list_server random d =
      if length d.server_list_server_list == 0
      then some d.server_list_server_master_address
      else get_elem? d.server_list_server_list (random (length d.server_list_server_list))

  unfoldable pub update_server_list_slave_list : Downloader → Downloader × List (Request Address)
  update_server_list_slave_list d =
      if ltb (sub64 d.now timeout) d.last_update_server_list_slave_list_timestamp_ms
      then (d, [])
      else (
        record d { last_update_server_list_slave_list_timestamp_ms = d.now },
        (record { to = d.server_list_server_master_address; request_id = 0; server_group = 0 })
            ∷ [],
      )

  abbrev pub is_due : Downloader → ℕ → Bool
  is_due d g = leb (d.enabled_server_group_map g).last_update_timestamp_ms (sub64 d.now timeout)

  unfoldable pub update_one_enabled_server_list :
      (random : ℕ → ℕ) → Downloader → Option (Downloader × List (Request Address))
  unfolding select_server_list_server
  update_one_enabled_server_list random d =
      elim (X.pop_head_if d.enabled_server_group_list (is_due d)) [
        | none ↦ some (d, [])
        | some (g, rest) ↦
            let n = d.enabled_server_group_map g in
            elim (select_server_list_server random d) [
              | none ↦ none
              | some to ↦ some (
                record (set_node g (record n { last_update_timestamp_ms = d.now }) d) {
                  enabled_server_group_list = add_tail rest g;
                },
                (record { to = to; request_id = n.server_group; server_group = n.server_group })
                    ∷ [],
              )
            ]
      ]

  unfoldable pub tick_downloads :
      (random : ℕ → ℕ) (now : ℕ) → Downloader → Option (Downloader × List (Request Address))
  unfolding update_server_list_slave_list update_one_enabled_server_list
  tick_downloads random now d =
      let (d', rs) = update_server_list_slave_list (record d { now = now }) in
      elim (update_one_enabled_server_list random d') [
        | none ↦ none
        | some (d'', qs) ↦ some (d'', rs ++ qs)
      ]

  -- OnUdpPacket for a response; one with too long a list is not deserialized.
  unfoldable pub on_response :
      Reply Address → Downloader → Option (Downloader × List (Update Address))
  on_response r d =
      let n = d.enabled_server_group_map r.request_id in
      let servers = r.response.server_list in
      if ltb max_small_server_list_size r.request_id
        || ltb max_small_server_list_size (length servers)
      then some (d, [])
      else if r.request_id == max_small_server_list_size
      then none
      else if not n.enabled || n.version_timestamp_ms == r.response.version_timestamp_ms
      then some (d, [])
      else elim n.server_list [
        | none ↦ none
        | some l ↦ some (
          set_node r.request_id
              (record n {
                server_list = some (servers ++ drop (length servers) l);
                server_list_size = length servers;
                version_timestamp_ms = r.response.version_timestamp_ms;
              })
              d,
          (record {
            group = r.request_id;
            servers = servers;
            version = r.response.version_timestamp_ms;
          })
              ∷ [],
        )
      ]
