-- ===== src/ServerList/Client.antt =====
-- ppp/lib_component/small_server_list_tcp_client.cpp: a connection to each server of a list.
pub mod Connected
pub mod Indexing
pub mod Updates
pub mod Posting
use pp.Prelude.{
  ℕ, zero, suc, ◌%◌, Bool, true, false, ◌&&◌, List, [], ◌∷◌, Option, none, some, ◌==◌, leb,
  if◌then◌else◌, Eq, add64, low32, length, get_elem?,
}
use pp.Xel.ClientPool.{ClientPool}
use pp.Xel.ServerIds.{ServerIds}
use pp.Audit.Collectors.{ServerInfo}
use pp.ServerList.{no_server, small_index, max_small_server_list_size}

pub record LocalInfo (Address : Type 0) : Type 0 where
  pub connection_id : ℕ
  pub server_info : ServerInfo Address

module _ {Address : Type 0} ⦃e : Eq Address⦄ (unknown : Address) (ids : ServerIds)
    (P : ClientPool Address) where
  open P use {Pool, add_server, remove_server}

  -- `PackedServerList` up to its size.
  pub record Client : Type 0 where
    pub server_info_container : ℕ → LocalInfo Address
    pub client_pool : Pool
    pub packed_server_list : List ℕ
    pub next_post_data_server_index : ℕ

  abbrev pub Servers : Type 0
  Servers = ℕ → ServerInfo Address

  -- The first loop of UpdateServerList: the servers by their indices, and the packed list. `none` for
  -- a failed assertion and for an index out of bounds.
  unfoldable pub index_servers : List (ServerInfo Address) → Servers → Option (Servers × List ℕ)
  unfolding small_index
  index_servers [] servers = some (servers, [])
  index_servers (s ∷ ss) servers = elim (small_index ids s.server_id) [
    | none ↦ none
    | some i ↦ elim (leb max_small_server_list_size i) [
      | true ↦ none
      | false ↦ elim (index_servers ss (λ j. if i == j then s else servers j)) [
        | none ↦ none
        | some (all, packed) ↦ some (all, i ∷ packed)
      ]
    ]
  ]

  unfoldable pub same_server : ServerInfo Address → ServerInfo Address → Bool
  same_server a b = a.server_id == b.server_id && e.beq a.address b.address

  abbrev pub put : ℕ → LocalInfo Address → Pool → Client → Client
  put i info pool c = record c {
    server_info_container = λ j. if i == j then info else c.server_info_container j;
    client_pool = pool;
  }

  -- AddServer for a server that is in the new list, which `SERVICE_RUNTIME_ASSERT` wants to succeed.
  unfoldable pub connect : ℕ → ServerInfo Address → Client → Option Client
  connect i new c =
      if new.server_id == 0
      then some c
      else (let (id, pool) = add_server c.client_pool new.address in
          if id == 0
          then none
          else some (put i (record { connection_id = id; server_info = new }) pool c))

  -- The body of the second loop.
  unfoldable pub update_server : ℕ → ServerInfo Address → Client → Option Client
  unfolding connect same_server
  update_server i new c =
      let old = c.server_info_container i in
      if old.connection_id == 0
      then connect i new c
      else if same_server new old.server_info
      then some c
      else connect i new (
          put i (record { connection_id = 0; server_info = old.server_info })
            (remove_server c.client_pool old.connection_id) c)

  unfoldable pub update_servers : ℕ → Servers → Client → Option Client
  unfolding update_server
  update_servers zero servers c = some c
  update_servers (suc n) servers c = elim (update_servers n servers c) [
    | none ↦ none
    | some d ↦ update_server n (servers n) d
  ]

  unfoldable pub update_server_list : List (ServerInfo Address) → Client → Option Client
  unfolding index_servers update_servers
  update_server_list list c = elim (index_servers list (λ i. no_server unknown)) [
    | none ↦ none
    | some (servers, packed) ↦
        update_servers max_small_server_list_size servers (record c { packed_server_list = packed })
  ]

  -- PostMessage: the connection that is written to, if there is a server.
  unfoldable pub post_message : (hash : ℕ) → Client → Option (Option ℕ)
  post_message hash c =
      if length c.packed_server_list == 0
      then some none
      else elim (get_elem? c.packed_server_list (hash % length c.packed_server_list)) [
        | none ↦ none
        | some i ↦
            if (c.server_info_container i).connection_id == 0
            then none
            else some (some (c.server_info_container i).connection_id)
      ]

  -- PostMessage without a hash.
  unfoldable pub post_message_next : Client → Option (Client × Option ℕ)
  unfolding post_message
  post_message_next c = elim (post_message (low32 c.next_post_data_server_index) c) [
    | none ↦ none
    | some to ↦
        some (record c { next_post_data_server_index = add64 c.next_post_data_server_index 1 }, to)
  ]
