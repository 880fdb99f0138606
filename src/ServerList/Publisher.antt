-- ===== src/ServerList/Publisher.antt =====
-- s_small_server_list/main.cpp: the lists by group, and the replies to downloads.
pub mod Slots
use pp.Prelude.{
  ℕ, zero, suc, ◌-◌, Bool, true, false, ◌||◌, List, [], ◌∷◌, ◌++◌, Option, none, some, ◌==◌, leb,
  if◌then◌else◌, not, add64,
}
use pp.Xel.ServerIds.{ServerIds}
use pp.Xel.NetAddress.{NetAddress, Kind, unknown_address}
use pp.Audit.Collectors.{ServerInfo}
use pp.ServerList.{no_server, Response, Reply, max_small_server_list_size}

-- operator bool
abbrev pub is_known : Kind → Bool
is_known unknown_address = false
is_known _ = true

module _ (A : NetAddress) (ids : ServerIds) where
  open A use {Address, unknown, kind}

  -- `xBufferedSmallList`; the buffer of the reply is the reply.
  pub record BufferedList : Type 0 where
    pub list : ℕ → ServerInfo Address
    pub resp : Response Address
    pub dirty : Bool
    pub version_timestamp_ms : ℕ

  -- `ServerListMap`
  abbrev pub Publisher : Type 0
  Publisher = ℕ → Option BufferedList

  abbrev pub set_group : ℕ → Option BufferedList → Publisher → Publisher
  set_group g l p = λ h. if g == h then l else p h

  abbrev pub new_list : BufferedList
  new_list = record {
    list = λ i. no_server unknown;
    resp = record { version_timestamp_ms = 0; server_list = [] };
    dirty = true;
    version_timestamp_ms = 0;
  }

  -- EnableServerGroup, and DisableServerGroup, of the publisher.
  unfoldable pub publish_group : ℕ → Publisher → Option Publisher
  publish_group g p = elim (p g) [ none ↦ some (set_group g (some new_list) p) | some l ↦ none ]

  unfoldable pub unpublish_group : ℕ → Publisher → Option Publisher
  unpublish_group g p = elim (p g) [ none ↦ none | some l ↦ some (set_group g none p) ]

  -- The loop of BuildServerListResponse up to an index: the servers that are there, in order.
  abbrev pub listed : ℕ → (ℕ → ServerInfo Address) → List (ServerInfo Address)
  listed zero list = []
  listed (suc n) list =
      if (list n).server_id == 0 then listed n list else listed n list ++ list n ∷ []

  unfoldable pub next_version : (now version : ℕ) → ℕ
  next_version now version = if leb now version then add64 version 1 else now

  unfoldable pub build_server_list_response : (now : ℕ) → BufferedList → BufferedList
  unfolding next_version
  build_server_list_response now l =
      if l.dirty
      then (record l {
        dirty = false;
        version_timestamp_ms = next_version now l.version_timestamp_ms;
        resp = record {
          version_timestamp_ms = next_version now l.version_timestamp_ms;
          server_list = listed max_small_server_list_size l.list;
        };
      })
      else l

  -- What OnNewServerId and OnRemoveServerId do to the place of an identifier; `none` for a failed
  -- assertion.
  unfoldable pub at_place :
      (id : ℕ) → (BufferedList → ℕ → Option BufferedList) → Publisher → Option Publisher
  at_place id change p = elim (p (ids.group_of id)) [
    | none ↦ none
    | some l ↦
        if ids.object_id_of id == 0
        then none
        else if leb max_small_server_list_size (ids.object_id_of id - 1)
        then some p
        else elim (change l (ids.object_id_of id - 1)) [
          | none ↦ none
          | some l' ↦ some (set_group (ids.group_of id) (some l') p)
        ]
  ]

  abbrev pub set_server : ℕ → ServerInfo Address → BufferedList → BufferedList
  set_server i s l = record l { list = λ j. if i == j then s else l.list j; dirty = true }

  unfoldable pub add_server_at : (id : ℕ) → Address → BufferedList → ℕ → Option BufferedList
  add_server_at id address l i =
      if not ((l.list i).server_id == 0) || is_known (kind (l.list i).address)
      then none
      else some (set_server i (record { server_id = id; address = address }) l)

  unfoldable pub on_new_server_id : (id : ℕ) → Address → Publisher → Option Publisher
  unfolding at_place add_server_at
  on_new_server_id id address p = at_place id (add_server_at id address) p

  unfoldable pub on_remove_server_id : (id : ℕ) → Publisher → Option Publisher
  unfolding at_place
  on_remove_server_id id p = at_place id (λ l i. some (set_server i (no_server unknown) l)) p

  unfoldable pub on_download_list :
      (now request_id server_group : ℕ) → Publisher → Publisher × Option (Reply Address)
  unfolding build_server_list_response
  on_download_list now request_id server_group p = elim (p server_group) [
    | none ↦ (p, none)
    | some l ↦
        let l' = build_server_list_response now l in
        (
          set_group server_group (some l') p,
          some (record { request_id = request_id; response = l'.resp }),
        )
  ]
