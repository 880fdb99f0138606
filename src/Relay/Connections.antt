-- ===== src/Relay/Connections.antt =====
-- The connections from the local devices to the targets:
-- ppp/lib_component/relay_local_device_service.cpp.
pub mod Resolved
pub mod Marks
pub mod Creating
pub mod Resolving
pub mod Cleaning
pub mod Ticking
pub mod Steps
use pp.Prelude.{
  ℕ, zero, suc, Bool, true, false, not, ◌||◌, List, [], ◌∷◌, ◌++◌, Option, none, some, ◌==◌, leb,
  if◌then◌else◌, Bytes, add64, sub64, length,
}
use pp.Xel.Storage.{Storage}
use pp.Xel.NodeList.{NodeList}

abbrev pub idle_connection_timeout_ms : ℕ
idle_connection_timeout_ms = 125_000

-- `xRelayLocalDeviceConnection`; the handle is the identifier of the future, 0 for an empty one.
pub record Connection : Type 0 where
  pub connection_id : ℕ
  pub proxy_side_connection_id : ℕ
  pub create_connection_future_handle : ℕ
  pub delete_mark : Bool
  pub timestamp_ms : ℕ

-- What an operation does outside of the service.
pub data Effect : Type 0 where
  set_ready : (future : ℕ) (result : Option ℕ) → Effect
  close_proxy_side : ℕ → Effect
  post_proxy_side : ℕ → Bytes → Effect
  post_target : (connection : ℕ) → Bytes → Effect

module _ (S : Storage Connection) (X : NodeList) where
  open S use {Pool, check_and_get, write}
  open X use {Links, add_tail, unlink, pop_head_if}

  pub record Connections : Type 0 where
    pub now : ℕ  -- LocalTicker()
    pub pool : Pool
    pub idle : Links  -- ConnectionIdleTimeoutList
    pub kill : Links  -- ConnectionKillList
    pub connection_count : ℕ

  -- GrabTail: a node moves to the end of a list from the list that it is linked in.
  unfoldable pub grab_idle : ℕ → Connections → Connections
  grab_idle i s = record s { idle = add_tail (unlink s.idle i) i; kill = unlink s.kill i }

  unfoldable pub grab_kill : ℕ → Connections → Connections
  grab_kill i s = record s { idle = unlink s.idle i; kill = add_tail (unlink s.kill i) i }

  -- KeepAlive of the connection `c` with the identifier `i`.
  unfoldable pub keep_connection_alive : ℕ → Connection → Connections → Bool × Connections
  unfolding grab_idle
  keep_connection_alive i c s = if c.delete_mark then (false, s) else (
    true,
    grab_idle i (record s { pool = write s.pool i (record c { timestamp_ms = s.now }) }),
  )

  -- A future that is still there is set ready.
  unfoldable pub ready : (alive : ℕ → Bool) → ℕ → Option ℕ → List Effect
  ready alive future result =
      if future == 0 then [] else if alive future then set_ready future result ∷ [] else []

  -- DeferDestroyConnection: only the first call does something.
  unfoldable pub defer_destroy :
      (alive : ℕ → Bool) → ℕ → Connection → Connections → Connections × List Effect
  unfolding grab_kill ready
  defer_destroy alive i c s = if c.delete_mark then (s, []) else (
    grab_kill i (record s {
      pool = write s.pool i (record c { delete_mark = true; create_connection_future_handle = 0 });
    }),
    ready alive c.create_connection_future_handle none,
  )

  -- CreateConnection to an address, from a device that was found.
  unfoldable pub create_relay_connection :
      (can_connect : Bool) → (proxy_side future : ℕ) → Connections → Connections × List Effect
  create_relay_connection can_connect proxy_side future s =
      let (i, p) = S.acquire s.pool in
      if i == 0
      then (record s { pool = p }, set_ready future none ∷ [])
      else if not can_connect
      then (record s { pool = S.release p i }, set_ready future none ∷ [])
      else (
        record s {
          pool = write p i (record {
            connection_id = i;
            proxy_side_connection_id = proxy_side;
            create_connection_future_handle = future;
            delete_mark = false;
            timestamp_ms = 0;
          });
          connection_count = add64 s.connection_count 1;
        },
        [],
      )

  -- DestroyConnection: the handle is cleared first.
  unfoldable pub destroy_relayed : (alive : ℕ → Bool) → ℕ → Connections → Connections × List Effect
  unfolding defer_destroy
  destroy_relayed alive i s = elim (check_and_get s.pool i) [
    | none ↦ (s, [])
    | some c ↦
        let c' : Connection = record c { create_connection_future_handle = 0 } in
        defer_destroy alive i c' (record s { pool = write s.pool i c' })
  ]

  -- OnConnected, of the connection `c` with the identifier `i`.
  unfoldable pub on_connected :
      (alive : ℕ → Bool) → ℕ → Connection → Connections → Connections × List Effect
  unfolding keep_connection_alive
  on_connected alive i c s =
      if c.create_connection_future_handle == 0
      then (s, [])
      else (let c' : Connection = record c { create_connection_future_handle = 0 } in
          let s' : Connections = record s { pool = write s.pool i c' } in
          if alive c.create_connection_future_handle
          then (
            (keep_connection_alive i c' s').1,
            set_ready c.create_connection_future_handle (some c.connection_id) ∷ [],
          )
          else (s', []))

  -- OnPeerClose
  unfoldable pub on_target_close :
      (alive : ℕ → Bool) → ℕ → Connection → Connections → Connections × List Effect
  unfolding defer_destroy
  on_target_close alive i c s =
      let (s', es) = defer_destroy alive i c s in
      (s', close_proxy_side c.proxy_side_connection_id ∷ es)

  -- OnData: the bytes that are consumed, and where they go.
  unfoldable pub on_target_data :
      ℕ → Connection → Bytes → Connections → ℕ × Connections × List Effect
  unfolding keep_connection_alive
  on_target_data i c payload s =
      let (alive, s') = keep_connection_alive i c s in
      if alive
      then (length payload, s', post_proxy_side c.proxy_side_connection_id payload ∷ [])
      else (0, s', [])

  -- PostData for a connection.
  unfoldable pub post_to_target : (connected : Bool) → ℕ → Bytes → Connections → List Effect
  post_to_target connected i payload s = elim (check_and_get s.pool i) [
    | none ↦ []
    | some c ↦ if c.delete_mark || not connected then [] else post_target i payload ∷ []
  ]

  -- `TimestampMS <= KillTimepoint`, of the node with an identifier.
  abbrev pub is_idle : Connections → ℕ → Bool
  is_idle s i = elim (check_and_get s.pool i) [
    | none ↦ false
    | some c ↦ leb c.timestamp_ms (sub64 s.now idle_connection_timeout_ms)
  ]

  -- The state that DeferDestroyIdleConnections leaves, with fuel; `none`: out of fuel, or a node that
  -- is not in use. The futures that it sets ready are those of defer_destroy.
  unfoldable pub defer_destroy_idle : (alive : ℕ → Bool) → ℕ → Connections → Option Connections
  unfolding defer_destroy
  defer_destroy_idle alive zero s = none
  defer_destroy_idle alive (suc fuel) s = elim (pop_head_if s.idle (is_idle s)) [
    | none ↦ some s
    | some (i, rest) ↦ elim (check_and_get s.pool i) [
      | none ↦ none
      | some c ↦
          defer_destroy_idle alive fuel (defer_destroy alive i c (record s { idle = rest })).0
    ]
  ]

  -- CleanDyingConnections with fuel.
  unfoldable pub clean_dying : ℕ → Connections → Option Connections
  clean_dying zero s = none
  clean_dying (suc fuel) s = elim (pop_head_if s.kill (λ i. true)) [
    | none ↦ some s
    | some (i, rest) ↦ clean_dying fuel (record s {
      kill = rest;
      pool = S.release s.pool i;
      connection_count = sub64 s.connection_count 1;
    })
  ]

  -- DeferDestroyIdleConnections and CleanDyingConnections; one round for each node of a list, and
  -- one for the end, are enough.
  unfoldable pub sweep_connections : (alive : ℕ → Bool) → Connections → Option Connections
  unfolding defer_destroy_idle clean_dying
  sweep_connections alive s = elim (defer_destroy_idle alive (suc (length (X.nodes s.idle))) s) [
    | none ↦ none
    | some t ↦ clean_dying (suc (length (X.nodes t.kill))) t
  ]
