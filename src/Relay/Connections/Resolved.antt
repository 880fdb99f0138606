-- ===== src/Relay/Connections/Resolved.antt =====
-- The connections to hosts whose names have been resolved: ProcessDnsResults of
-- ppp/lib_component/relay_local_device_service.cpp, with which Tick begins.
use pp.Prelude.{
  ℕ, ◌||◌, Bool, true, false, not, List, [], ◌∷◌, ◌++◌, Option, none, some, ◌==◌, if◌then◌else◌,
}
use pp.Xel.Storage.{Storage}
use pp.Xel.NodeList.{NodeList}
use pp.Xel.NetAddress.{NetAddress, Kind, unknown_address, is4, is6}
use pp.Dns.{DnsResult}
use pp.Relay.Devices.{Device, get_device}
use pp.Relay.Connections.{
  Connection, Connections, Effect, set_ready, create_relay_connection, sweep_connections,
}

-- `xRelayDnsResultFuture`, with the Result of its base; the handle is the identifier of the future.
pub record DnsFuture (Address : Type 0) : Type 0 where
  pub relay_side_device_id : ℕ
  pub proxy_side_connection_id : ℕ
  pub create_connection_future_handle : ℕ
  pub target_port : ℕ
  pub result : Option (DnsResult Address)

module _ (N : NetAddress) (devices : List (Device N.Address)) where
  open N use {Address}

  abbrev pub with_port : Address → ℕ → Option Address
  with_port a port = elim (N.kind a) [
    | unknown_address ↦ none
    | is4 ↦ some (N.make4 (N.octets a) port)
    | is6 ↦ some (N.make6 (N.octets a) port)
  ]

  abbrev pub has_is4 : Kind → Bool
  has_is4 unknown_address = false
  has_is4 is4 = true
  has_is4 is6 = false

  -- The address that CreateConnectionWithDnsResult connects to, if it comes to that.
  unfoldable pub target_address : DnsFuture Address → Option Address
  unfolding get_device
  target_address f = elim f.result [
    | none ↦ none
    | some r ↦ elim (get_device f.relay_side_device_id devices) [
      | none ↦ none
      | some d ↦ with_port (if has_is4 (N.kind d.bind_address) then r.a4 else r.a6) f.target_port
    ]
  ]

  module _ (S : Storage Connection) (X : NodeList) (alive : ℕ → Bool) where
    -- `none` is the failure of the assertion of CreateConnection; `can_connect` is what Init of the
    -- connection returns.
    unfoldable pub create_connection_with_dns_result :
        (can_connect : Bool)
        → DnsFuture Address
        → Connections S X
        → Option (Connections S X × List Effect)
    unfolding target_address
    create_connection_with_dns_result can_connect f s =
        let future = f.create_connection_future_handle in
        if future == 0 || not (alive future) then some (s, []) else elim (target_address f) [
          | none ↦ some (s, set_ready future none ∷ [])
          | some target ↦
              if f.proxy_side_connection_id == 0
              then none
              else some
                  (create_relay_connection S X can_connect f.proxy_side_connection_id future s)
        ]

    -- ProcessDnsResults, on the futures that are ready in their order, each with what Init returns
    -- for it.
    unfoldable pub process_dns_results :
        List (DnsFuture Address × Bool) → Connections S X → Option (Connections S X × List Effect)
    unfolding create_connection_with_dns_result
    process_dns_results [] s = some (s, [])
    process_dns_results ((f, can_connect) ∷ fs) s =
        elim (create_connection_with_dns_result can_connect f s) [
          | none ↦ none
          | some (t, es) ↦ elim (process_dns_results fs t) [
            | none ↦ none
            | some (u, es') ↦ some (u, es ++ es')
          ]
        ]

    -- Tick, without the UDP channels.
    unfoldable pub tick_connections :
        List (DnsFuture Address × Bool) → (now : ℕ) → Connections S X → Option (Connections S X)
    unfolding process_dns_results sweep_connections
    tick_connections fs now s = elim (process_dns_results fs (record s { now = now })) [
      | none ↦ none
      | some (t, es) ↦ sweep_connections S X alive t
    ]
