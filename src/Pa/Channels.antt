-- ===== src/Pa/Channels.antt =====
-- The datagrams of a connection of ppp/lib_component/pa_service.cpp, in both directions.
use pp.Prelude.{
  ℕ, Bool, [], ◌∷◌, Option, none, some, ◌==◌, not, leb, if◌then◌else◌, Bytes, length, add64, Eq,
}
use pp.Xel.NetAddress.{NetAddress, unknown_address}
use pp.Xel.Stream.{Stream}
use pp.Pa.Types.{s5_udp, UdpChannel, Client, udp_channel_manager, post, relay_datagram, post_udp}
use pp.Pa.Lifetime.{keep_alive}
use pp.Pa.Packets.{write_address, read_datagram, write_datagram}
use pp.Pa.Socks.{s5_udpchannel_generic_error}
use pp.Pa.Results.{Step, and_release}

abbrev pub pa_max_udp_packet_size : ℕ
pa_max_udp_packet_size = 4_200

module _ (N : NetAddress) (W : Stream) where
  open N use {Address, kind}

  -- OnAcquireDeviceUdpChannelResult; `bound` is the address that the channel was bound to, and
  -- `none` a failed assertion.
  unfoldable pub on_acquire_device_udp_channel_result :
      (now : ℕ) (bound : Address) → Option ℕ → Client Address → Option (Step Address)
  unfolding keep_alive and_release
  on_acquire_device_udp_channel_result now bound r c = elim c.bind_udp_channel [
    | none ↦ none
    | some u ↦ elim c.proxy_type [
      | s5_udp ↦ elim r [
        | none ↦ some (
            and_release udp_channel_manager c.acquire_device_udp_channel_future (
              record c { acquire_device_udp_channel_future = 0 },
              post s5_udpchannel_generic_error ∷ [],
            ))
        | some i ↦
            let c' : Client Address = record c {
              bind_udp_channel = some (record u { relay_side_udp_channel_id = i });
              acquire_device_udp_channel_future = 0;
            } in
            elim (kind bound) [
              | unknown_address ↦ none
              | _ ↦ some (
                  and_release udp_channel_manager c.acquire_device_udp_channel_future
                    ((keep_alive now c').1, post (5 ∷ 0 ∷ 0 ∷ write_address N W bound) ∷ []))
            ]
      ]
      | _ ↦ none
    ]
  ]

module _ (N : NetAddress) (W : Stream) ⦃e : Eq N.Address⦄ where
  open N use {Address, kind, ip}

  -- OnData of the channel `u` that is bound to the connection `c`.
  unfoldable pub on_channel_data :
      (now : ℕ) → Bytes → (source : Address) → UdpChannel Address → Client Address → Step Address
  unfolding keep_alive
  on_channel_data now packet source u c =
      if u.relay_side_udp_channel_id == 0
      then (c, [])
      else if not (e.beq (ip source) u.client_ip_check_address)
      then (c, [])
      else (let c' : Client Address = record c {
        bind_udp_channel = some (record u { last_client_ip_address = source });
        total_udp_bytes_from_client = add64 c.total_udp_bytes_from_client (length packet);
      } in
          (
            (keep_alive now c').1,
            elim (read_datagram N W packet) [
              | none ↦ []
              | some (target, payload) ↦
                  relay_datagram c.device_reference.relay_server_id u.relay_side_udp_channel_id
                    target payload
                  ∷ []
            ],
          ))

  -- PostData for the channel `u` that is bound to the connection `c`.
  unfoldable pub post_channel_data :
      (now : ℕ) → (source : Address) → Bytes → UdpChannel Address → Client Address → Step Address
  unfolding keep_alive
  post_channel_data now source payload u c =
      if leb pa_max_udp_packet_size (length payload)
      then (c, [])
      else elim (kind u.last_client_ip_address) [
        | unknown_address ↦ (c, [])
        | _ ↦
            let r : Bool × Client Address = keep_alive now c in
            if r.0
            then elim (write_datagram N W source payload) [
              | none ↦ (r.1, [])
              | some packet ↦ (
                record r.1 {
                  total_udp_bytes_to_client = add64 c.total_udp_bytes_to_client (length packet);
                },
                post_udp u.last_client_ip_address packet ∷ [],
              )
            ]
            else (r.1, [])
      ]
