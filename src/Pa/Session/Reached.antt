-- ===== src/Pa/Session/Reached.antt =====
-- What holds of a client's connection of ppp/lib_component/pa_service.cpp after any events.
use pp.Prelude.{ℕ, ◌≡◌, ◌≢◌, List, Option, some, Bytes, arith, Eq}
use pp.Auth.Types.{AuthResult}
use pp.Xel.NetAddress.{NetAddress}
use pp.Xel.Stream.{Stream}
use pp.Pa.Types.{DeviceReference, Client, Effect, Env}
use pp.Pa.Lifetime.{
  new_client, defer_kill, defer_graceful_kill, defer_kill_timeout, on_peer_close, on_flush,
  keep_alive,
}
use pp.Pa.Results.{
  on_auth_result, on_s5_auth_result, on_http_auth_result, and_release, on_acquire_device_result,
  on_s5_acquire_device_result, on_http_acquire_device_result, on_acquire_device_connection_result,
  on_s5_acquire_device_connection_result, on_http_raw_acquire_device_connection_result,
  on_http_normal_acquire_device_connection_result, post_data,
}
use pp.Pa.Channels.{on_acquire_device_udp_channel_result, on_channel_data, post_channel_data}
use pp.Pa.Http.{status}
use pp.Pa.Session.Futures.{OneFuture, on_data-OneFuture}
use pp.Pa.Session.Steps.{
  Step, receive, auth_result, device_result, connection_result, channel_result, from_relay,
  channel_data, channel_from_relay, relay_closes, client_closes, flushed, time_passes,
}

module _ (N : NetAddress) (W : Stream) (base64_decode : Bytes → Bytes) ⦃e : Eq N.Address⦄ where
  open N use {Address}

  -- The states of a connection, through any events.
  pub data Reached : Client Address → Type 0 where
    enters : (now connection_id : ℕ) → Reached (new_client now connection_id)
    goes_on :
        {c d : Client Address} {a : Option (AuthResult Address)} {es : List (Effect Address)}
        → Reached c
        → Step N W base64_decode c a es d
        → Reached d

  auth_result-OneFuture :
      (env : Env Address) (r : Option (AuthResult Address)) (c : Client Address)
      → c.auth_future ≢ 0
      → OneFuture c
      → OneFuture (on_auth_result status env r c).0
  unfolding on_auth_result on_s5_auth_result on_http_auth_result and_release
  auth_result-OneFuture env r c h v = ground (arith, v, h)

  device_result-OneFuture :
      (env : Env Address) (r : Option DeviceReference) (c : Client Address)
      → c.acquire_device_future ≢ 0
      → OneFuture c
      → OneFuture (on_acquire_device_result status env r c).0
  unfolding on_acquire_device_result on_s5_acquire_device_result on_http_acquire_device_result
      and_release
  device_result-OneFuture env r c h v = ground (arith, v, h)

  connection_result-OneFuture :
      (r : Option ℕ) (c : Client Address)
      → c.acquire_device_connection_future ≢ 0
      → OneFuture c
      → OneFuture (on_acquire_device_connection_result status r c).0
  unfolding on_acquire_device_connection_result on_s5_acquire_device_connection_result
      on_http_raw_acquire_device_connection_result on_http_normal_acquire_device_connection_result
      and_release
  connection_result-OneFuture r c h v = ground (arith, v, h)

  channel_result-OneFuture :
      (now : ℕ) (bound : Address) (r : Option ℕ) (c d : Client Address) (es : List (Effect Address))
      → on_acquire_device_udp_channel_result N W now bound r c ≡ some (d, es)
      → OneFuture c
      → OneFuture d
  unfolding on_acquire_device_udp_channel_result keep_alive and_release
  channel_result-OneFuture now bound r c d es h v = ground (arith, v, h)

  step-OneFuture :
      (a : Option (AuthResult Address)) (c d : Client Address) (es : List (Effect Address))
      → OneFuture c
      → Step N W base64_decode c a es d
      → OneFuture d
  unfolding post_data keep_alive defer_graceful_kill on_peer_close defer_kill on_flush
      defer_kill_timeout on_channel_data post_channel_data
  step-OneFuture a c d es v (receive env packet) =
      on_data-OneFuture N W env base64_decode packet c v
  step-OneFuture a c d es v (auth_result env r h) = auth_result-OneFuture env r c h v
  step-OneFuture a c d es v (device_result env r h) = device_result-OneFuture env r c h v
  step-OneFuture a c d es v (connection_result r h) = connection_result-OneFuture r c h v
  step-OneFuture a c d es v (channel_result now bound r h k) =
      channel_result-OneFuture now bound r c d es k v
  step-OneFuture a c d es v (from_relay now payload) = ground (arith, v)
  step-OneFuture a c d es v (channel_data now packet source u h) = ground (arith, v)
  step-OneFuture a c d es v (channel_from_relay now source payload u h) = ground (arith, v)
  step-OneFuture a c d es v (relay_closes now pending) = ground (arith, v)
  step-OneFuture a c d es v (client_closes h) = ground (arith, v, h)
  step-OneFuture a c d es v flushed = ground (arith, v)
  step-OneFuture a c d es v (time_passes now) = ground (arith, v)

  -- After any events a connection holds at most one of the futures of an authentication, a device
  -- and a connection, and none while it waits for a greeting, a login, a target or a header of its
  -- client.
  pub Reached-OneFuture : (c : Client Address) → Reached c → OneFuture c
  unfolding new_client
  Reached-OneFuture c (enters now connection_id) = ground arith
  Reached-OneFuture c (goes_on {c = b} {a = a} {es = es} before step) =
      step-OneFuture a b c es (Reached-OneFuture b before) step
