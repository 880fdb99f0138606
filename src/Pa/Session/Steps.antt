-- ===== src/Pa/Session/Steps.antt =====
-- The events of a connection of ppp/lib_component/pa_service.cpp, as steps that say what they did.
use pp.Prelude.{
  ℕ, ◌≡◌, ◌≢◌, Bool, false, List, [], ◌∷◌, ◌++◌, Option, none, some, Bytes, refl, arith, Eq,
}
use pp.Auth.Types.{AuthResult}
use pp.Xel.NetAddress.{NetAddress}
use pp.Xel.Stream.{Stream}
use pp.Pa.Types.{DeviceReference, UdpChannel, Client, Effect, Env}
use pp.Pa.Lifetime.{
  new_client, defer_kill, defer_graceful_kill, defer_kill_timeout, on_peer_close, close_channel,
  on_flush, keep_alive,
}
use pp.Pa.Results.{
  on_auth_result, on_s5_auth_result, on_http_auth_result, and_release, on_acquire_device_result,
  on_acquire_device_connection_result, post_data,
}
use pp.Pa.Channels.{on_acquire_device_udp_channel_result, on_channel_data, post_channel_data}
use pp.Pa.Http.{status}
use pp.Pa.Session.{on_data}
use pp.Pa.Session.Unauthorised.{any_uses_relay, Bare, on_data-StaysBare}

module _ (N : NetAddress) (W : Stream) (base64_decode : Bytes → Bytes) ⦃e : Eq N.Address⦄ where
  open N use {Address}

  -- `Step c a es d`: an event takes `c` to `d` with the effects `es`; `a` is the account that the
  -- event grants, if it is the result of an authentication. A future's result comes to a
  -- connection that holds the future.
  pub data Step (c : Client Address)
      : Option (AuthResult Address) → List (Effect Address) → Client Address → Type 0 where
    receive :
        (env : Env Address) (packet : Bytes)
        → Step c none
            (on_data N W base64_decode env packet c).effects
            (on_data N W base64_decode env packet c).client
    auth_result :
        (env : Env Address) (r : Option (AuthResult Address))
        → c.auth_future ≢ 0
        → Step c r (on_auth_result status env r c).1 (on_auth_result status env r c).0
    device_result :
        (env : Env Address) (r : Option DeviceReference)
        → c.acquire_device_future ≢ 0
        → Step c none
            (on_acquire_device_result status env r c).1
            (on_acquire_device_result status env r c).0
    connection_result :
        (r : Option ℕ)
        → c.acquire_device_connection_future ≢ 0
        → Step c none
            (on_acquire_device_connection_result status r c).1
            (on_acquire_device_connection_result status r c).0
    channel_result :
        {d : Client Address} {es : List (Effect Address)} (now : ℕ) (bound : Address) (r : Option ℕ)
        → c.acquire_device_udp_channel_future ≢ 0
        → on_acquire_device_udp_channel_result N W now bound r c ≡ some (d, es)
        → Step c none es d
    from_relay :
        (now : ℕ) (payload : Bytes)
        → Step c none (post_data now payload c).1 (post_data now payload c).0
    channel_data :
        (now : ℕ) (packet : Bytes) (source : Address) (u : UdpChannel Address)
        → c.bind_udp_channel ≡ some u
        → Step c none
            (on_channel_data N W now packet source u c).1
            (on_channel_data N W now packet source u c).0
    channel_from_relay :
        (now : ℕ) (source : Address) (payload : Bytes) (u : UdpChannel Address)
        → c.bind_udp_channel ≡ some u
        → Step c none
            (post_channel_data N W now source payload u c).1
            (post_channel_data N W now source payload u c).0
    relay_closes : (now : ℕ) (pending : Bool) → Step c none [] (defer_graceful_kill now pending c)
    client_closes :
        {d : Client Address} {es : List (Effect Address)}
        → on_peer_close c ≡ some (d, es)
        → Step c none es d
    flushed : Step c none [] (on_flush c)
    time_passes : (now : ℕ) → Step c none (defer_kill_timeout now c).1 (defer_kill_timeout now c).0

  -- The steps of a connection up to the first account that it is granted.
  pub data BeforeGrant : List (Effect Address) → Client Address → Type 0 where
    accepted : (now connection_id : ℕ) → BeforeGrant [] (new_client now connection_id)
    next :
        {c d : Client Address} {es fs : List (Effect Address)}
        → BeforeGrant es c
        → Step c none fs d
        → BeforeGrant (es ++ fs) d

  step-Bare :
      (c d : Client Address) (es : List (Effect Address))
      → Bare c
      → Step c none es d
      → Bare d × (any_uses_relay es ≡ false)
  unfolding on_auth_result on_s5_auth_result on_http_auth_result and_release post_data keep_alive
      defer_graceful_kill on_peer_close close_channel defer_kill on_flush defer_kill_timeout
  step-Bare c d es v (receive env packet) = on_data-StaysBare N W base64_decode env packet c v
  step-Bare c d es v (auth_result env r h) = ground (arith, v)
  step-Bare c d es v (device_result env r h) = absurd (h v.no_device_future)
  step-Bare c d es v (connection_result r h) = absurd (h v.no_connection_future)
  step-Bare c d es v (channel_result now bound r h k) = absurd (h v.no_channel_future)
  step-Bare c d es v (from_relay now payload) = ground (arith, v)
  step-Bare c d es v (channel_data now packet source u h) = absurd (ground (arith, v.no_channel, h))
  step-Bare c d es v (channel_from_relay now source payload u h) =
      absurd (ground (arith, v.no_channel, h))
  step-Bare c d es v (relay_closes now pending) = ground (arith, v)
  step-Bare c d es v (client_closes h) = ground (arith, v, h)
  step-Bare c d es v flushed = ground (arith, v)
  step-Bare c d es v (time_passes now) = ground (arith, v)

  append-no_relay :
      (es fs : List (Effect Address))
      → any_uses_relay es ≡ false
      → any_uses_relay fs ≡ false
      → any_uses_relay (es ++ fs) ≡ false
  append-no_relay [] fs h k = k
  append-no_relay (x ∷ es) fs h k = ground (arith, h, append-no_relay es fs (ground (arith, h)) k)

  new_client-Bare :
      (now connection_id : ℕ) → Bare (new_client {Address = Address} now connection_id)
  unfolding new_client
  new_client-Bare now connection_id = ground arith

  -- Until the authentication of a connection has granted it an account, nothing that it does uses
  -- a device or a relay, and it holds no account, no future of a device and no relay connection.
  pub before_grant-Bare :
      (es : List (Effect Address)) (c : Client Address)
      → BeforeGrant es c
      → Bare c × (any_uses_relay es ≡ false)
  before_grant-Bare es c (accepted now connection_id) = (new_client-Bare now connection_id, refl)
  before_grant-Bare es c (next {c = b} {es = es1} {fs = fs1} h s) =
      let before : Bare b × (any_uses_relay es1 ≡ false) = before_grant-Bare es1 b h in
      let after : Bare c × (any_uses_relay fs1 ≡ false) = step-Bare b c fs1 before.0 s in
      (after.0, append-no_relay es1 fs1 before.1 after.1)
