-- ===== src/Pa/Results.antt =====
-- What a connection of ppp/lib_component/pa_service.cpp does with the result of a future, and with
-- the relay's data for its client.
use pp.Prelude.{
  ℕ, List, [], ◌∷◌, ◌++◌, Option, none, some, ◌==◌, if◌then◌else◌, Bytes, length, add64,
}
use pp.Auth.Types.{AuthResult}
use pp.Pa.Types.{
  s5_challenge, s5_tcp, http_raw, http_normal, s5_target, raw_data, DeviceReference, Client,
  Manager, auth_manager, device_manager, connection_manager, Effect, post, acquire_device,
  create_connection_by_name, relay_data, report_host, release_future, Env,
}
use pp.Pa.Lifetime.{keep_alive}
use pp.Pa.Socks.{s5_connection_established, s5_connection_generic_error}

abbrev pub Step : Type 0 → Type 0
Step Address = Client Address × List (Effect Address)

module _ {Address : Type 0} where
  unfoldable pub send_s5_auth_error : Client Address → Effect Address
  send_s5_auth_error c = if c.no_auth then post (5 ∷ 255 ∷ []) else post (1 ∷ 1 ∷ [])

  unfoldable pub send_s5_auth_accepted : Client Address → Effect Address
  send_s5_auth_accepted c = if c.no_auth then post (5 ∷ 0 ∷ []) else post (1 ∷ 0 ∷ [])

  -- RequestDevice for the address of the account, and what is done where there is no future.
  unfoldable pub request_device :
      Env Address → AuthResult Address → Effect Address → List (Effect Address)
  request_device env r failure =
      (if env.next_device_future == 0
        then failure
        else acquire_device r.export_address env.next_device_future)
      ∷ []

  unfoldable pub on_s5_auth_result :
      Env Address → Option (AuthResult Address) → Client Address → Step Address
  unfolding send_s5_auth_error request_device
  on_s5_auth_result env none c = (c, send_s5_auth_error c ∷ [])
  on_s5_auth_result env (some r) c = (
    record c {
      local_auth_id = r.local_auth_id;
      global_auth_id = r.global_auth_id;
      enable_udp_target = r.enable_udp;
      acquire_device_future = env.next_device_future;
    },
    request_device env r (send_s5_auth_error c),
  )

  -- The bytes of the responses are parameters of the HTTP side, by their status.
  unfoldable pub on_http_auth_result :
      (status : ℕ → Bytes)
      → Env Address
      → Option (AuthResult Address)
      → Client Address
      → Step Address
  unfolding request_device
  on_http_auth_result status env none c = (c, post (status 407) ∷ [])
  on_http_auth_result status env (some r) c = (
    record c {
      local_auth_id = r.local_auth_id;
      global_auth_id = r.global_auth_id;
      acquire_device_future = env.next_device_future;
    },
    request_device env r (post (status 407)),
  )

  -- The release of a future that a connection gives up, after the handler.
  unfoldable pub and_release : Manager → ℕ → Step Address → Step Address
  and_release m f (c, es) = (c, es ++ release_future m f ∷ [])

  unfoldable pub on_auth_result :
      (status : ℕ → Bytes)
      → Env Address
      → Option (AuthResult Address)
      → Client Address
      → Step Address
  unfolding on_s5_auth_result on_http_auth_result and_release
  on_auth_result status env r c =
      let r' : Step Address = elim c.proxy_type [
        | s5_challenge ↦ on_s5_auth_result env r c
        | http_raw ↦ on_http_auth_result status env r c
        | http_normal ↦ on_http_auth_result status env r c
        | _ ↦ (c, [])
      ] in
      and_release auth_manager c.auth_future (record r'.0 { auth_future = 0 }, r'.1)

  unfoldable pub on_s5_acquire_device_result :
      Option DeviceReference → Client Address → Step Address
  unfolding send_s5_auth_error send_s5_auth_accepted
  on_s5_acquire_device_result none c = (c, send_s5_auth_error c ∷ [])
  on_s5_acquire_device_result (some d) c =
      (record c { device_reference = d; data_processor = s5_target }, send_s5_auth_accepted c ∷ [])

  -- The connection to the host of the request is asked for.
  unfoldable pub on_http_acquire_device_result :
      (status : ℕ → Bytes) → Env Address → Option DeviceReference → Client Address → Step Address
  on_http_acquire_device_result status env none c = (c, post (status 500) ∷ [])
  on_http_acquire_device_result status env (some d) c = (
    record c {
      device_reference = d;
      acquire_device_connection_future = env.next_connection_future;
    },
    (if env.reports_targets then report_host c.global_auth_id c.http.target_host ∷ [] else [])
        ++ (if env.next_connection_future == 0
            then post (status 500)
            else create_connection_by_name d c.connection_id c.http.target_host c.http.target_port
                env.next_connection_future)
          ∷ [],
  )

  unfoldable pub on_acquire_device_result :
      (status : ℕ → Bytes) → Env Address → Option DeviceReference → Client Address → Step Address
  unfolding on_s5_acquire_device_result on_http_acquire_device_result and_release
  on_acquire_device_result status env r c =
      let r' : Step Address = elim c.proxy_type [
        | s5_challenge ↦ on_s5_acquire_device_result r c
        | http_raw ↦ on_http_acquire_device_result status env r c
        | http_normal ↦ on_http_acquire_device_result status env r c
        | _ ↦ (c, [])
      ] in
      and_release device_manager c.acquire_device_future
        (record r'.0 { acquire_device_future = 0 }, r'.1)

  unfoldable pub on_s5_acquire_device_connection_result : Option ℕ → Client Address → Step Address
  on_s5_acquire_device_connection_result none c = (c, post s5_connection_generic_error ∷ [])
  on_s5_acquire_device_connection_result (some i) c = (
    record c { relay_side_connection_id = i; data_processor = raw_data },
    post s5_connection_established ∷ [],
  )

  unfoldable pub on_http_raw_acquire_device_connection_result :
      (status : ℕ → Bytes) → Option ℕ → Client Address → Step Address
  on_http_raw_acquire_device_connection_result status none c = (c, post (status 502) ∷ [])
  on_http_raw_acquire_device_connection_result status (some i) c =
      (record c { relay_side_connection_id = i; data_processor = raw_data }, post (status 200) ∷ [])

  -- The header and what came of the body are sent on, and the buffer is empty from then on.
  unfoldable pub on_http_normal_acquire_device_connection_result :
      (status : ℕ → Bytes) → Option ℕ → Client Address → Step Address
  on_http_normal_acquire_device_connection_result status none c = (c, post (status 502) ∷ [])
  on_http_normal_acquire_device_connection_result status (some i) c = (
    record c { relay_side_connection_id = i; http = record c.http { content = [] } },
    relay_data c.device_reference.relay_server_id i c.http.content ∷ [],
  )

  unfoldable pub on_acquire_device_connection_result :
      (status : ℕ → Bytes) → Option ℕ → Client Address → Step Address
  unfolding on_s5_acquire_device_connection_result on_http_raw_acquire_device_connection_result
      on_http_normal_acquire_device_connection_result and_release
  on_acquire_device_connection_result status r c =
      let r' : Step Address = elim c.proxy_type [
        | s5_tcp ↦ on_s5_acquire_device_connection_result r c
        | http_raw ↦ on_http_raw_acquire_device_connection_result status r c
        | http_normal ↦ on_http_normal_acquire_device_connection_result status r c
        | _ ↦ (c, [])
      ] in
      and_release connection_manager c.acquire_device_connection_future
        (record r'.0 { acquire_device_connection_future = 0 }, r'.1)

  -- The relay's data for the client of a connection.
  unfoldable pub post_data : (now : ℕ) → Bytes → Client Address → Step Address
  unfolding keep_alive
  post_data now payload c =
      let (alive, c') = keep_alive now c in
      if alive
      then (
        record c' {
          total_tcp_bytes_to_client = add64 c.total_tcp_bytes_to_client (length payload);
        },
        post payload ∷ [],
      )
      else (c', [])
