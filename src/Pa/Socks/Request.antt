-- ===== src/Pa/Socks/Request.antt =====
-- The request of a SOCKS5 client for a connection.
use pp.Prelude.{
  ℕ, zero, suc, ◌+◌, ◌<◌, ◌≡◌, refl, arith, ◌==◌, if◌then◌else◌, List, [], ◌∷◌, ◌++◌, Bytes, length,
  take, length-append, length-take,
}
use pp.Xel.NetAddress.{NetAddress}
use pp.Xel.Stream.{Stream}
use pp.Pa.Types.{
  Client, Env, Outcome, Effect, kill_connection, s5_tcp, post, consumed, report_host,
  create_connection_by_name,
}
use pp.Pa.Packets.{write_port}
use pp.Pa.Socks.{wait}
use pp.Pa.Socks.Target.{on_s5_target, read_target}

module _ (N : NetAddress) (W : Stream) (env : Env N.Address) (c : Client N.Address) where
  module _ (host : Bytes) (port : ℕ) (rest : Bytes) where
    -- A request for a connection to a host, by its name.
    abbrev pub request_by_name : Bytes
    request_by_name = 5 ∷ 1 ∷ 0 ∷ 3 ∷ length host ∷ (host ++ (write_port W port ++ rest))

    -- What it leads to: the relay is asked to connect to the host and the port for this connection,
    -- with a future that the connection holds; without a future an error is posted and nothing is
    -- consumed. The target is reported if there is a service for it.
    abbrev pub connecting : Outcome N.Address
    connecting =
        let reports : List (Effect N.Address) =
          if env.reports_targets then report_host c.global_auth_id host ∷ [] else [] in
        if env.next_connection_future == 0
        then record {
          client = record c {
            data_processor = kill_connection;
            acquire_device_connection_future = 0;
          };
          effects = reports ++ post (5 ∷ 1 ∷ 0 ∷ 1 ∷ 0 ∷ 0 ∷ 0 ∷ 0 ∷ 0 ∷ 0 ∷ []) ∷ [];
          result = consumed 0;
        }
        else record {
          client = record c {
            data_processor = kill_connection;
            acquire_device_connection_future = env.next_connection_future;
            proxy_type = s5_tcp;
          };
          effects =
              reports
              ++ create_connection_by_name c.device_reference c.connection_id host port
                  env.next_connection_future
                ∷ [];
          result = consumed (7 + length host);
        }

    -- A request that is cut off anywhere before its end is waited for.
    pub on_s5_target-cut :
        (n : ℕ)
        → length host < 256
        → n < 7 + length host
        → on_s5_target N W env (take n request_by_name) c ≡ wait N c
    unfolding on_s5_target read_target
    on_s5_target-cut zero small h = refl
    on_s5_target-cut (suc zero) small h = refl
    on_s5_target-cut (suc (suc zero)) small h = refl
    on_s5_target-cut (suc (suc (suc zero))) small h = refl
    on_s5_target-cut (suc (suc (suc (suc zero)))) small h = refl
    on_s5_target-cut (suc (suc (suc (suc (suc m))))) small h = ground (arith, sizes)
      where
        sizes : length (take m (host ++ (write_port W port ++ rest))) ≡ m
        sizes =
            length-take m (host ++ (write_port W port ++ rest))
              (omega (arith, h, length-append host (write_port W port ++ rest)))
