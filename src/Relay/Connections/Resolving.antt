-- ===== src/Relay/Connections/Resolving.antt =====
-- ProcessDnsResults of ppp/lib_component/relay_local_device_service.cpp: what it opens.
use pp.Prelude.{
  ℕ, if◌then◌else◌, ◌≡◌, ◌≢◌, ◌⊎◌, ◌||◌, Bool, true, false, not, List, [], ◌∷◌, ◌++◌, Option, none,
  some, arith, ◌==◌, Option-cases, Bool-cases, inl, inr, refl, subst, sym, ◌∙◌,
}
use pp.Xel.Storage.{Storage}
use pp.Xel.NodeList.{NodeList}
use pp.Xel.NetAddress.{NetAddress, Kind, unknown_address, is4, is6}
use pp.Dns.{DnsResult}
use pp.Relay.Devices.{Device, get_device}
use pp.Relay.Connections.{Connection, Connections, Effect, create_relay_connection}
use pp.Relay.Connections.Resolved.{
  DnsFuture, with_port, has_is4, target_address, create_connection_with_dns_result,
  process_dns_results,
}
use pp.Relay.Connections.Marks.{Marks}
use pp.Relay.Connections.Creating.{made, create-now, create-pool, create-Marks}

module _ (N : NetAddress) (devices : List (Device N.Address)) (S : Storage Connection)
    (X : NodeList) (alive : ℕ → Bool) where
  open S use {check_and_get}

  abbrev State : Type 0
  State = Connections S X

  abbrev Ready : Type 0
  Ready = DnsFuture N.Address × Bool

  -- The futures name a connection of the proxy side.
  abbrev pub Sided : List Ready → Type 0
  Sided [] = Unit {0}
  Sided (e ∷ fs) = (e.0.proxy_side_connection_id ≢ 0) × Sided fs

  -- There is a result, and its address of the kind of the device's is known.
  abbrev pub HasTarget : DnsFuture N.Address → Type 0
  HasTarget f =
      (r : DnsResult N.Address) × (d : Device N.Address) × (f.result ≡ some r)
      × (get_device f.relay_side_device_id devices ≡ some d)
      × (N.kind d.bind_address ≡ is4 → N.kind r.a4 ≢ unknown_address)
      × (N.kind d.bind_address ≢ is4 → N.kind r.a6 ≢ unknown_address)

  -- An open connection for a future that is ready and has not been given up, with a target that can
  -- be connected to.
  abbrev pub Opens : Ready → Option Connection → Type 0
  Opens (f, can_connect) o =
      (alive f.create_connection_future_handle ≡ true)
      × (can_connect ≡ true)
      × HasTarget f
      × ((c : Connection) × (o ≡ some c)
          × (c.delete_mark ≡ false)
          × (c.proxy_side_connection_id ≡ f.proxy_side_connection_id)
          × (c.create_connection_future_handle ≡ f.create_connection_future_handle))

  abbrev pub OpensOneOf : List Ready → Option Connection → Type 0
  OpensOneOf [] o = ⊥
  OpensOneOf (e ∷ fs) o = Opens e o ⊎ OpensOneOf fs o

  -- The connections in use stay as they are, and the new ones are as `Made` says.
  pub record Grows (Made : Option Connection → Type 0) (s t : State) : Type 0 where
    pub marks : Marks S X t
    pub clock : t.now ≡ s.now
    pub each :
        (j : ℕ)
        → (check_and_get t.pool j ≡ check_and_get s.pool j)
          ⊎ ((check_and_get s.pool j ≡ none) × Made (check_and_get t.pool j))

  Grows-trans :
      (e : Ready) (fs : List Ready) (s t u : State)
      → Grows (Opens e) s t
      → Grows (OpensOneOf fs) t u
      → Grows (OpensOneOf (e ∷ fs)) s u
  Grows-trans e fs s t u h k = record {
    marks = k.marks;
    clock = k.clock ∙ h.clock;
    each = λ j. both j (h.each j) (k.each j);
  }
    where
      both :
          (j : ℕ)
          → (check_and_get t.pool j ≡ check_and_get s.pool j)
            ⊎ ((check_and_get s.pool j ≡ none) × Opens e (check_and_get t.pool j))
          → (check_and_get u.pool j ≡ check_and_get t.pool j)
            ⊎ ((check_and_get t.pool j ≡ none) × OpensOneOf fs (check_and_get u.pool j))
          → (check_and_get u.pool j ≡ check_and_get s.pool j)
            ⊎ ((check_and_get s.pool j ≡ none) × OpensOneOf (e ∷ fs) (check_and_get u.pool j))
      both j (inl a) (inl b) = inl (b ∙ a)
      both j (inr a) (inl b) = inr (a.0, inl (subst (Opens e) (sym b) a.1))
      both j (inl a) (inr b) = inr (sym a ∙ b.0, inr b.1)
      both j (inr a) (inr b) = inr (a.0, inr b.1)

  unchanged : (Made : Option Connection → Type 0) (s : State) → Marks S X s → Grows Made s s
  unchanged Made s v = record { marks = v; clock = refl; each = λ j. inl refl }

  abbrev Resolves : Ready → State → Option (State × List Effect) → Type 0
  Resolves e s none = e.0.proxy_side_connection_id ≡ 0
  Resolves e s (some (t, es)) = Grows (Opens e) s t

  known :
      (a b : N.Address) (port : ℕ)
      → with_port N devices a port ≡ some b
      → N.kind a ≢ unknown_address
  known a b port h e = ground (arith, h, e)

  target-HasTarget :
      (f : DnsFuture N.Address) (a : N.Address) → target_address N devices f ≡ some a → HasTarget f
  unfolding target_address
  target-HasTarget f a h = elim (Option-cases f.result) [
    | inl missing ↦ absurd (ground (arith, h, missing))
    | inr (r, e) ↦ elim (Option-cases (get_device f.relay_side_device_id devices)) [
      | inl lost ↦ absurd (ground (arith, h, e, lost))
      | inr (d, e') ↦
          let chosen : with_port N devices
                (if has_is4 N devices (N.kind d.bind_address) then r.a4 else r.a6) f.target_port
              ≡ some a =
            ground (arith, h, e, e') in
          (
            r,
            d,
            e,
            e',
            (λ four. known r.a4 a f.target_port (ground (arith, chosen, four))),
            (λ other.
                known r.a6 a f.target_port
                  (other_kind (N.kind d.bind_address) r a f.target_port chosen other)),
          )
    ]
  ]
    where
      other_kind :
          (k : Kind) (r : DnsResult N.Address) (a : N.Address) (port : ℕ)
          → with_port N devices (if has_is4 N devices k then r.a4 else r.a6) port ≡ some a
          → k ≢ is4
          → with_port N devices r.a6 port ≡ some a
      other_kind unknown_address r a port h k = h
      other_kind is4 r a port h k = absurd (k refl)
      other_kind is6 r a port h k = h

  module _ (f : DnsFuture N.Address) (can_connect : Bool) (s : State) (v : Marks S X s) where
    creates :
        (a : N.Address)
        → target_address N devices f ≡ some a
        → alive f.create_connection_future_handle ≡ true
        → Grows
            (Opens (f, can_connect))
            s
            (create_relay_connection S X can_connect f.proxy_side_connection_id
              f.create_connection_future_handle s).0
    creates a target there = record {
      marks =
          create-Marks S X f.proxy_side_connection_id f.create_connection_future_handle s
            can_connect v;
      clock =
          create-now S X f.proxy_side_connection_id f.create_connection_future_handle s can_connect;
      each = λ j.
          elim (create-pool S X f.proxy_side_connection_id f.create_connection_future_handle s
            can_connect j) [
              | inl same ↦ inl same
              | inr (works, unused, new) ↦ inr (
                unused,
                (
                  there,
                  works,
                  target-HasTarget f a target,
                  (
                    made S X f.proxy_side_connection_id f.create_connection_future_handle s,
                    new,
                    refl,
                    refl,
                    refl,
                  ),
                ),
              )
            ];
    }

    create_connection-Resolves :
        Resolves
          (f, can_connect)
          s
          (create_connection_with_dns_result N devices S X alive can_connect f s)
    unfolding create_connection_with_dns_result
    create_connection-Resolves =
        elim (Bool-cases (
          f.create_connection_future_handle == 0
          || not (alive f.create_connection_future_handle))) [
            | inl lost ↦
                rw (lost, create_connection_with_dns_result)
                  (unchanged (Opens (f, can_connect)) s v)
            | inr there ↦ elim (Option-cases (target_address N devices f)) [
              | inl nowhere ↦
                  rw (there, create_connection_with_dns_result, nowhere)
                    (unchanged (Opens (f, can_connect)) s v)
              | inr (a, target) ↦ elim (Bool-cases (f.proxy_side_connection_id == 0)) [
                | inl zero_side ↦
                    rw (there, create_connection_with_dns_result, target, zero_side)
                      (ground (arith, zero_side))
                | inr sided ↦
                    rw (there, create_connection_with_dns_result, target, sided)
                      (creates a target (ground (arith, there)))
              ]
            ]
          ]

  abbrev pub Processed : List Ready → State → Option (State × List Effect) → Type 0
  Processed fs s none = Sided fs → ⊥
  Processed fs s (some (t, es)) = Grows (OpensOneOf fs) s t

  pub process_dns_results-Processed :
      (fs : List Ready) (s : State)
      → Marks S X s
      → Processed fs s (process_dns_results N devices S X alive fs s)
  unfolding process_dns_results
  process_dns_results-Processed [] s v = unchanged (OpensOneOf []) s v
  process_dns_results-Processed ((f, can_connect) ∷ fs) s v =
      go (λ t w. process_dns_results-Processed fs t w)
        (create_connection_with_dns_result N devices S X alive can_connect f s)
        (create_connection-Resolves f can_connect s v)
    where
      rest :
          (t : State) (es : List Effect) (o : Option (State × List Effect))
          → Grows (Opens (f, can_connect)) s t
          → Processed fs t o
          → Processed
              ((f, can_connect) ∷ fs)
              s
              (elim o [ none ↦ none | some (u, es') ↦ some (u, es ++ es') ])
      rest t es none h k = λ sided. k sided.1
      rest t es (some (u, es')) h k = Grows-trans (f, can_connect) fs s t u h k

      go :
          ((t : State)
            → Marks S X t
            → Processed fs t (process_dns_results N devices S X alive fs t))
          → (o : Option (State × List Effect)) → Resolves (f, can_connect) s o
          → Processed ((f, can_connect) ∷ fs) s (elim o [
            | none ↦ none
            | some (t, es) ↦ elim (process_dns_results N devices S X alive fs t) [
              | none ↦ none
              | some (u, es') ↦ some (u, es ++ es')
            ]
          ])
      go next none h = λ sided. sided.0 h
      go next (some (t, es)) h =
          rest t es (process_dns_results N devices S X alive fs t) h (next t h.marks)
