-- ===== src/ServerList/Downloader/Asking.antt =====
-- The requests of a tick.
use pp.Prelude.{
  ℕ, ◌<◌, ◌≡◌, inl, inr, refl, true, List, ◌∷◌, ◌++◌, Option, none, some, arith, ltb, sub64,
  Bool-cases, All, All-append,
}
use pp.Xel.NodeList.{NodeList}
use pp.Auth.References.Pool.{occurrences-append}
use pp.Audit.Collectors.{ServerInfo}
use pp.ServerList.{Request, max_small_server_list_size}
use pp.ServerList.Downloader.{
  Downloader, select_server_list_server, update_server_list_slave_list, is_due,
  update_one_enabled_server_list, tick_downloads,
}
use pp.ServerList.Downloader.Views.{Showing, on-set}

module _ (Address : Type 0) (unknown : Address) (timeout : ℕ) (X : NodeList) where
  open X use {Links, add_tail, unlink, nodes}

  abbrev State : Type 0
  State = Downloader Address unknown timeout X

  module _ (G : ℕ → List (ServerInfo Address) → Type 0) where
    abbrev pub Asks : Option (State × List (Request Address)) → Type 0
    Asks none = ⊥
    Asks (some (d, qs)) =
        Showing Address unknown timeout X G d
        × All (λ q. (q.request_id ≡ q.server_group) × (q.request_id < max_small_server_list_size))
            qs

    update_one-Asks :
        (random : ℕ → ℕ) (d : State)
        → Showing Address unknown timeout X G d
        → Asks (update_one_enabled_server_list Address unknown timeout X random d)
    unfolding update_one_enabled_server_list select_server_list_server
    update_one-Asks random d v =
        elim (X.pop_head_if_lem d.enabled_server_group_list (is_due Address unknown timeout X d)) [
          | inl (empty, e) ↦ rw (update_one_enabled_server_list, e) (v, tt)
          | inr (g, rest, nodes_are, inr (early, e)) ↦
              rw (update_one_enabled_server_list, e) (v, tt)
          | inr (g, rest, nodes_are, inl (due, e)) ↦
              (let n = d.enabled_server_group_map g in
                let (same, positive, small, (l, at, shown)) =
                  v.on g (head_enabled g (nodes rest) nodes_are) in
                rw (update_one_enabled_server_list, e, v.no_slaves)
                  (
                    record {
                      on =
                          on-set Address unknown timeout X G d g
                            (record n { last_update_timestamp_ms = d.now }) v
                            (λ e. (same, positive, small, (l, at, shown)));
                      off = λ h e. ground (arith, e, v.off h);
                      linked = λ h. ground (
                        arith,
                        v.linked h,
                        nodes_are,
                        X.nodes-add_tail rest g,
                        occurrences-append h (nodes rest) g,
                      );
                      no_slaves = v.no_slaves;
                    },
                    ((refl, ground (arith, same, small)), tt),
                  ))
        ]
      where
        head_enabled :
            (g : ℕ) (gs : List ℕ)
            → nodes d.enabled_server_group_list ≡ g ∷ gs
            → (d.enabled_server_group_map g).enabled ≡ true
        head_enabled g gs e = ground (arith, v.linked g, e)

    asked :
        (qs : List (Request Address)) (o : Option (State × List (Request Address)))
        → All
            (λ q. (q.request_id ≡ q.server_group) × (q.request_id < max_small_server_list_size))
            qs
        → Asks o
        → Asks (elim o [ none ↦ none | some (d, rs) ↦ some (d, qs ++ rs) ])
    asked qs none h a = a
    asked qs (some (d, rs)) h (v, others) = (
      v,
      All-append
          (λ q. (q.request_id ≡ q.server_group) × (q.request_id < max_small_server_list_size)) qs rs
          h others,
    )

    now-Showing :
        (d : State) (now : ℕ)
        → Showing Address unknown timeout X G d
        → Showing Address unknown timeout X G (record d { now = now })
    now-Showing d now v = record {
      on = v.on;
      off = v.off;
      linked = v.linked;
      no_slaves = v.no_slaves;
    }

    slave_list-Asks :
        (d : State)
        → Showing Address unknown timeout X G d
        → Asks (some (update_server_list_slave_list Address unknown timeout X d))
    unfolding update_server_list_slave_list
    slave_list-Asks d v =
        elim (Bool-cases
          (ltb (sub64 d.now timeout) d.last_update_server_list_slave_list_timestamp_ms)) [
            | inl early ↦ rw early (v, tt)
            | inr due ↦ rw due (
              record { on = v.on; off = v.off; linked = v.linked; no_slaves = v.no_slaves },
              ((refl, omega arith), tt),
            )
          ]

    pub tick_downloads-Asks :
        (random : ℕ → ℕ) (now : ℕ) (d : State)
        → Showing Address unknown timeout X G d
        → Asks (tick_downloads Address unknown timeout X random now d)
    unfolding tick_downloads
    tick_downloads-Asks random now d v =
        let (d', qs) =
          update_server_list_slave_list Address unknown timeout X (record d { now = now }) in
        let (v', asks) = slave_list-Asks (record d { now = now }) (now-Showing d now v) in
        asked qs (update_one_enabled_server_list Address unknown timeout X random d') asks
          (update_one-Asks random d' v')
