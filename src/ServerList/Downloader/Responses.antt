-- ===== src/ServerList/Downloader/Responses.antt =====
-- A response gives its group a view.
use pp.Prelude.{
  ℕ, ◌<◌, ◌≡◌, inl, inr, refl, sym, subst, false, List, ◌++◌, Option, none, some, arith, ◌==◌, ltb,
  length, drop, take-append, Bool-cases, All,
}
use pp.Xel.NodeList.{NodeList}
use pp.Audit.Collectors.{ServerInfo}
use pp.ServerList.{Reply, max_small_server_list_size}
use pp.ServerList.Downloader.{Update, Downloader, on_response}
use pp.ServerList.Downloader.Views.{Showing, on-set}

module _ (Address : Type 0) (unknown : Address) (timeout : ℕ) (X : NodeList) where
  open X use {Links, add_tail, unlink, nodes}

  abbrev State : Type 0
  State = Downloader Address unknown timeout X

  module _ (G : ℕ → List (ServerInfo Address) → Type 0) where
    abbrev pub Told : Option (State × List (Update Address)) → Type 0
    Told none = ⊥
    Told (some (d, us)) = Showing Address unknown timeout X G d × All (λ u. G u.group u.servers) us

    pub on_response-Told :
        (d : State) (r : Reply Address)
        → Showing Address unknown timeout X G d
        → r.request_id < max_small_server_list_size
        → G r.request_id r.response.server_list
        → Told (on_response Address unknown timeout X r d)
    unfolding on_response
    on_response-Told d r v small good =
        elim (Bool-cases (ltb max_small_server_list_size (length r.response.server_list))) [
          | inl long ↦ rw (not_large, long) (v, tt)
          | inr short ↦ elim (Bool-cases (d.enabled_server_group_map r.request_id).enabled) [
            | inr off ↦ rw (not_large, short, not_last, off) (v, tt)
            | inl on ↦
                elim (Bool-cases (
                  (d.enabled_server_group_map r.request_id).version_timestamp_ms
                  == r.response.version_timestamp_ms)) [
                    | inl old ↦ rw (not_large, short, not_last, on, old) (v, tt)
                    | inr new ↦
                        let (same, positive, below, (l, at, shown)) = v.on r.request_id on in
                        let servers = r.response.server_list in
                        rw (not_large, short, not_last, on, new, at)
                          (
                            record {
                              on =
                                  on-set Address unknown timeout X G d r.request_id
                                    (record (d.enabled_server_group_map r.request_id) {
                                      server_list = some (servers ++ drop (length servers) l);
                                      server_list_size = length servers;
                                      version_timestamp_ms = r.response.version_timestamp_ms;
                                    })
                                    v
                                    (λ e. (
                                      same,
                                      positive,
                                      below,
                                      (
                                        servers ++ drop (length servers) l,
                                        refl,
                                        inr (
                                            subst (G r.request_id)
                                              (sym (
                                                take-append (length servers) servers
                                                  (drop (length servers) l) refl))
                                              good),
                                      ),
                                    ));
                              off = λ h e. ground (arith, e, on, v.off h);
                              linked = λ h. ground (arith, v.linked h);
                              no_slaves = v.no_slaves;
                            },
                            (good, tt),
                          )
                  ]
          ]
        ]
      where
        not_large : ltb max_small_server_list_size r.request_id ≡ false
        not_large = ground (arith, small)

        not_last : (r.request_id == max_small_server_list_size) ≡ false
        not_last = ground (arith, small)
