-- ===== src/ServerList/Downloader/Enabling.antt =====
-- Groups that are enabled and disabled.
use pp.Prelude.{
  ℕ, ◌<◌, ◌≡◌, ◌≢◌, inl, refl, true, false, List, Option, none, some, arith, ◌==◌, leb, replicate,
}
use pp.Xel.NodeList.{NodeList}
use pp.Auth.References.{occurrences}
use pp.Auth.References.Pool.{occurrences-append}
use pp.RequestMap.Counts.{occurrences-without}
use pp.Audit.Collectors.{ServerInfo}
use pp.ServerList.{no_server, max_small_server_list_size}
use pp.ServerList.Downloader.{Downloader, enable_server_group, disable_server_group}
use pp.ServerList.Downloader.Views.{Showing, on-set}

module _ (Address : Type 0) (unknown : Address) (timeout : ℕ) (X : NodeList) where
  open X use {Links, add_tail, unlink, nodes}

  abbrev State : Type 0
  State = Downloader Address unknown timeout X

  module _ (G : ℕ → List (ServerInfo Address) → Type 0) where
    abbrev pub Kept : Option State → Type 0
    Kept none = ⊥
    Kept (some d) = Showing Address unknown timeout X G d

    pub enable_server_group-Kept :
        (d : State) (g : ℕ)
        → Showing Address unknown timeout X G d
        → g ≢ 0
        → g < max_small_server_list_size
        → (d.enabled_server_group_map g).enabled ≡ false
        → Kept (enable_server_group Address unknown timeout X g d)
    unfolding enable_server_group
    enable_server_group-Kept d g v positive small off =
        let (no_group, no_list) = v.off g off in
        rw (nonzero, not_large, off, no_group, no_list, free)
          (record {
            on =
                on-set Address unknown timeout X G d g
                  (record (d.enabled_server_group_map g) {
                    enabled = true;
                    server_group = g;
                    server_list = some (replicate max_small_server_list_size (no_server unknown));
                    server_list_size = 0;
                  })
                  v
                  (λ e. (
                    refl,
                    positive,
                    small,
                    (replicate max_small_server_list_size (no_server unknown), refl, inl refl),
                  ));
            off = λ h e. ground (arith, e, v.off h);
            linked = λ h. ground (
              arith,
              v.linked h,
              v.linked g,
              off,
              X.nodes-add_tail d.enabled_server_group_list g,
              occurrences-append h (nodes d.enabled_server_group_list) g,
            );
            no_slaves = v.no_slaves;
          })
      where
        nonzero : (g == 0) ≡ false
        nonzero = ground (arith, positive)

        not_large : leb max_small_server_list_size g ≡ false
        not_large = ground (arith, small)

        free : occurrences g (nodes d.enabled_server_group_list) ≡ 0
        free = ground (arith, v.linked g, off)

    pub disable_server_group-Kept :
        (d : State) (g : ℕ)
        → Showing Address unknown timeout X G d
        → (d.enabled_server_group_map g).enabled ≡ true
        → Kept (disable_server_group Address unknown timeout X g d)
    unfolding disable_server_group
    disable_server_group-Kept d g v on =
        let (same, positive, small, (l, at, shown)) = v.on g on in
        rw (not_large small, on, same, at, linked, nonzero positive)
          (record {
            on =
                on-set Address unknown timeout X G d g
                  (record (d.enabled_server_group_map g) {
                    enabled = false;
                    server_group = 0;
                    last_update_timestamp_ms = 0;
                    server_list_size = 0;
                    server_list = none;
                  })
                  v (λ e. ground (arith, e));
            off = λ h e. ground (arith, e, v.off h);
            linked = λ h. ground (
              arith,
              v.linked h,
              X.nodes-unlink d.enabled_server_group_list g,
              occurrences-without g h (nodes d.enabled_server_group_list),
            );
            no_slaves = v.no_slaves;
          })
      where
        nonzero : g ≢ 0 → (g == 0) ≡ false
        nonzero positive = ground (arith, positive)

        not_large : g < max_small_server_list_size → leb max_small_server_list_size g ≡ false
        not_large small = ground (arith, small)

        linked : occurrences g (nodes d.enabled_server_group_list) ≡ 1
        linked = ground (arith, v.linked g, on)
