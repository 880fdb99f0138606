-- ===== src/ServerList/System/Shown.antt =====
-- Through any run the downloader shows lists that the publisher had.
use pp.Prelude.{
  ℕ, ◌<◌, ◌≡◌, ◌≢◌, ◌⊎◌, inl, inr, true, false, List, [], ◌∷◌, Option, none, some, get_elem?,
  Option-cases, All, All-get,
}
use pp.Xel.ServerIds.{ServerIds}
use pp.Xel.NetAddress.{NetAddress}
use pp.Xel.NodeList.{NodeList}
use pp.Audit.Collectors.{ServerInfo}
use pp.ServerList.{Reply, max_small_server_list_size}
use pp.ServerList.Publisher.{
  Publisher, BufferedList, publish_group, unpublish_group, on_new_server_id, on_remove_server_id,
  on_download_list,
}
use pp.ServerList.Publisher.Slots.{
  Good, Sound, publish_group-Publishes, unpublish_group-Publishes, Known, Free,
  on_new_server_id-Publishes, on_remove_server_id-Publishes, Replies, on_download_list-Replies,
}
use pp.ServerList.Downloader.{
  enable_server_group, disable_server_group, tick_downloads, on_response, get_server_list_view,
}
use pp.ServerList.Downloader.Views.{view-Shown}
use pp.ServerList.Downloader.Enabling.{enable_server_group-Kept, disable_server_group-Kept}
use pp.ServerList.Downloader.Responses.{on_response-Told}
use pp.ServerList.Downloader.Asking.{tick_downloads-Asks}
use pp.ServerList.System.{
  System, ListEvent, publishes, unpublishes, adds, removes, serves, serves_other, delivers, enables,
  disables, ticks, step_lists, run_lists,
}
use pp.ServerList.System.Consistent.{
  Consistent, Arrives, GoodReply, OwnRequest, published-Consistent, published-Arrives,
  replied-Consistent, downloads-Arrives, sends-Arrives, shows-Arrives,
}

module _ (A : NetAddress) (ids : ServerIds) (timeout : ℕ) (X : NodeList) where
  open A use {Address, unknown}

  abbrev State : Type 0
  State = System A ids timeout X

  -- What the callers grant: an identifier is of a group that is published, and in its list at most
  -- once; a group is published and withdrawn, or enabled and disabled, in turn.
  abbrev pub Allowed : ListEvent Address → State → Type 0
  Allowed (publishes g) s = s.publisher g ≡ none
  Allowed (unpublishes g) s = (l : BufferedList A ids) × (s.publisher g ≡ some l)
  Allowed (adds id address) s = Known A ids id s.publisher × Free A ids id s.publisher
  Allowed (removes id) s = Known A ids id s.publisher
  Allowed (enables g) s =
      (g ≢ 0)
      × (g < max_small_server_list_size)
      × ((s.downloader.enabled_server_group_map g).enabled ≡ false)
  Allowed (disables g) s = (s.downloader.enabled_server_group_map g).enabled ≡ true
  Allowed (serves k now) s = Unit {0}
  Allowed (serves_other g now) s = Unit {0}
  Allowed (delivers k) s = Unit {0}
  Allowed (ticks random now) s = Unit {0}

  abbrev pub Allows : List (ListEvent Address) → State → Type 0
  Allows [] s = Unit
  Allows (event ∷ events) s =
      Allowed event s
      × elim (step_lists A ids timeout X event s) [ none ↦ Unit | some t ↦ Allows events t ]

  step_lists-Arrives :
      (event : ListEvent Address) (s : State)
      → Consistent A ids timeout X s
      → Allowed event s
      → Arrives A ids timeout X (step_lists A ids timeout X event s)
  unfolding step_lists
  step_lists-Arrives (publishes g) s v free =
      published-Arrives A ids timeout X s (publish_group A ids g s.publisher) v
        (publish_group-Publishes A ids s.past s.publisher g v.sound free)
  step_lists-Arrives (unpublishes g) s v (l, there) =
      published-Arrives A ids timeout X s (unpublish_group A ids g s.publisher) v
        (unpublish_group-Publishes A ids s.past s.publisher g l v.sound there)
  step_lists-Arrives (adds id address) s v (known, free) =
      published-Arrives A ids timeout X s (on_new_server_id A ids id address s.publisher) v
        (on_new_server_id-Publishes A ids s.past s.publisher id address v.sound known free)
  step_lists-Arrives (removes id) s v known =
      published-Arrives A ids timeout X s (on_remove_server_id A ids id s.publisher) v
        (on_remove_server_id-Publishes A ids s.past s.publisher id v.sound known)
  step_lists-Arrives (serves k now) s v h = elim (Option-cases (get_elem? s.requests k)) [
    | inl missing ↦ rw (step_lists, missing) v
    | inr (q, at) ↦
        let (same, small) = All-get (OwnRequest A ids timeout X) s.requests k q at v.own in
        rw (step_lists, at)
          (replied-Consistent A ids timeout X s q.request_id q.server_group
            (on_download_list A ids now q.request_id q.server_group s.publisher) v small same
            (on_download_list-Replies A ids s.past s.publisher now q.request_id q.server_group
              v.sound))
  ]
  step_lists-Arrives (serves_other g now) s v h =
      published-Consistent A ids timeout X s (on_download_list A ids now 0 g s.publisher).0 v (
        served (on_download_list A ids now 0 g s.publisher)
          (on_download_list-Replies A ids s.past s.publisher now 0 g v.sound))
    where
      served :
          (o : Publisher A ids × Option (Reply Address))
          → Replies A ids s.past 0 g o
          → Sound A ids (o.0 ∷ s.past) o.0
      served (p, none) h = h
      served (p, some r) h = h.0
  step_lists-Arrives (delivers k) s v h = elim (Option-cases (get_elem? s.replies k)) [
    | inl missing ↦ rw (step_lists, missing) v
    | inr (r, at) ↦
        let (small, good) =
          All-get (GoodReply A ids timeout X s.past) s.replies k r at v.replied_well in
        rw (step_lists, at)
          (shows-Arrives A ids timeout X s (on_response Address unknown timeout X r s.downloader) v
            (on_response-Told Address unknown timeout X (Good A ids s.past) s.downloader r v.showing
              small good))
  ]
  step_lists-Arrives (enables g) s v (positive, small, off) =
      downloads-Arrives A ids timeout X s
        (enable_server_group Address unknown timeout X g s.downloader) v
        (enable_server_group-Kept Address unknown timeout X (Good A ids s.past) s.downloader g
          v.showing positive small off)
  step_lists-Arrives (disables g) s v on =
      downloads-Arrives A ids timeout X s
        (disable_server_group Address unknown timeout X g s.downloader) v
        (disable_server_group-Kept Address unknown timeout X (Good A ids s.past) s.downloader g
          v.showing on)
  step_lists-Arrives (ticks random now) s v h =
      sends-Arrives A ids timeout X s
        (tick_downloads Address unknown timeout X random now s.downloader) v
        (tick_downloads-Asks Address unknown timeout X (Good A ids s.past) random now s.downloader
          v.showing)

  -- Every group's view, and what was given to OnServerListUpdated.
  abbrev pub Shown : Option State → Type 0
  Shown none = ⊥
  Shown (some t) =
      ((g : ℕ)
        → (xs : List (ServerInfo Address)) × (get_server_list_view Address unknown timeout X g
              t.downloader
            ≡ some xs)
          × ((xs ≡ []) ⊎ Good A ids t.past g xs))
      × All (λ u. Good A ids t.past u.group u.servers) t.updates

  pub run_lists-Arrives :
      (events : List (ListEvent Address)) (s : State)
      → Consistent A ids timeout X s
      → Allows events s
      → Arrives A ids timeout X (run_lists A ids timeout X events s)
  unfolding run_lists
  run_lists-Arrives [] s v h = v
  run_lists-Arrives (event ∷ events) s v (allowed, next) =
      elim (step_lists A ids timeout X event s)
          as (λ o.
            elim o as (λ x. Type 0) [ none ↦ Unit | some t ↦ Allows events t ]
            → Arrives A ids timeout X o
            → Arrives A ids timeout X
                (elim o [ none ↦ none | some t ↦ run_lists A ids timeout X events t ])) [
                  | none ↦ λ n a. a
                  | some t ↦ λ n a. run_lists-Arrives events t a n
                ]
        next (step_lists-Arrives event s v allowed)

  Shown-Arrives : (o : Option State) → Arrives A ids timeout X o → Shown o
  Shown-Arrives none h = h
  Shown-Arrives (some t) v = (
    λ g. view-Shown Address unknown timeout X (Good A ids t.past) t.downloader g v.showing,
    v.updated_well,
  )

  -- From a consistent state packets may be lost, repeated and reordered: while identifiers are added
  -- once and to groups that are published, and groups are published and enabled once at a time, no
  -- assertion fails, and every list that the downloader shows or gives to OnServerListUpdated is
  -- empty or was that of its group at the publisher, with no index twice.
  pub run_lists-Shown :
      (events : List (ListEvent Address)) (s : State)
      → Consistent A ids timeout X s
      → Allows events s
      → Shown (run_lists A ids timeout X events s)
  run_lists-Shown events s v h =
      Shown-Arrives (run_lists A ids timeout X events s) (run_lists-Arrives events s v h)
