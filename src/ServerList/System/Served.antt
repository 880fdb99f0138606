-- ===== src/ServerList/System/Served.antt =====
-- The lists that a downloader gives on are ones that the connections can follow.
use pp.Prelude.{ℕ, ◌≡◌, List, some, get_elem?, All-get, Eq, subst}
use pp.Xel.ClientPool.{ClientPool}
use pp.Xel.ServerIds.{ServerIds}
use pp.Xel.NetAddress.{NetAddress}
use pp.Xel.NodeList.{NodeList}
use pp.ServerList.Client.{Client, update_server_list}
use pp.ServerList.Client.Connected.{Connected}
use pp.ServerList.Client.Updates.{Updated, update_server_list-Updated}
use pp.ServerList.Publisher.Slots.{Good}
use pp.ServerList.Downloader.{Update}
use pp.ServerList.System.{System, ListEvent, run_lists}
use pp.ServerList.System.Consistent.{Consistent}
use pp.ServerList.System.Shown.{Allows, Shown, run_lists-Shown}

module _ (A : NetAddress) ⦃e : Eq A.Address⦄ (ids : ServerIds) (timeout : ℕ) (X : NodeList)
    (P : ClientPool A.Address) where
  open A use {Address, unknown}

  -- After a run from a consistent state whose events are all allowed, UpdateServerList with a list
  -- that OnServerListUpdated was given, on connections that fit their container: unless AddServer
  -- returns 0 no assertion fails, and the open connections are one to each server of the list.
  pub run_lists-Updated :
      (events : List (ListEvent Address)) (s t : System A ids timeout X) (k : ℕ)
      (u : Update Address) (c : Client unknown ids P)
      → Consistent A ids timeout X s
      → Allows A ids timeout X events s
      → run_lists A ids timeout X events s ≡ some t
      → get_elem? t.updates k ≡ some u
      → Connected unknown ids P c
      → Updated unknown ids P u.servers c (update_server_list unknown ids P u.servers c)
  run_lists-Updated events s t k u c v h ran at connected =
      let (views, updates) =
        subst (Shown A ids timeout X) ran (run_lists-Shown A ids timeout X events s v h) in
      let (held, ok) =
        All-get (λ (u : Update Address). Good A ids t.past u.group u.servers) t.updates k u at
          updates in
      update_server_list-Updated unknown ids P u.servers c connected ok
