-- ===== src/ServerList/System.antt =====
-- The publisher and a downloader: packets between them are lost, repeated and reordered.
pub mod Consistent
pub mod Shown
pub mod Served
use pp.Prelude.{ℕ, Bool, List, [], ◌∷◌, ◌++◌, Option, none, some, get_elem?}
use pp.Xel.ServerIds.{ServerIds}
use pp.Xel.NetAddress.{NetAddress}
use pp.Xel.NodeList.{NodeList}
use pp.ServerList.{Reply, Request}
use pp.ServerList.Publisher.{
  Publisher, publish_group, unpublish_group, on_new_server_id, on_remove_server_id,
  on_download_list,
}
use pp.ServerList.Downloader.{
  Update, Downloader, enable_server_group, disable_server_group, tick_downloads, on_response,
}

pub data ListEvent (Address : Type 0) : Type 0 where
  publishes : (group : ℕ) → ListEvent Address
  unpublishes : (group : ℕ) → ListEvent Address
  adds : (id : ℕ) (address : Address) → ListEvent Address
  removes : (id : ℕ) → ListEvent Address
  -- A request that the downloader has sent arrives, or that of another downloader.
  serves : (request : ℕ) (now : ℕ) → ListEvent Address
  serves_other : (server_group now : ℕ) → ListEvent Address
  -- A reply to the downloader arrives.
  delivers : (reply : ℕ) → ListEvent Address
  enables : (group : ℕ) → ListEvent Address
  disables : (group : ℕ) → ListEvent Address
  ticks : (random : ℕ → ℕ) (now : ℕ) → ListEvent Address

module _ (A : NetAddress) (ids : ServerIds) (timeout : ℕ) (X : NodeList) where
  open A use {Address, unknown}

  -- Everything that was sent, the calls of OnServerListUpdated, and all the states of the publisher.
  pub record System : Type 0 where
    pub publisher : Publisher A ids
    pub downloader : Downloader Address unknown timeout X
    pub requests : List (Request Address)
    pub replies : List (Reply Address)
    pub updates : List (Update Address)
    pub past : List (Publisher A ids)

  abbrev pub published : System → Option (Publisher A ids) → Option System
  published s none = none
  published s (some p) = some (record s { publisher = p; past = p ∷ s.past })

  abbrev pub replied : System → Publisher A ids × Option (Reply Address) → System
  replied s (p, none) = record s { publisher = p; past = p ∷ s.past }
  replied s (p, some r) = record s {
    publisher = p;
    past = p ∷ s.past;
    replies = s.replies ++ r ∷ [];
  }

  abbrev pub downloads : System → Option (Downloader Address unknown timeout X) → Option System
  downloads s none = none
  downloads s (some d) = some (record s { downloader = d })

  abbrev pub sends :
      System
      → Option (Downloader Address unknown timeout X × List (Request Address))
      → Option System
  sends s none = none
  sends s (some (d, qs)) = some (record s { downloader = d; requests = s.requests ++ qs })

  abbrev pub shows :
      System → Option (Downloader Address unknown timeout X × List (Update Address)) → Option System
  shows s none = none
  shows s (some (d, us)) = some (record s { downloader = d; updates = s.updates ++ us })

  unfoldable pub step_lists : ListEvent Address → System → Option System
  unfolding publish_group unpublish_group on_new_server_id on_remove_server_id on_download_list
      enable_server_group disable_server_group tick_downloads on_response
  step_lists (publishes g) s = published s (publish_group A ids g s.publisher)
  step_lists (unpublishes g) s = published s (unpublish_group A ids g s.publisher)
  step_lists (adds id address) s = published s (on_new_server_id A ids id address s.publisher)
  step_lists (removes id) s = published s (on_remove_server_id A ids id s.publisher)
  step_lists (serves k now) s = elim (get_elem? s.requests k) [
    | none ↦ some s
    | some q ↦ some (replied s (on_download_list A ids now q.request_id q.server_group s.publisher))
  ]
  step_lists (serves_other g now) s = some (record s {
    publisher = (on_download_list A ids now 0 g s.publisher).0;
    past = (on_download_list A ids now 0 g s.publisher).0 ∷ s.past;
  })
  step_lists (delivers k) s = elim (get_elem? s.replies k) [
    | none ↦ some s
    | some r ↦ shows s (on_response Address unknown timeout X r s.downloader)
  ]
  step_lists (enables g) s =
      downloads s (enable_server_group Address unknown timeout X g s.downloader)
  step_lists (disables g) s =
      downloads s (disable_server_group Address unknown timeout X g s.downloader)
  step_lists (ticks random now) s =
      sends s (tick_downloads Address unknown timeout X random now s.downloader)

  unfoldable pub run_lists : List (ListEvent Address) → System → Option System
  unfolding step_lists
  run_lists [] s = some s
  run_lists (event ∷ events) s = elim (step_lists event s) [
    | none ↦ none
    | some t ↦ run_lists events t
  ]
