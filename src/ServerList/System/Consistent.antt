-- ===== src/ServerList/System/Consistent.antt =====
-- The invariant of the publisher, the downloader, and the packets between them.
use pp.Prelude.{
  ℕ, ◌<◌, ◌≡◌, inr, subst, List, [], ◌∷◌, Option, none, some, arith, All, All-append, All-map,
}
use pp.Xel.ServerIds.{ServerIds}
use pp.Xel.NetAddress.{NetAddress}
use pp.Xel.NodeList.{NodeList}
use pp.Audit.Collectors.{ServerInfo}
use pp.ServerList.{Reply, Request, max_small_server_list_size}
use pp.ServerList.Publisher.{Publisher}
use pp.ServerList.Publisher.Slots.{Good, Sound, Publishes, Replies}
use pp.ServerList.Downloader.{Update, Downloader}
use pp.ServerList.Downloader.Views.{Showing, Showing-map}
use pp.ServerList.Downloader.Enabling.{Kept}
use pp.ServerList.Downloader.Responses.{Told}
use pp.ServerList.Downloader.Asking.{Asks}
use pp.ServerList.System.{System, published, replied, downloads, sends, shows}

module _ (A : NetAddress) (ids : ServerIds) (timeout : ℕ) (X : NodeList) where
  open A use {Address, unknown}

  abbrev State : Type 0
  State = System A ids timeout X

  abbrev pub GoodReply : List (Publisher A ids) → Reply Address → Type 0
  GoodReply past r =
      (r.request_id < max_small_server_list_size)
      × Good A ids past r.request_id r.response.server_list

  abbrev pub GoodUpdate : List (Publisher A ids) → Update Address → Type 0
  GoodUpdate past u = Good A ids past u.group u.servers

  abbrev pub OwnRequest : Request Address → Type 0
  OwnRequest q = (q.request_id ≡ q.server_group) × (q.request_id < max_small_server_list_size)

  pub record Consistent (s : State) : Type 0 where
    pub sound : Sound A ids s.past s.publisher
    pub showing : Showing Address unknown timeout X (Good A ids s.past) s.downloader
    pub own : All OwnRequest s.requests
    pub replied_well : All (GoodReply s.past) s.replies
    pub updated_well : All (GoodUpdate s.past) s.updates

  abbrev pub Arrives : Option State → Type 0
  Arrives none = ⊥
  Arrives (some t) = Consistent t

  -- The publisher goes on to another state.
  pub published-Consistent :
      (s : State) (p : Publisher A ids)
      → Consistent s
      → Sound A ids (p ∷ s.past) p
      → Consistent (record s { publisher = p; past = p ∷ s.past })
  published-Consistent s p v sound = record {
    sound = sound;
    showing =
        Showing-map Address unknown timeout X (Good A ids s.past) (Good A ids (p ∷ s.past))
          s.downloader later v.showing;
    own = v.own;
    replied_well =
        All-map (GoodReply s.past) (GoodReply (p ∷ s.past)) s.replies
          (λ r h. (h.0, later r.request_id r.response.server_list h.1)) v.replied_well;
    updated_well =
        All-map (GoodUpdate s.past) (GoodUpdate (p ∷ s.past)) s.updates
          (λ u. later u.group u.servers) v.updated_well;
  }
    where
      later :
          (g : ℕ) (xs : List (ServerInfo Address))
          → Good A ids s.past g xs
          → Good A ids (p ∷ s.past) g xs
      later g xs (held, ok) = (inr held, ok)

  pub published-Arrives :
      (s : State) (o : Option (Publisher A ids))
      → Consistent s
      → Publishes A ids s.past o
      → Arrives (published A ids timeout X s o)
  published-Arrives s none v h = h
  published-Arrives s (some p) v h = published-Consistent s p v h

  pub replied-Consistent :
      (s : State) (request_id g : ℕ) (o : Publisher A ids × Option (Reply Address))
      → Consistent s
      → request_id < max_small_server_list_size
      → request_id ≡ g
      → Replies A ids s.past request_id g o
      → Consistent (replied A ids timeout X s o)
  replied-Consistent s i g (p, none) v small same h = published-Consistent s p v h
  replied-Consistent s i g (p, some r) v small same (sound, answers, good) =
      let w = published-Consistent s p v sound in
      record {
        sound = sound;
        showing = w.showing;
        own = v.own;
        replied_well = All-append (GoodReply (p ∷ s.past)) s.replies (r ∷ []) w.replied_well (
          (
            ground (arith, answers, small),
            subst (λ n. Good A ids (p ∷ s.past) n r.response.server_list)
                (omega (arith, answers, same)) good,
          ),
          tt,
        );
        updated_well = w.updated_well;
      }

  pub downloads-Arrives :
      (s : State) (o : Option (Downloader Address unknown timeout X))
      → Consistent s
      → Kept Address unknown timeout X (Good A ids s.past) o
      → Arrives (downloads A ids timeout X s o)
  downloads-Arrives s none v h = h
  downloads-Arrives s (some d) v h = record {
    sound = v.sound;
    showing = h;
    own = v.own;
    replied_well = v.replied_well;
    updated_well = v.updated_well;
  }

  pub sends-Arrives :
      (s : State) (o : Option (Downloader Address unknown timeout X × List (Request Address)))
      → Consistent s
      → Asks Address unknown timeout X (Good A ids s.past) o
      → Arrives (sends A ids timeout X s o)
  sends-Arrives s none v h = h
  sends-Arrives s (some (d, qs)) v h = record {
    sound = v.sound;
    showing = h.0;
    own = All-append OwnRequest s.requests qs v.own h.1;
    replied_well = v.replied_well;
    updated_well = v.updated_well;
  }

  pub shows-Arrives :
      (s : State) (o : Option (Downloader Address unknown timeout X × List (Update Address)))
      → Consistent s
      → Told Address unknown timeout X (Good A ids s.past) o
      → Arrives (shows A ids timeout X s o)
  shows-Arrives s none v h = h
  shows-Arrives s (some (d, us)) v h = record {
    sound = v.sound;
    showing = h.0;
    own = v.own;
    replied_well = v.replied_well;
    updated_well = All-append (GoodUpdate s.past) s.updates us v.updated_well h.1;
  }
