-- ===== src/DeviceEntry/Choice.antt =====
-- Which relay a device is given.
use pp.Prelude.{
  ℕ, ◌≡◌, ◌≢◌, ◌⊎◌, true, false, List, [], ◌∷◌, ◌++◌, Option, none, some, arith, Option-cases, inl,
  inr, refl, Eq,
}
use pp.Xel.NodeList.{NodeList}
use pp.Xel.NetAddress.{NetAddress, Kind, unknown_address, is4, is6}
use pp.Auth.References.Pool.{occurrences-append}
use pp.DeviceEntry.{Manager, RelayLists, set_lists, pick_relay, get_relay_server_by_device_ip}
use pp.DeviceEntry.Placement.{Placed, stands}

module _ (A : NetAddress) ⦃e : Eq A.Address⦄ (index_of : ℕ → ℕ) (X : NodeList)
    (region : A.Address → Option ℕ) where
  open A use {Address, kind}
  open X use {nodes}

  abbrev State : Type 0
  State = Manager A index_of X

  -- The relay `i` of the country of the device is at the head of the list, and goes to its end.
  abbrev pub Given : State → Address → Address → State → Type 0
  Given m device a t =
      (c : ℕ) × (i : ℕ) × (rest : List ℕ) × (region device ≡ some c)
      × (kind device ≡ is4)
      × (stands A index_of X region (m.full_relay_info_list i) c ≡ true)
      × (a ≡ (m.full_relay_info_list i).export_device_entry_address)
      × (nodes (m.relay_info_list_by_country c).v4 ≡ i ∷ rest)
      × (nodes (t.relay_info_list_by_country c).v4 ≡ rest ++ i ∷ [])

  -- No address is given: the device has no country, or not an IPv4 address, or no relay stands in
  -- its country.
  abbrev pub NotGiven : State → Address → Address → State → Type 0
  NotGiven m device a t =
      (a ≡ A.unknown)
      × (t ≡ m)
      × ((c i : ℕ)
          → region device ≡ some c
          → kind device ≡ is4
          → stands A index_of X region (m.full_relay_info_list i) c ≡ false)

  abbrev pub Chosen : State → Address → Option (Address × State) → Type 0
  Chosen m device none = ⊥
  Chosen m device (some (a, t)) =
      Placed A index_of X region t
      × ((j : ℕ) → t.full_relay_info_list j ≡ m.full_relay_info_list j)
      × (Given m device a t ⊎ NotGiven m device a t)

  module _ (m : State) (v : Placed A index_of X region m) (c : ℕ) where
    abbrev lists : RelayLists X.Links
    lists = m.relay_info_list_by_country c

    abbrev rotated : ℕ → X.Links → State
    rotated i rest = set_lists A index_of X c (record lists { v4 = X.add_tail rest i }) m

    rotated-Placed :
        (i : ℕ) (rest : X.Links)
        → nodes lists.v4 ≡ i ∷ nodes rest
        → Placed A index_of X region (rotated i rest)
    rotated-Placed i rest head = record {
      service = v.service;
      listed = λ j d. ground (
        arith,
        v.listed j d,
        v.listed j c,
        head,
        X.nodes-add_tail rest i,
        occurrences-append j (nodes rest) i,
      );
      no_v6 = λ d. ground (arith, v.no_v6 d, v.no_v6 c);
    }

    head_stands :
        (i : ℕ) (rest : X.Links)
        → nodes lists.v4 ≡ i ∷ nodes rest
        → stands A index_of X region (m.full_relay_info_list i) c ≡ true
    head_stands i rest head = ground (arith, v.listed i c, head)

    none_stands :
        (i : ℕ)
        → nodes lists.v4 ≡ []
        → stands A index_of X region (m.full_relay_info_list i) c ≡ false
    none_stands i empty = ground (arith, v.listed i c, empty)

  empty_stops : (l : X.Links) → nodes l ≡ [] → X.pop_head_if l (λ i. true) ≡ none
  empty_stops l empty = elim (X.pop_head_if_lem l (λ i. true)) [
    | inl (e, stops) ↦ stops
    | inr (i, rest, head, how) ↦ absurd (ground (arith, empty, head))
  ]

  same_country : {o : Option ℕ} {c d : ℕ} → o ≡ some c → o ≡ some d → c ≡ d
  same_country h k = ground (arith, h, k)

  -- Of the kinds other than IPv4 the list is empty.
  pub other_kind :
      (m : State) (c : ℕ) (k : Kind)
      → Placed A index_of X region m
      → k ≢ is4
      → pick_relay A index_of X c k m ≡ (A.unknown, m)
  other_kind m c unknown_address v h =
      rw (empty_stops (m.relay_info_list_by_country c).v6 (v.no_v6 c), pick_relay) refl
  other_kind m c is4 v h = absurd (h refl)
  other_kind m c is6 v h =
      rw (empty_stops (m.relay_info_list_by_country c).v6 (v.no_v6 c), pick_relay) refl

  pick_relay-Chosen :
      (m : State) (device : Address) (c : ℕ)
      → Placed A index_of X region m
      → region device ≡ some c
      → (k : Kind) → kind device ≡ k
      → Chosen m device (some (pick_relay A index_of X c k m))
  pick_relay-Chosen m device c v here is4 typed =
      elim (X.pop_head_if_lem (m.relay_info_list_by_country c).v4 (λ i. true)) [
        | inl (empty, stops) ↦
            rw (stops, pick_relay)
              (
                v,
                (λ j. refl),
                inr (
                  refl,
                  refl,
                  λ d i h h'. rw (same_country here h) at (none_stands m v c i empty),
                ),
              )
        | inr (i, rest, head, inr (refused, stops)) ↦ absurd (ground (arith, refused))
        | inr (i, rest, head, inl (always, pops)) ↦
            rw (pops, pick_relay)
              (
                rotated-Placed m v c i rest head,
                (λ j. refl),
                inl (
                  c,
                  i,
                  nodes rest,
                  here,
                  typed,
                  head_stands m v c i rest head,
                  refl,
                  head,
                  ground (arith, X.nodes-add_tail rest i),
                ),
              )
      ]
  pick_relay-Chosen m device c v here unknown_address typed =
      rw (other_kind m c unknown_address v (cc))
        (v, (λ j. refl), inr (refl, refl, λ d i h h'. absurd (ground (arith, typed, h'))))
  pick_relay-Chosen m device c v here is6 typed =
      rw (other_kind m c is6 v (cc))
        (v, (λ j. refl), inr (refl, refl, λ d i h h'. absurd (ground (arith, typed, h'))))

  -- A device with an IPv4 address is given a relay of its country, if there is one: the head of the
  -- list, which goes to the end. A device with any other address is given none.
  pub get_relay-Chosen :
      (m : State) (device : Address)
      → Placed A index_of X region m
      → Chosen m device (get_relay_server_by_device_ip A index_of X device m)
  unfolding get_relay_server_by_device_ip
  get_relay-Chosen m device v = elim (Option-cases (region device)) [
    | inl lost ↦
        let stays : get_relay_server_by_device_ip A index_of X device m ≡ some (A.unknown, m) =
          ground (arith, v.service, lost) in
        rw stays (v, (λ j. refl), inr (refl, refl, λ d i h h'. absurd (ground (arith, lost, h))))
    | inr (c, here) ↦
        let picks : get_relay_server_by_device_ip A index_of X device m
            ≡ some (pick_relay A index_of X c (kind device) m) =
          ground (arith, v.service, here) in
        rw picks (pick_relay-Chosen m device c v here (kind device) refl)
  ]
