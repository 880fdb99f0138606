-- ===== src/RequestMap/Expiry.antt =====
-- Tick of the map of requests.
use pp.Prelude.{ℕ, zero, suc, ◌<◌, ◌≡◌, ◌∷◌, Option, none, some, arith, inl, inr, length}
use pp.Xel.Storage.{Storage}
use pp.Xel.NodeList.{NodeList}
use pp.RequestMap.{SourceRequestNode, RequestMap, drop_node, is_due, expire, tick}
use pp.RequestMap.Counts.{Counts, occurrences-without, length-without}

module _ (Handle : Type 0) (S : Storage (SourceRequestNode Handle)) (X : NodeList) where
  open S use {Pool, check_and_get, write}
  open X use {nodes}

  abbrev State : Type 0
  State = RequestMap Handle S X

  -- The counts hold at the end, and the head of the list is not due.
  abbrev pub Expired : Option State → Type 0
  Expired none = ⊥
  Expired (some t) =
      Counts Handle S X t × (X.pop_head_if t.timeout_queue (is_due Handle S X t) ≡ none)

  expire-Expired :
      (fuel : ℕ) (s : State)
      → Counts Handle S X s
      → length (nodes s.timeout_queue) < fuel
      → Expired (expire Handle S X fuel s)
  unfolding expire drop_node
  expire-Expired zero s v h = omega (arith, h)
  expire-Expired (suc fuel) s v h = elim (X.pop_head_if_lem s.timeout_queue (is_due Handle S X s)) [
    | inl (e, stops) ↦ rw (stops, expire) (v, stops)
    | inr (i, rest, head, inr (not_due, stops)) ↦ rw (stops, expire) (v, stops)
    | inr (i, rest, head, inl (due, pops)) ↦
        rw (pops, expire)
          (expire-Expired fuel (drop_node Handle S X i (record s { timeout_queue = rest }))
            (popped i rest head) (shorter i rest head))
  ]
    where
      popped :
          (i : ℕ) (rest : X.Links)
          → nodes s.timeout_queue ≡ i ∷ nodes rest
          → Counts Handle S X (drop_node Handle S X i (record s { timeout_queue = rest }))
      popped i rest head = record {
        listed = λ j. ground (
          arith,
          v.listed j,
          v.listed i,
          head,
          S.get-release s.pool i j,
          X.nodes-unlink rest i,
          occurrences-without i j (nodes rest),
        );
        counted = ground (
          arith,
          v.counted,
          v.listed i,
          head,
          X.nodes-unlink rest i,
          length-without i (nodes rest),
        );
      }

      shorter :
          (i : ℕ) (rest : X.Links)
          → nodes s.timeout_queue ≡ i ∷ nodes rest
          → length
              (nodes (drop_node Handle S X i (record s { timeout_queue = rest })).timeout_queue)
            < fuel
      shorter i rest head =
          ground (arith, h, head, X.nodes-unlink rest i, length-without i (nodes rest))

  -- Tick ends, with the counts right and no due request at the head of the list.
  pub tick-Expired : (now : ℕ) (s : State) → Counts Handle S X s → Expired (tick Handle S X now s)
  unfolding tick
  tick-Expired now s v =
      expire-Expired (suc (length (nodes s.timeout_queue))) (record s { now = now })
        (record { listed = v.listed; counted = v.counted }) (omega arith)
