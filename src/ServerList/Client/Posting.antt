-- ===== src/ServerList/Client/Posting.antt =====
-- PostMessage after an update of the list.
use pp.Prelude.{
  ℕ, ◌%◌, ◌≡◌, ◌≢◌, inl, inr, ap, ◌∙◌, subst, false, List, Option, none, some, arith, ◌==◌,
  Bool-cases, Eq, length, get_elem?, get_elem-some,
}
use pp.Xel.ClientPool.{ClientPool}
use pp.Xel.ServerIds.{ServerIds}
use pp.Audit.Collectors.{ServerInfo}
use pp.ServerList.Client.{Client, update_server_list, post_message}
use pp.ServerList.Client.Connected.{connection, Connected}
use pp.ServerList.Client.Indexing.{Listed, index_of}
use pp.ServerList.Client.Updates.{Updated, update_server_list-Updated}

module _ {Address : Type 0} ⦃e : Eq Address⦄ (unknown : Address) (ids : ServerIds)
    (P : ClientPool Address) where
  abbrev State : Type 0
  State = Client unknown ids P

  abbrev pub Posted : List (ServerInfo Address) → ℕ → State → Option (Option ℕ) → Type 0
  Posted list hash d none = ⊥
  Posted list hash d (some none) = length list ≡ 0
  Posted list hash d (some (some id)) =
      (s : ServerInfo Address) × (get_elem? list (hash % length list) ≡ some s)
      × (P.server_of d.client_pool id ≡ some s.address)

  selected :
      (list : List (ServerInfo Address)) (c d : State) (hash : ℕ)
      → Updated unknown ids P list c (some d)
      → Posted list hash d (post_message unknown ids P hash d)
  unfolding post_message
  selected list c d hash (v, size, found, only, kept) = elim (Bool-cases (length list == 0)) [
    | inl nobody ↦ rw (post_message, size, nobody) (ground (arith, nobody))
    | inr somebody ↦
        let (s, at) = get_elem-some list (hash % length list) (ground (arith, somebody)) in
        let (packed, used, same) = found (hash % length list) s at in
        let open_for = v.open_for (index_of unknown ids P s) used in
        rw
          (
            post_message,
            size,
            somebody,
            packed,
            nonzero (connection unknown ids P d (index_of unknown ids P s)) used,
          )
          (s, at, open_for ∙ ap (λ t. some t.address) same)
  ]
    where
      nonzero : (n : ℕ) → n ≢ 0 → (n == 0) ≡ false
      nonzero n h = ground (arith, h)

  -- After an update to a list without a repeated index, PostMessage with a hash posts on an open
  -- connection to the server at that place of the list, counted round; with an empty list it posts
  -- nothing.
  pub post_message-Posted :
      (list : List (ServerInfo Address)) (c d : State) (hash : ℕ)
      → Connected unknown ids P c
      → Listed ids list
      → update_server_list unknown ids P list c ≡ some d
      → Posted list hash d (post_message unknown ids P hash d)
  post_message-Posted list c d hash v h e =
      selected list c d hash (
        subst (Updated unknown ids P list c) e
          (update_server_list-Updated unknown ids P list c v h))
