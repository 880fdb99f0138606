-- ===== src/ServerList/Downloader/Views.antt =====
-- What the downloader shows of a group came in a response for it, and it asks for no other.
use pp.Prelude.{
  ℕ, ◌<◌, ◌≡◌, ◌≢◌, ◌⊎◌, inl, inr, refl, subst, true, false, List, [], none, some, arith, ◌==◌,
  take, Bool-cases,
}
use pp.Xel.NodeList.{NodeList}
use pp.Auth.References.{occurrences, bit}
use pp.Audit.Collectors.{ServerInfo}
use pp.ServerList.{max_small_server_list_size}
use pp.ServerList.Downloader.{GroupNode, Downloader, set_node, get_server_list_view}

module _ (Address : Type 0) (unknown : Address) (timeout : ℕ) (X : NodeList) where
  open X use {Links, add_tail, unlink, nodes}

  abbrev State : Type 0
  State = Downloader Address unknown timeout X

  abbrev pub Shows : (ℕ → List (ServerInfo Address) → Type 0) → ℕ → GroupNode Address → Type 0
  Shows G g n =
      (n.server_group ≡ g)
      × (g ≢ 0)
      × (g < max_small_server_list_size)
      × ((l : List (ServerInfo Address)) × (n.server_list ≡ some l)
          × ((take n.server_list_size l ≡ []) ⊎ G g (take n.server_list_size l)))

  -- `G` is what is known of the responses for a group.
  pub record Showing (G : ℕ → List (ServerInfo Address) → Type 0) (d : State) : Type 0 where
    pub on :
        (g : ℕ)
        → (d.enabled_server_group_map g).enabled ≡ true
        → Shows G g (d.enabled_server_group_map g)
    pub off :
        (g : ℕ)
        → (d.enabled_server_group_map g).enabled ≡ false
        → ((d.enabled_server_group_map g).server_group ≡ 0)
          × ((d.enabled_server_group_map g).server_list ≡ none)
    pub linked :
        (g : ℕ)
        → occurrences g (nodes d.enabled_server_group_list)
          ≡ bit (d.enabled_server_group_map g).enabled
    pub no_slaves : d.server_list_server_list ≡ []

  pub Showing-map :
      (G H : ℕ → List (ServerInfo Address) → Type 0) (d : State)
      → ((g : ℕ) (xs : List (ServerInfo Address)) → G g xs → H g xs)
      → Showing G d
      → Showing H d
  Showing-map G H d f v = record {
    on = λ g e.
        let (same, positive, small, (l, at, shown)) = v.on g e in
        (
          same,
          positive,
          small,
          (
            l,
            at,
            elim shown [
              | inl empty ↦ inl empty
              | inr good ↦ inr (f g (take (d.enabled_server_group_map g).server_list_size l) good)
            ],
          ),
        );
    off = v.off;
    linked = v.linked;
    no_slaves = v.no_slaves;
  }

  -- The view of a group.
  pub view-Shown :
      (G : ℕ → List (ServerInfo Address) → Type 0) (d : State) (g : ℕ)
      → Showing G d
      → (xs : List (ServerInfo Address)) × (get_server_list_view Address unknown timeout X g d
          ≡ some xs)
        × ((xs ≡ []) ⊎ G g xs)
  unfolding get_server_list_view
  view-Shown G d g v = elim (Bool-cases (d.enabled_server_group_map g).enabled) [
    | inl on ↦
        (let (same, positive, small, (l, at, shown)) = v.on g on in
          (take (d.enabled_server_group_map g).server_list_size l, ground (arith, on, at), shown))
    | inr off ↦ ([], ground (arith, off), inl refl)
  ]

  module _ (G : ℕ → List (ServerInfo Address) → Type 0) where
    pub on-set :
        (d : State) (g : ℕ) (n : GroupNode Address)
        → Showing G d
        → (n.enabled ≡ true → Shows G g n)
        → (h : ℕ)
        → ((set_node Address unknown timeout X g n d).enabled_server_group_map h).enabled ≡ true
        → Shows G h ((set_node Address unknown timeout X g n d).enabled_server_group_map h)
    on-set d g n v here h e = elim (Bool-cases (g == h)) [
      | inl same ↦
          rw same (subst (λ k. Shows G k n) (ground (arith, same)) (here (ground (arith, same, e))))
      | inr other ↦ rw other (v.on h (ground (arith, e, other)))
    ]
