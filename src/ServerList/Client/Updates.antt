-- ===== src/ServerList/Client/Updates.antt =====
-- UpdateServerList: a connection to each server of the new list, and to no other.
use pp.Prelude.{
  ℕ, zero, suc, ◌≤◌, ◌<◌, ◌≡◌, ◌≢◌, inl, inr, refl, subst, ◌∙◌, List, [], ◌∷◌, Option, none, some,
  arith, ◌==◌, Bool-cases, Eq, length, get_elem?,
}
use pp.Xel.ClientPool.{ClientPool}
use pp.Xel.ServerIds.{ServerIds}
use pp.Audit.Collectors.{ServerInfo}
use pp.ServerList.{no_server, max_small_server_list_size}
use pp.ServerList.Client.{
  Client, Servers, index_servers, update_server, update_servers, update_server_list,
}
use pp.ServerList.Client.Connected.{
  connection, server, Connected, Settled, PoolFull, Fits, Updates, update_server-Updates,
}
use pp.ServerList.Client.Indexing.{Listed, Indexed, index_of, index_servers-Indexed}

module _ {Address : Type 0} ⦃e : Eq Address⦄ (unknown : Address) (ids : ServerIds)
    (P : ClientPool Address) where
  abbrev State : Type 0
  State = Client unknown ids P

  abbrev Looped : ℕ → Servers unknown ids P → State → Option State → Type 0
  Looped n servers c none = PoolFull unknown ids P
  Looped n servers c (some d) =
      Connected unknown ids P d
      × ((i : ℕ) → i < n → Settled unknown ids P (servers i) (d.server_info_container i))
      × ((i : ℕ) → n ≤ i → d.server_info_container i ≡ c.server_info_container i)
      × ((i : ℕ)
          → connection unknown ids P c i ≢ 0
          → server unknown ids P c i ≡ servers i
          → d.server_info_container i ≡ c.server_info_container i)
      × (d.packed_server_list ≡ c.packed_server_list)

  Looped-step :
      (n : ℕ) (servers : Servers unknown ids P) (c d : State) (o : Option State)
      → Looped n servers c (some d)
      → Updates unknown ids P n (servers n) d o
      → Looped (suc n) servers c o
  Looped-step n servers c d none l u = u
  Looped-step n servers c d (some f) (v, settled, beyond, kept, packed)
        (v', settled', others, kept', packed') =
      (
        v',
        λ i below. elim (Bool-cases (n == i)) [
          | inl same ↦
              subst (λ j. Settled unknown ids P (servers j) (f.server_info_container j))
                (ground (arith, same)) settled'
          | inr other ↦
              rw (others i (ground (arith, other))) (settled i (ground (arith, below, other)))
        ],
        λ i above. ground (arith, others i, beyond i, above),
        λ i used same. elim (Bool-cases (n == i)) [
          | inl here ↦ ground (arith, here, beyond i, kept i, kept', used, same)
          | inr other ↦ others i (ground (arith, other)) ∙ kept i used same
        ],
        ground (arith, packed, packed'),
      )

  update_servers-Looped :
      (n : ℕ) (servers : Servers unknown ids P) (c : State)
      → Connected unknown ids P c
      → ((i : ℕ) → Fits unknown ids P i (servers i))
      → Looped n servers c (update_servers unknown ids P n servers c)
  unfolding update_servers
  update_servers-Looped zero servers c v fits =
      (v, λ i h. absurd (omega (arith, h)), λ i h. refl, λ i h k. refl, refl)
  update_servers-Looped (suc n) servers c v fits =
      elim (update_servers unknown ids P n servers c)
          as (λ o.
            Looped n servers c o
            → Looped (suc n) servers c
                (elim o [ none ↦ none | some d ↦ update_server unknown ids P n (servers n) d ])) [
                  | none ↦ λ l. l
                  | some d ↦ λ l.
                      Looped-step n servers c d (update_server unknown ids P n (servers n) d) l
                        (update_server-Updates unknown ids P n (servers n) d l.0 (fits n))
                ]
        (update_servers-Looped n servers c v fits)

  abbrev pub Updated : List (ServerInfo Address) → State → Option State → Type 0
  Updated list c none = PoolFull unknown ids P
  Updated list c (some d) =
      Connected unknown ids P d
      × (length d.packed_server_list ≡ length list)
      × ((k : ℕ) (s : ServerInfo Address)
          → get_elem? list k ≡ some s
          → (get_elem? d.packed_server_list k ≡ some (index_of unknown ids P s))
            × (connection unknown ids P d (index_of unknown ids P s) ≢ 0)
            × (server unknown ids P d (index_of unknown ids P s) ≡ s))
      × ((i : ℕ)
          → connection unknown ids P d i ≢ 0
          → (k : ℕ) × (get_elem? list k ≡ some (server unknown ids P d i)))
      × ((i k : ℕ)
          → connection unknown ids P c i ≢ 0
          → get_elem? list k ≡ some (server unknown ids P c i)
          → d.server_info_container i ≡ c.server_info_container i)

  Listed-get :
      (list : List (ServerInfo Address)) (k : ℕ) (s : ServerInfo Address)
      → Listed ids list
      → get_elem? list k ≡ some s
      → (s.server_id ≢ 0) × Fits unknown ids P (index_of unknown ids P s) s
  Listed-get [] k s h at = ground (arith, at)
  Listed-get (t ∷ ts) zero s (named, positive, small, others, rest) at =
      (ground (arith, at, named), λ n. ground (arith, at, positive, small))
  Listed-get (t ∷ ts) (suc k) s h at = Listed-get ts k s h.4 at

  update_servers-Updated :
      (list : List (ServerInfo Address)) (c : State) (all : Servers unknown ids P) (packed : List ℕ)
      (o : Option State)
      → Connected unknown ids P c
      → Listed ids list
      → Indexed unknown ids P list (λ i. no_server unknown) (some (all, packed))
      → Looped max_small_server_list_size all (record c { packed_server_list = packed }) o
      → Updated list c o
  update_servers-Updated list c all packed none v h x l = l
  update_servers-Updated list c all packed (some d) v h (size, found, absent, from)
        (v', settled, beyond, kept, same) =
      (
        v',
        ground (arith, same, size),
        λ k s at.
            (let (named, fits) = Listed-get list k s h at in
              ground
                (arith, found k s at, same, named, fits named, settled (index_of unknown ids P s))),
        λ i used. elim (from i) [
          | inl none_there ↦ absurd (ground (arith, none_there, used, v'.placed i used, settled i))
          | inr ((k, at), fits) ↦ (k, ground (arith, at, used, v'.placed i used, settled i))
        ],
        λ i k used at.
            kept i used (ground (arith, found k (server unknown ids P c i) at, v.placed i used)),
      )

  packed-Connected :
      (c : State) (packed : List ℕ)
      → Connected unknown ids P c
      → Connected unknown ids P (record c { packed_server_list = packed })
  packed-Connected c packed v = record {
    open_for = v.open_for;
    named = v.named;
    placed = v.placed;
    distinct = v.distinct;
    held = v.held;
  }

  -- UpdateServerList with a list without a repeated index, on connections that fit the container:
  -- unless AddServer returns 0 no assertion fails, the open connections are one to each server of the
  -- list, and a server that was connected at its address keeps its connection.
  pub update_server_list-Updated :
      (list : List (ServerInfo Address)) (c : State)
      → Connected unknown ids P c
      → Listed ids list
      → Updated list c (update_server_list unknown ids P list c)
  unfolding update_server_list
  update_server_list-Updated list c v h =
      elim (index_servers unknown ids P list (λ i. no_server unknown))
          as (λ o.
            Indexed unknown ids P list (λ i. no_server unknown) o
            → Updated list c (elim o [
              | none ↦ none
              | some (servers, packed) ↦
                  update_servers unknown ids P max_small_server_list_size servers
                    (record c { packed_server_list = packed })
            ])) [
              | none ↦ λ x. absurd x
              | some (all, packed) ↦ λ x.
                  update_servers-Updated list c all packed
                    (update_servers unknown ids P max_small_server_list_size all
                      (record c { packed_server_list = packed }))
                    v h x
                    (update_servers-Looped max_small_server_list_size all
                      (record c { packed_server_list = packed }) (packed-Connected c packed v)
                      (fits all packed x))
            ]
        (index_servers-Indexed unknown ids P list (λ i. no_server unknown) h)
    where
      fits :
          (all : Servers unknown ids P) (packed : List ℕ)
          → Indexed unknown ids P list (λ i. no_server unknown) (some (all, packed))
          → (i : ℕ) → Fits unknown ids P i (all i)
      fits all packed x i = elim (x.3 i) [
        | inl nothing ↦ λ named. ground (arith, nothing, named)
        | inr (at, f) ↦ f
      ]
