-- ===== src/ServerList/Client/Connected.antt =====
-- The connections that are open are those of the container.
use pp.Prelude.{
  ℕ, suc, ◌<◌, ◌≡◌, ◌≢◌, ◌⊎◌, ◌↔◌, inl, inr, refl, sym, true, Option, none, some, arith, ◌==◌,
  Bool-cases, Eq,
}
use pp.Xel.ClientPool.{ClientPool}
use pp.Xel.ServerIds.{ServerIds}
use pp.Audit.Collectors.{ServerInfo}
use pp.ServerList.{max_small_server_list_size}
use pp.ServerList.Client.{LocalInfo, Client, put, connect, same_server, update_server}

module _ {Address : Type 0} ⦃e : Eq Address⦄ (unknown : Address) (ids : ServerIds)
    (P : ClientPool Address) where
  open P use {
    Pool, server_of, add_server, remove_server, add_fresh, server_of-add, server_of-remove,
  }

  abbrev State : Type 0
  State = Client unknown ids P

  abbrev pub connection : State → ℕ → ℕ
  connection c i = (c.server_info_container i).connection_id

  abbrev pub server : State → ℕ → ServerInfo Address
  server c i = (c.server_info_container i).server_info

  pub record Connected (c : State) : Type 0 where
    pub open_for :
        (i : ℕ)
        → connection c i ≢ 0
        → server_of c.client_pool (connection c i) ≡ some (server c i).address
    pub named : (i : ℕ) → connection c i ≢ 0 → (server c i).server_id ≢ 0
    pub placed :
        (i : ℕ)
        → connection c i ≢ 0
        → (ids.object_id_of (server c i).server_id ≡ suc i) × (i < max_small_server_list_size)
    pub distinct : (i j : ℕ) → connection c i ≢ 0 → connection c i ≡ connection c j → i ≡ j
    pub held :
        (k : ℕ) → (server_of c.client_pool k ≡ none) ⊎ ((i : ℕ) × (connection c i ≡ k) × (k ≢ 0))

  -- An index has what the new list has for it.
  abbrev pub Settled : ServerInfo Address → LocalInfo Address → Type 0
  Settled new info =
      ((new.server_id ≡ 0) × (info.connection_id ≡ 0))
      ⊎ ((new.server_id ≢ 0) × (info.connection_id ≢ 0) × (info.server_info ≡ new))

  -- AddServer has returned 0 for some server.
  abbrev pub PoolFull : Type 0
  PoolFull = (q : Pool) × (a : Address) × ((add_server q a).0 ≡ 0)

  abbrev pub Fits : ℕ → ServerInfo Address → Type 0
  Fits i new =
      new.server_id ≢ 0
      → (ids.object_id_of new.server_id ≡ suc i) × (i < max_small_server_list_size)

  -- A step at one index, which leaves the others alone.
  abbrev pub Updates : ℕ → ServerInfo Address → State → Option State → Type 0
  Updates i new c none = PoolFull
  Updates i new c (some d) =
      Connected d
      × Settled new (d.server_info_container i)
      × ((j : ℕ) → i ≢ j → d.server_info_container j ≡ c.server_info_container j)
      × (connection c i ≢ 0
          → server c i ≡ new
          → d.server_info_container i ≡ c.server_info_container i)
      × (d.packed_server_list ≡ c.packed_server_list)

  connect-Updates :
      (i : ℕ) (new : ServerInfo Address) (c : State)
      → Connected c
      → Fits i new
      → connection c i ≡ 0
      → Updates i new c (connect unknown ids P i new c)
  unfolding connect
  connect-Updates i new c v fits free = elim (Bool-cases (new.server_id == 0)) [
    | inl gone ↦ rw gone (v, inl (ground arith, free), λ j other. refl, λ used same. refl, refl)
    | inr named ↦ elim (Bool-cases ((add_server c.client_pool new.address).0 == 0)) [
      | inl full ↦ rw (named, full) (c.client_pool, new.address, ground arith)
      | inr room ↦
          rw (named, room)
            (
              record {
                open_for = λ j h. ground (
                  arith,
                  v.open_for j,
                  add_fresh c.client_pool new.address,
                  server_of-add c.client_pool new.address (connection c j),
                  server_of-add c.client_pool new.address (add_server c.client_pool new.address).0,
                );
                named = λ j h. ground (arith, v.named j);
                placed = λ j h. ground (arith, v.placed j, fits);
                distinct = λ j k h same. ground (
                  arith,
                  v.open_for j,
                  v.open_for k,
                  v.distinct j k,
                  add_fresh c.client_pool new.address,
                );
                held = λ k. elim (Bool-cases ((add_server c.client_pool new.address).0 == k)) [
                  | inl added ↦ inr (i, ground (arith, added), ground arith)
                  | inr older ↦ elim (v.held k) [
                    | inl closed ↦
                        inl
                          (ground (arith, older, closed, server_of-add c.client_pool new.address k))
                    | inr (j, e, h) ↦ inr (j, ground (arith, e, h, free), h)
                  ]
                ];
              },
              inr (ground arith, ground arith, ground arith),
              λ j other. ground arith,
              λ used same. absurd (used free),
              refl,
            )
    ]
  ]

  disconnect-Connected :
      (i : ℕ) (c : State)
      → Connected c
      → connection c i ≢ 0
      → Connected (
          put unknown ids P i
            (record { connection_id = 0; server_info = server c i })
            (remove_server c.client_pool (connection c i))
            c)
  disconnect-Connected i c v used = record {
    open_for = λ j h. ground (
      arith,
      v.open_for j,
      v.distinct i j used,
      h,
      server_of-remove c.client_pool (connection c i) (connection c j),
    );
    named = λ j h. ground (arith, v.named j, h);
    placed = λ j h. ground (arith, v.placed j, h);
    distinct = λ j k h same. ground (arith, v.distinct j k, h, same);
    held = λ k. elim (v.held k) [
      | inl closed ↦ inl (ground (arith, closed, server_of-remove c.client_pool (connection c i) k))
      | inr (j, e, h) ↦ elim (Bool-cases (i == j)) [
        | inl same ↦
            inl (ground (arith, same, e, server_of-remove c.client_pool (connection c i) k))
        | inr other ↦ inr (j, ground (arith, other, e), h)
      ]
    ];
  }

  same_server-≡ : (a b : ServerInfo Address) → (same_server unknown ids P a b ≡ true) ↔ (a ≡ b)
  unfolding same_server
  same_server-≡ a b = ground (arith, e.beq_iff a.address b.address)

  Updates-put :
      (i : ℕ) (new : ServerInfo Address) (info : LocalInfo Address) (pool : Pool) (c : State)
      (o : Option State)
      → server c i ≢ new
      → Updates i new (put unknown ids P i info pool c) o
      → Updates i new c o
  Updates-put i new info pool c none moved u = u
  Updates-put i new info pool c (some d) moved (v, settled, others, kept, packed) = (
    v,
    settled,
    λ j other. ground (arith, others j other, other),
    λ used same. absurd (moved same),
    packed,
  )

  pub update_server-Updates :
      (i : ℕ) (new : ServerInfo Address) (c : State)
      → Connected c
      → Fits i new
      → Updates i new c (update_server unknown ids P i new c)
  unfolding update_server
  update_server-Updates i new c v fits = elim (Bool-cases (connection c i == 0)) [
    | inl free ↦ rw free (connect-Updates i new c v fits (ground arith))
    | inr used ↦ elim (Bool-cases (same_server unknown ids P new (server c i))) [
      | inl same ↦
          rw (used, same)
            (
              v,
              inr (
                rw ((same_server-≡ new (server c i)).0 same) (v.named i (ground arith)),
                ground arith,
                sym ((same_server-≡ new (server c i)).0 same),
              ),
              λ j other. refl,
              λ held same. refl,
              refl,
            )
      | inr moved ↦
          rw (used, moved)
            (let c' =
                put unknown ids P i (record { connection_id = 0; server_info = server c i })
                  (remove_server c.client_pool (connection c i)) c in
              Updates-put i new (record { connection_id = 0; server_info = server c i })
                (remove_server c.client_pool (connection c i)) c (connect unknown ids P i new c')
                (λ same. ground (arith, moved, (same_server-≡ new (server c i)).1 (sym same)))
                (connect-Updates i new c' (disconnect-Connected i c v (ground arith)) fits
                  (ground arith)))
    ]
  ]
