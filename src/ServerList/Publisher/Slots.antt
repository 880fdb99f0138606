-- ===== src/ServerList/Publisher/Slots.antt =====
-- The places of the published lists, and what is sent of them.
use pp.Prelude.{
  ℕ, zero, suc, ◌-◌, ◌≤◌, ◌<◌, ◌≡◌, ◌≢◌, ◌⊎◌, inl, inr, refl, subst, true, false, List, [], ◌∷◌,
  ◌++◌, Option, none, some, arith, ◌==◌, leb, Bool-cases, Option-cases, All, All-append, All-map,
}
use pp.Xel.ServerIds.{ServerIds}
use pp.Xel.NetAddress.{NetAddress}
use pp.Audit.Collectors.{ServerInfo}
use pp.ServerList.{no_server, Reply, max_small_server_list_size}
use pp.ServerList.Client.Indexing.{Listed}
use pp.ServerList.Publisher.{
  BufferedList, Publisher, set_group, new_list, publish_group, unpublish_group, listed,
  build_server_list_response, at_place, set_server, add_server_at, on_new_server_id,
  on_remove_server_id, on_download_list, is_known,
}

module _ (A : NetAddress) (ids : ServerIds) where
  open A use {Address, unknown, kind}

  abbrev object_of : ServerInfo Address → ℕ
  object_of s = ids.object_id_of s.server_id

  Listed-snoc :
      (xs : List (ServerInfo Address)) (y : ServerInfo Address)
      → Listed ids xs
      → All (λ x. object_of x < object_of y) xs
      → y.server_id ≢ 0
      → 0 < object_of y
      → object_of y ≤ max_small_server_list_size
      → Listed ids (xs ++ y ∷ [])
  Listed-snoc [] y h below named positive small = (named, positive, small, tt, tt)
  Listed-snoc (x ∷ xs) y (named', positive', small', others, rest) below named positive small = (
    named',
    positive',
    small',
    All-append (λ t. object_of t ≢ object_of x) xs (y ∷ []) others
        ((λ e. omega (arith, e, below.0), tt)),
    Listed-snoc xs y rest below.1 named positive small,
  )

  -- Each place has a server with its own object identifier, or none.
  abbrev pub Slots : (ℕ → ServerInfo Address) → Type 0
  Slots list = (i : ℕ) → (list i).server_id ≢ 0 → object_of (list i) ≡ suc i

  listed-Listed :
      (n : ℕ) (list : ℕ → ServerInfo Address)
      → n ≤ max_small_server_list_size
      → Slots list
      → Listed ids (listed A ids n list) × All (λ t. object_of t ≤ n) (listed A ids n list)
  listed-Listed zero list h v = (tt, tt)
  listed-Listed (suc n) list h v =
      let (ok, below) = listed-Listed n list (omega (arith, h)) v in
      let later =
        All-map (λ t. object_of t ≤ n) (λ t. object_of t ≤ suc n) (listed A ids n list)
          (λ x b. omega (arith, b)) below in
      elim (Bool-cases ((list n).server_id == 0)) [
        | inl absent ↦ rw absent (ok, later)
        | inr present ↦
            let place = v n (ground (arith, present)) in
            rw present (
              Listed-snoc (listed A ids n list) (list n) ok
                  (All-map (λ t. object_of t ≤ n) (λ t. object_of t < object_of (list n))
                    (listed A ids n list) (λ x b. omega (arith, b, place)) below)
                  (ground (arith, present)) (omega (arith, place)) (omega (arith, place, h)),
              All-append (λ t. object_of t ≤ suc n) (listed A ids n list) (list n ∷ []) later
                  (omega (arith, place), tt),
            )
      ]

  -- The list was that of the group in one of the states.
  abbrev pub Held : List (Publisher A ids) → ℕ → List (ServerInfo Address) → Type 0
  Held [] g xs = ⊥
  Held (p ∷ ps) g xs =
      ((l : BufferedList A ids) × (p g ≡ some l)
        × (listed A ids max_small_server_list_size l.list ≡ xs))
      ⊎ Held ps g xs

  abbrev pub Good : List (Publisher A ids) → ℕ → List (ServerInfo Address) → Type 0
  Good past g xs = Held past g xs × Listed ids xs

  pub record Sound (past : List (Publisher A ids)) (p : Publisher A ids) : Type 0 where
    pub slots : (g : ℕ) (l : BufferedList A ids) → p g ≡ some l → Slots l.list
    pub current :
        (g : ℕ) (l : BufferedList A ids)
        → p g ≡ some l
        → Held past g (listed A ids max_small_server_list_size l.list)
    pub built :
        (g : ℕ) (l : BufferedList A ids)
        → p g ≡ some l
        → l.dirty ≡ false
        → Good past g l.resp.server_list

  pub Sound-same :
      (past : List (Publisher A ids)) (p : Publisher A ids) → Sound past p → Sound (p ∷ past) p
  Sound-same past p v = record {
    slots = v.slots;
    current = λ g l e. inr (v.current g l e);
    built = λ g l e clean. let (held, ok) = v.built g l e clean in (inr held, ok);
  }

  Sound-set :
      (past : List (Publisher A ids)) (p : Publisher A ids) (g : ℕ) (l : BufferedList A ids)
      → Sound past p
      → Slots l.list
      → (l.dirty ≡ false → Good past g l.resp.server_list)
      → Sound (set_group A ids g (some l) p ∷ past) (set_group A ids g (some l) p)
  Sound-set past p g l v places clean = record {
    slots = λ h k e. elim (Bool-cases (g == h)) [
      | inl same ↦ subst (λ (k : BufferedList A ids). Slots k.list) (written h k e same) places
      | inr other ↦ v.slots h k (ground (arith, e, other))
    ];
    current = λ h k e. inl (k, e, refl);
    built = λ h k e done. elim (Bool-cases (g == h)) [
      | inl same ↦
          (let (held, ok) =
              subst (λ (k : BufferedList A ids). k.dirty ≡ false → Good past g k.resp.server_list)
                (written h k e same) clean done in
            (inr (subst (λ n. Held past n k.resp.server_list) (ground (arith, same)) held), ok))
      | inr other ↦ (let (held, ok) = v.built h k (ground (arith, e, other)) done in (inr held, ok))
    ];
  }
    where
      written :
          (h : ℕ) (k : BufferedList A ids)
          → set_group A ids g (some l) p h ≡ some k
          → (g == h) ≡ true
          → l ≡ k
      written h k e same = ground (arith, e, same)

  abbrev pub Publishes : List (Publisher A ids) → Option (Publisher A ids) → Type 0
  Publishes past none = ⊥
  Publishes past (some p) = Sound (p ∷ past) p

  pub publish_group-Publishes :
      (past : List (Publisher A ids)) (p : Publisher A ids) (g : ℕ)
      → Sound past p
      → p g ≡ none
      → Publishes past (publish_group A ids g p)
  unfolding publish_group
  publish_group-Publishes past p g v free =
      rw (publish_group, free)
        (Sound-set past p g (new_list A ids) v (λ i named. absurd (named refl))
          (λ clean. ground (arith, clean)))

  pub unpublish_group-Publishes :
      (past : List (Publisher A ids)) (p : Publisher A ids) (g : ℕ) (l : BufferedList A ids)
      → Sound past p
      → p g ≡ some l
      → Publishes past (unpublish_group A ids g p)
  unfolding unpublish_group
  unpublish_group-Publishes past p g l v there =
      rw (unpublish_group, there)
        (record {
          slots = λ h k e. v.slots h k (kept h k e);
          current = λ h k e. inl (k, e, refl);
          built = λ h k e clean. let (held, ok) = v.built h k (kept h k e) clean in (inr held, ok);
        })
    where
      kept : (h : ℕ) (k : BufferedList A ids) → set_group A ids g none p h ≡ some k → p h ≡ some k
      kept h k e = ground (arith, e)

  -- What the callers of OnNewServerId and OnRemoveServerId grant: the identifier is one of a group
  -- that is published.
  abbrev pub Known : ℕ → Publisher A ids → Type 0
  Known id p =
      ((l : BufferedList A ids) × (p (ids.group_of id) ≡ some l)) × (ids.object_id_of id ≢ 0)

  -- An identifier that is handed out is not in its list.
  abbrev pub Free : ℕ → Publisher A ids → Type 0
  Free id p =
      (l : BufferedList A ids)
      → p (ids.group_of id) ≡ some l
      → ((l.list (ids.object_id_of id - 1)).server_id ≡ 0)
        × (is_known (kind (l.list (ids.object_id_of id - 1)).address) ≡ false)

  at_place-Publishes :
      (past : List (Publisher A ids)) (p : Publisher A ids) (id : ℕ) (s : ServerInfo Address)
      (change : BufferedList A ids → ℕ → Option (BufferedList A ids))
      → Sound past p
      → Known id p
      → (s.server_id ≢ 0 → s.server_id ≡ id)
      → ((l : BufferedList A ids)
          → p (ids.group_of id) ≡ some l
          → change l (ids.object_id_of id - 1)
            ≡ some (set_server A ids (ids.object_id_of id - 1) s l))
      → Publishes past (at_place A ids id change p)
  unfolding at_place
  at_place-Publishes past p id s change v ((l, e), object) mine changes =
      elim (Bool-cases (leb max_small_server_list_size (ids.object_id_of id - 1))) [
        | inl large ↦ rw (at_place, e, nonzero, large) (Sound-same past p v)
        | inr small ↦
            rw (at_place, e, nonzero, small, changes l e)
              (Sound-set past p (ids.group_of id) (set_server A ids (ids.object_id_of id - 1) s l) v
                (λ i named. ground (arith, named, mine, object, v.slots (ids.group_of id) l e i))
                (λ clean. ground (arith, clean)))
      ]
    where
      nonzero : (ids.object_id_of id == 0) ≡ false
      nonzero = ground (arith, object)

  pub on_new_server_id-Publishes :
      (past : List (Publisher A ids)) (p : Publisher A ids) (id : ℕ) (address : Address)
      → Sound past p
      → Known id p
      → Free id p
      → Publishes past (on_new_server_id A ids id address p)
  unfolding on_new_server_id
  on_new_server_id-Publishes past p id address v known free =
      at_place-Publishes past p id (record { server_id = id; address = address })
        (add_server_at A ids id address) v known (λ named. refl)
        (λ l e. let (no_id, no_address) = free l e in rw (add_server_at, no_id, no_address) refl)

  pub on_remove_server_id-Publishes :
      (past : List (Publisher A ids)) (p : Publisher A ids) (id : ℕ)
      → Sound past p
      → Known id p
      → Publishes past (on_remove_server_id A ids id p)
  unfolding on_remove_server_id
  on_remove_server_id-Publishes past p id v known =
      at_place-Publishes past p id (no_server unknown)
        (λ l i. some (set_server A ids i (no_server unknown) l)) v known
        (λ named. absurd (named refl)) (λ l e. refl)

  abbrev pub Replies :
      List (Publisher A ids)
      → (request_id server_group : ℕ) → Publisher A ids × Option (Reply Address)
      → Type 0
  Replies past request_id g (p, none) = Sound (p ∷ past) p
  Replies past request_id g (p, some r) =
      Sound (p ∷ past) p × (r.request_id ≡ request_id) × Good (p ∷ past) g r.response.server_list

  build-Good :
      (past : List (Publisher A ids)) (p : Publisher A ids) (now g : ℕ) (l : BufferedList A ids)
      → Sound past p
      → p g ≡ some l
      → Slots (build_server_list_response A ids now l).list
        × Good past g (build_server_list_response A ids now l).resp.server_list
  unfolding build_server_list_response
  build-Good past p now g l v e = elim (Bool-cases l.dirty) [
    | inl dirty ↦
        rw (build_server_list_response, dirty)
          (
            v.slots g l e,
            (
              v.current g l e,
              (listed-Listed max_small_server_list_size l.list (omega arith) (v.slots g l e)).0,
            ),
          )
    | inr clean ↦ rw (build_server_list_response, clean) (v.slots g l e, v.built g l e clean)
  ]

  pub on_download_list-Replies :
      (past : List (Publisher A ids)) (p : Publisher A ids) (now request_id g : ℕ)
      → Sound past p
      → Replies past request_id g (on_download_list A ids now request_id g p)
  unfolding on_download_list
  on_download_list-Replies past p now request_id g v = elim (Option-cases (p g)) [
    | inl missing ↦ rw (on_download_list, missing) (Sound-same past p v)
    | inr (l, e) ↦
        let (places, good) = build-Good past p now g l v e in
        rw (on_download_list, e)
          (
            Sound-set past p g (build_server_list_response A ids now l) v places (λ clean. good),
            refl,
            (inr good.0, good.1),
          )
  ]
