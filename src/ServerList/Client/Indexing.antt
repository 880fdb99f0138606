-- ===== src/ServerList/Client/Indexing.antt =====
-- The servers of a list by their indices.
use pp.Prelude.{
  ℕ, zero, suc, ◌-◌, ◌≤◌, ◌<◌, ◌≡◌, ◌≢◌, ◌⊎◌, inl, inr, refl, subst, false, List, [], ◌∷◌, Option,
  none, some, arith, ◌==◌, leb, if◌then◌else◌, Bool-cases, Eq, length, get_elem?, All,
}
use pp.Xel.ClientPool.{ClientPool}
use pp.Xel.ServerIds.{ServerIds}
use pp.Audit.Collectors.{ServerInfo}
use pp.ServerList.{small_index, max_small_server_list_size}
use pp.ServerList.Client.{Client, Servers, index_servers}
use pp.ServerList.Client.Connected.{Fits}

-- Every identifier has an index below the size of the list, and no two the same.
abbrev pub Listed : {Address : Type 0} → ServerIds → List (ServerInfo Address) → Type 0
Listed ids [] = Unit
Listed ids (s ∷ ss) =
    (s.server_id ≢ 0)
    × (0 < ids.object_id_of s.server_id)
    × (ids.object_id_of s.server_id ≤ max_small_server_list_size)
    × All (λ t. ids.object_id_of t.server_id ≢ ids.object_id_of s.server_id) ss
    × Listed ids ss

module _ {Address : Type 0} ⦃e : Eq Address⦄ (unknown : Address) (ids : ServerIds)
    (P : ClientPool Address) where
  abbrev State : Type 0
  State = Client unknown ids P

  abbrev pub index_of : ServerInfo Address → ℕ
  index_of s = ids.object_id_of s.server_id - 1

  abbrev pub Indexed :
      List (ServerInfo Address)
      → Servers unknown ids P
      → Option (Servers unknown ids P × List ℕ)
      → Type 0
  Indexed list before none = ⊥
  Indexed list before (some (all, packed)) =
      (length packed ≡ length list)
      × ((k : ℕ) (s : ServerInfo Address)
          → get_elem? list k ≡ some s
          → (get_elem? packed k ≡ some (index_of s)) × (all (index_of s) ≡ s))
      × ((i : ℕ) → All (λ t. ids.object_id_of t.server_id ≢ suc i) list → all i ≡ before i)
      × ((i : ℕ)
          → (all i ≡ before i)
            ⊎ (((k : ℕ) × (get_elem? list k ≡ some (all i))) × Fits unknown ids P i (all i)))

  small_index-Listed :
      (s : ServerInfo Address) (ss : List (ServerInfo Address))
      → Listed ids (s ∷ ss)
      → small_index ids s.server_id ≡ some (index_of s)
  unfolding small_index
  small_index-Listed s ss h = ground (arith, h.0, h.1)

  not_leb :
      (s : ServerInfo Address) (ss : List (ServerInfo Address))
      → Listed ids (s ∷ ss)
      → leb max_small_server_list_size (index_of s) ≡ false
  not_leb s ss h = ground (arith, h.1, h.2)

  Indexed-cons :
      (s : ServerInfo Address) (ss : List (ServerInfo Address)) (before : Servers unknown ids P)
      (o : Option (Servers unknown ids P × List ℕ))
      → Listed ids (s ∷ ss)
      → Indexed ss (λ j. if index_of s == j then s else before j) o
      → Indexed
          (s ∷ ss)
          before
          (elim o [ none ↦ none | some (all, packed) ↦ some (all, index_of s ∷ packed) ])
  Indexed-cons s ss before none h n = n
  Indexed-cons s ss before (some (all, packed)) (named, positive, small, others, rest)
        (size, found, kept, from) =
      (
        omega (arith, size),
        find,
        λ i absent. ground (arith, kept i absent.1, absent.0, positive),
        λ i. elim (from i) [
          | inl e ↦ elim (Bool-cases (index_of s == i)) [
            | inl same ↦
                inr ((0, ground (arith, e, same)), λ n. ground (arith, e, same, positive, small))
            | inr other ↦ inl (ground (arith, e, other))
          ]
          | inr ((k, at), fits) ↦ inr ((suc k, at), fits)
        ],
      )
    where
      mine : all (index_of s) ≡ s
      mine = ground (
        arith,
        kept (index_of s) (
            subst (λ n. All (λ t. ids.object_id_of t.server_id ≢ n) ss) (omega (arith, positive))
              others),
      )

      find :
          (k : ℕ) (t : ServerInfo Address)
          → get_elem? (s ∷ ss) k ≡ some t
          → (get_elem? (index_of s ∷ packed) k ≡ some (index_of t)) × (all (index_of t) ≡ t)
      find zero t at = ground (arith, at, mine)
      find (suc k) t at = found k t at

  pub index_servers-Indexed :
      (list : List (ServerInfo Address)) (before : Servers unknown ids P)
      → Listed ids list
      → Indexed list before (index_servers unknown ids P list before)
  unfolding index_servers
  index_servers-Indexed [] before h = (refl, λ k s. ground arith, λ i others. refl, λ i. inl refl)
  index_servers-Indexed (s ∷ ss) before h =
      rw (index_servers, small_index-Listed s ss h, not_leb s ss h)
        (Indexed-cons s ss before
          (index_servers unknown ids P ss (λ j. if index_of s == j then s else before j)) h
          (index_servers-Indexed ss (λ j. if index_of s == j then s else before j) h.4))
