-- ===== src/Audit/Collectors/Kept.antt =====
-- A collector that stays in the list, at its address, keeps its connection.
use pp.Prelude.{
  ℕ, ◌<◌, ◌≡◌, ◌⊎◌, inl, inr, List, [], ◌∷◌, Option, none, some, arith, ◌==◌, ltb, Eq, All,
  Bool-cases,
}
use pp.Xel.ClientPool.{ClientPool}
use pp.Audit.Collectors.{
  ServerInfo, Row, rows, merge, add_then, keep_then, Collectors, st_audit_collector,
  on_server_list_updated,
}

abbrev pub Has : {A : Type 0} → A → List A → Type 0
Has a [] = ⊥
Has a (x ∷ xs) = (a ≡ x) ⊎ Has a xs

-- The servers come in ascending order of their identifiers, each once.
abbrev pub IsAscending : {Address : Type 0} → List (ServerInfo Address) → Type 0
IsAscending [] = Unit {0}
IsAscending (s ∷ ss) = All (λ t. s.server_id < t.server_id) ss × IsAscending ss

abbrev pub AreAscending : {Address : Type 0} → List (Row Address) → Type 0
AreAscending [] = Unit {0}
AreAscending (r ∷ rs) = All (λ t. r.server_id < t.server_id) rs × AreAscending rs

module _ {Address : Type 0} where
  Has-above :
      (n : ℕ) (s : ServerInfo Address) (ss : List (ServerInfo Address))
      → All (λ t. n < t.server_id) ss
      → Has s ss
      → n < s.server_id
  Has-above n s [] a h = elim h [ ]
  Has-above n s (t ∷ ss) a (inl e) = ground arith
  Has-above n s (t ∷ ss) a (inr h) = Has-above n s ss a.1 h

  Has-above_row :
      (n : ℕ) (r : Row Address) (rs : List (Row Address))
      → All (λ t. n < t.server_id) rs
      → Has r rs
      → n < r.server_id
  Has-above_row n r [] a h = elim h [ ]
  Has-above_row n r (t ∷ rs) a (inl e) = ground arith
  Has-above_row n r (t ∷ rs) a (inr h) = Has-above_row n r rs a.1 h

  -- Heads with one identifier: the row is at both heads, or in both tails.
  same_heads :
      (r old : Row Address) (new : ServerInfo Address) (olds : List (Row Address))
      (news : List (ServerInfo Address))
      → old.server_id ≡ new.server_id
      → AreAscending (old ∷ olds)
      → IsAscending (new ∷ news)
      → Has r (old ∷ olds)
      → Has r.info (new ∷ news)
      → ((r ≡ old) × (r.info ≡ new)) ⊎ (Has r olds × Has r.info news)
  same_heads r old new olds news same ao an (inl ho) (inl hn) = inl (ho, hn)
  same_heads r old new olds news same ao an (inl ho) (inr hn) =
      absurd (ground (arith, Has-above new.server_id r.info news an.0 hn))
  same_heads r old new olds news same ao an (inr ho) (inl hn) =
      absurd (ground (arith, Has-above_row old.server_id r olds ao.0 ho))
  same_heads r old new olds news same ao an (inr ho) (inr hn) = inr (ho, hn)

  -- A smaller head of the old rows is not in the new list, and the other way round.
  in_old_tail :
      (r old : Row Address) (new : ServerInfo Address) (olds : List (Row Address))
      (news : List (ServerInfo Address))
      → old.server_id < new.server_id
      → IsAscending (new ∷ news)
      → Has r (old ∷ olds)
      → Has r.info (new ∷ news)
      → Has r olds
  in_old_tail r old new olds news lt an (inr ho) hn = ho
  in_old_tail r old new olds news lt an (inl ho) (inl hn) = absurd (ground arith)
  in_old_tail r old new olds news lt an (inl ho) (inr hn) =
      absurd (ground (arith, Has-above new.server_id r.info news an.0 hn))

  in_new_tail :
      (r old : Row Address) (new : ServerInfo Address) (olds : List (Row Address))
      (news : List (ServerInfo Address))
      → new.server_id < old.server_id
      → AreAscending (old ∷ olds)
      → Has r (old ∷ olds)
      → Has r.info (new ∷ news)
      → Has r.info news
  in_new_tail r old new olds news lt ao ho (inr hn) = hn
  in_new_tail r old new olds news lt ao (inl ho) (inl hn) = absurd (ground arith)
  in_new_tail r old new olds news lt ao (inr ho) (inl hn) =
      absurd (ground (arith, Has-above_row old.server_id r olds ao.0 ho))

module _ {Address : Type 0} ⦃e : Eq Address⦄ (P : ClientPool Address) (r : Row Address) where
  open P use {Pool, remove_server}

  -- The row stands in a result, if there is one.
  abbrev Keeps : List (ServerInfo Address) → Option (List ℕ × Pool) → Type 0
  Keeps news none = Unit {0}
  Keeps news (some (ids, q)) = Has r (rows news ids)

  keep_then-Keeps :
      (c : ℕ) (new : ServerInfo Address) (news : List (ServerInfo Address))
      (o : Option (List ℕ × Pool))
      → (r ≡ record { info = new; connection_id = c }) ⊎ Keeps news o
      → Keeps (new ∷ news) (keep_then P c o)
  unfolding keep_then
  keep_then-Keeps c new news none k = tt
  keep_then-Keeps c new news (some (ids, q)) (inl h) = inl h
  keep_then-Keeps c new news (some (ids, q)) (inr h) = inr h

  add_then-Keeps :
      (new : ServerInfo Address) (news : List (ServerInfo Address)) (pool : Pool)
      (rest : Pool → Option (List ℕ × Pool))
      → ((q : Pool) → Keeps news (rest q))
      → Keeps (new ∷ news) (add_then P pool new.address rest)
  unfolding add_then
  add_then-Keeps new news pool rest ih =
      elim (Bool-cases ((P.add_server pool new.address).0 == 0)) [
        | inl full ↦ rw full tt
        | inr room ↦ rw room (keep_then-Keeps _ new news _ (inr (ih _)))
      ]

  merge-Keeps :
      (olds : List (Row Address)) (news : List (ServerInfo Address)) (pool : Pool)
      → AreAscending olds
      → IsAscending news
      → Has r olds
      → Has r.info news
      → Keeps news (merge P olds news pool)
  unfolding merge
  merge-Keeps [] news pool ao an ho hn = elim ho [ ]
  merge-Keeps (old ∷ olds) [] pool ao an ho hn = elim hn [ ]
  merge-Keeps (old ∷ olds) (new ∷ news) pool ao an ho hn =
      elim (Bool-cases (old.server_id == new.server_id)) [
        | inl same ↦ elim (Bool-cases (e.beq old.address new.address)) [
          | inl stays ↦
              rw (same, merge, stays)
                (keep_then-Keeps old.connection_id new news _
                  (elim (same_heads r old new olds news (ground arith) ao an ho hn) [
                    | inl both ↦ inl (ground arith)
                    | inr (ho', hn') ↦ inr (merge-Keeps olds news pool ao.1 an.1 ho' hn')
                  ]))
          | inr moved ↦
              rw (same, merge, moved)
                (elim (same_heads r old new olds news (ground arith) ao an ho hn) [
                  | inl both ↦
                      absurd (ground (arith, (e.beq_iff old.address new.address).1 (ground arith)))
                  | inr (ho', hn') ↦
                      add_then-Keeps new news _ _ (λ q. merge-Keeps olds news q ao.1 an.1 ho' hn')
                ])
        ]
        | inr other ↦ elim (Bool-cases (ltb old.server_id new.server_id)) [
          | inl gone ↦
              rw (other, merge, gone)
                (merge-Keeps olds (new ∷ news) _ ao.1 an
                  (in_old_tail r old new olds news (ground arith) an ho hn) hn)
          | inr fresh ↦
              rw (other, merge, fresh)
                (add_then-Keeps new news _ _ (λ q.
                  merge-Keeps (old ∷ olds) news q ao an.1 ho
                    (in_new_tail r old new olds news (ground arith) ao ho hn)))
        ]
      ]

  -- The row stands in the list after an update that did not abort.
  abbrev pub StaysIn : Option (Collectors P) → Type 0
  StaysIn none = Unit {0}
  StaysIn (some state) = Has r state.list

  -- With both lists in ascending order, a collector that the new list has at the same address
  -- keeps its row, and with it its connection.
  pub update-StaysIn :
      (servers : List (ServerInfo Address)) (state : Collectors P)
      → AreAscending state.list
      → IsAscending servers
      → Has r state.list
      → Has r.info servers
      → StaysIn (on_server_list_updated P st_audit_collector servers state)
  unfolding on_server_list_updated
  update-StaysIn servers state ao an ho hn =
      finish (merge P state.list servers state.reporter)
        (merge-Keeps state.list servers state.reporter ao an ho hn)
    where
      finish :
          (o : Option (List ℕ × Pool))
          → Keeps servers o
          → StaysIn (elim o [
            | none ↦ none
            | some (ids, pool) ↦ some (record state { list = rows servers ids; reporter = pool })
          ])
      finish none k = tt
      finish (some (ids, q)) k = k
