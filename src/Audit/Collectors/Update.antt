-- ===== src/Audit/Collectors/Update.antt =====
-- OnServerListUpdated keeps the connections in step with the list, and reports find one of them.
use pp.Prelude.{
  ℕ, ◌≡◌, refl, ap, inl, inr, List, [], ◌∷◌, ◌++◌, Option, none, some, arith, ◌==◌, ltb, Eq, length,
  Bool-cases, map,
}
use pp.Xel.ClientPool.{ClientPool}
use pp.Audit.Collectors.{
  ServerInfo, Row, rows, merge, Collectors, st_audit_collector, on_server_list_updated,
}
use pp.Audit.Collectors.Sync.{
  InSync, PoolFull, Synced, row, Synced-cons, InSync-remove, InSync-keep, add_then-Synced,
  add_rest-Synced, remove_rest-InSync,
}

module _ {Address : Type 0} ⦃e : Eq Address⦄ (P : ClientPool Address) where
  open P use {Pool, remove_server}

  merge-Synced :
      (done olds : List (Row Address)) (news : List (ServerInfo Address)) (pool : Pool)
      → InSync P pool (done ++ olds)
      → Synced P done news (merge P olds news pool)
  unfolding merge
  merge-Synced done olds [] pool v = (refl, remove_rest-InSync P done olds pool v)
  merge-Synced done [] (new ∷ news) pool v = add_rest-Synced P done (new ∷ news) pool v
  merge-Synced done (old ∷ olds) (new ∷ news) pool v =
      elim (Bool-cases (old.server_id == new.server_id)) [
        | inl same ↦ elim (Bool-cases (e.beq old.address new.address)) [
          | inl stays ↦
              rw (same, merge, stays)
                (Synced-cons P done new old.connection_id news (merge P olds news pool) (
                  merge-Synced (done ++ row new old.connection_id ∷ []) olds news pool (
                    InSync-keep P done old new olds pool
                      ((e.beq_iff old.address new.address).0 stays) v)))
          | inr moved ↦
              rw (same, merge, moved)
                (add_then-Synced P done new olds news (remove_server pool old.connection_id)
                  (merge P olds news) (λ q d. merge-Synced d olds news q)
                  (InSync-remove P done old olds pool v))
        ]
        | inr other ↦ elim (Bool-cases (ltb old.server_id new.server_id)) [
          | inl gone ↦
              rw (other, merge, gone)
                (merge-Synced done olds (new ∷ news) (remove_server pool old.connection_id)
                  (InSync-remove P done old olds pool v))
          | inr fresh ↦
              rw (other, merge, fresh)
                (add_then-Synced P done new (old ∷ olds) news pool (merge P (old ∷ olds) news)
                  (λ q d. merge-Synced d (old ∷ olds) news q) v)
        ]
      ]

  map-rows :
      (servers : List (ServerInfo Address)) (ids : List ℕ)
      → length ids ≡ length servers
      → map (λ r. r.info) (rows servers ids) ≡ servers
  map-rows [] ids h = refl
  map-rows (s ∷ servers) [] h = absurd (omega arith)
  map-rows (s ∷ servers) (c ∷ ids) h = ap (◌∷◌ s) (map-rows servers ids (omega arith))

  -- The state after an update: the list is the new one, in step with the pool. `none` is the abort.
  abbrev pub Updated : List (ServerInfo Address) → Option (Collectors P) → Type 0
  Updated servers none = PoolFull P
  Updated servers (some state) =
      (map (λ r. r.info) state.list ≡ servers) × InSync P state.reporter state.list

  -- From connections in step with the list, an update of the audit collectors leads to the new
  -- list with connections in step with it, or aborts because the pool could add no server.
  pub update-Updated :
      (servers : List (ServerInfo Address)) (state : Collectors P)
      → InSync P state.reporter state.list
      → Updated servers (on_server_list_updated P st_audit_collector servers state)
  unfolding on_server_list_updated
  update-Updated servers state v =
      finish (merge P state.list servers state.reporter)
        (merge-Synced [] state.list servers state.reporter v)
    where
      finish :
          (r : Option (List ℕ × Pool))
          → Synced P [] servers r
          → Updated servers (elim r [
            | none ↦ none
            | some (ids, pool) ↦ some (record state { list = rows servers ids; reporter = pool })
          ])
      finish none s = s
      finish (some (ids, q)) s = (map-rows servers ids s.0, s.1)
