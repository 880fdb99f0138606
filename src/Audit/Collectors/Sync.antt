-- ===== src/Audit/Collectors/Sync.antt =====
-- The connections that are open are those of the rows.
use pp.Prelude.{
  ℕ, suc, ◌+◌, ◌≤◌, ◌≡◌, ◌≢◌, refl, ap, List, [], ◌∷◌, ◌++◌, Option, none, some, arith, ◌==◌,
  if◌then◌else◌, append_assoc, length, Bool-cases, inl, inr,
}
use pp.Xel.ClientPool.{ClientPool}
use pp.Audit.Collectors.{ServerInfo, Row, rows, remove_rest, add_then, add_rest, keep_then}

-- The server whose row holds a connection.
abbrev pub server_at : {Address : Type 0} → List (Row Address) → ℕ → Option Address
server_at [] c = none
server_at (r ∷ rs) c = if r.connection_id == c then some r.address else server_at rs c

-- How many rows hold it.
abbrev pub holders : {Address : Type 0} → List (Row Address) → ℕ → ℕ
holders [] c = 0
holders (r ∷ rs) c = (if r.connection_id == c then 1 else 0) + holders rs c

module _ {Address : Type 0} (P : ClientPool Address) where
  -- A connection is open exactly if a row holds it, for the server of that row; no two rows
  -- share one.
  pub record InSync (pool : P.Pool) (list : List (Row Address)) : Type 0 where
    pub open_for : (c : ℕ) → P.server_of pool c ≡ server_at list c
    pub distinct : (c : ℕ) → holders list c ≤ 1

module _ {Address : Type 0} where
  server_at-append :
      (xs ys : List (Row Address)) (c : ℕ)
      → server_at (xs ++ ys) c ≡ elim (server_at xs c) [ none ↦ server_at ys c | some a ↦ some a ]
  server_at-append [] ys c = refl
  server_at-append (x ∷ xs) ys c = ground (arith, server_at-append xs ys c)

  holders-append :
      (xs ys : List (Row Address)) (c : ℕ) → holders (xs ++ ys) c ≡ holders xs c + holders ys c
  holders-append [] ys c = omega arith
  holders-append (x ∷ xs) ys c = omega (arith, holders-append xs ys c)

  server_at-none : (xs : List (Row Address)) (c : ℕ) → holders xs c ≡ 0 → server_at xs c ≡ none
  server_at-none [] c h = refl
  server_at-none (x ∷ xs) c h = ground (arith, server_at-none xs c)

  holders-none : (xs : List (Row Address)) (c : ℕ) → server_at xs c ≡ none → holders xs c ≡ 0
  holders-none [] c h = refl
  holders-none (x ∷ xs) c h = ground (arith, holders-none xs c)

  abbrev pub row : ServerInfo Address → ℕ → Row Address
  row s c = record { info = s; connection_id = c }

module _ {Address : Type 0} (P : ClientPool Address) where
  open P use {
    Pool, server_of, add_server, remove_server, add_fresh, server_of-add, server_of-remove,
  }

  pub InSync-remove :
      (done : List (Row Address)) (old : Row Address) (olds : List (Row Address)) (pool : Pool)
      → InSync P pool (done ++ old ∷ olds)
      → InSync P (remove_server pool old.connection_id) (done ++ olds)
  InSync-remove done old olds pool v = record {
    open_for = λ c. ground (
      arith,
      v.open_for c,
      v.distinct c,
      server_of-remove pool old.connection_id c,
      server_at-append done olds c,
      server_at-append done (old ∷ olds) c,
      holders-append done (old ∷ olds) c,
      server_at-none done c,
      server_at-none olds c,
    );
    distinct = λ c.
        ground
          (arith, v.distinct c, holders-append done olds c, holders-append done (old ∷ olds) c);
  }

  InSync-add :
      (done : List (Row Address)) (new : ServerInfo Address) (olds : List (Row Address))
      (pool : Pool)
      → (add_server pool new.address).0 ≢ 0
      → InSync P pool (done ++ olds)
      → InSync P
          (add_server pool new.address).1
          ((done ++ row new (add_server pool new.address).0 ∷ []) ++ olds)
  InSync-add done new olds pool ok v =
      let c = (add_server pool new.address).0 in
      let r = row new c in
      rw (append_assoc done (r ∷ []) olds) record {
        open_for = λ k. ground (
          arith,
          v.open_for k,
          v.open_for c,
          server_of-add pool new.address k ok,
          add_fresh pool new.address,
          server_at-append done olds k,
          server_at-append done olds c,
          server_at-append done (r ∷ olds) k,
        );
        distinct = λ k. ground (
          arith,
          v.distinct k,
          v.open_for c,
          add_fresh pool new.address,
          holders-append done olds k,
          holders-append done (r ∷ olds) k,
          holders-none (done ++ olds) c,
        );
      }

  pub InSync-keep :
      (done : List (Row Address)) (old : Row Address) (new : ServerInfo Address)
      (olds : List (Row Address)) (pool : Pool)
      → old.address ≡ new.address
      → InSync P pool (done ++ old ∷ olds)
      → InSync P pool ((done ++ row new old.connection_id ∷ []) ++ olds)
  InSync-keep done old new olds pool same v =
      let r = row new old.connection_id in
      rw (append_assoc done (r ∷ []) olds) record {
        open_for = λ k. ground (
          arith,
          v.open_for k,
          server_at-append done (old ∷ olds) k,
          server_at-append done (r ∷ olds) k,
        );
        distinct = λ k. ground (
          arith,
          v.distinct k,
          holders-append done (old ∷ olds) k,
          holders-append done (r ∷ olds) k,
        );
      }

  -- AddServer has returned 0 for some server: the abort of `RuntimeAssert`.
  abbrev pub PoolFull : Type 0
  PoolFull = (q : Pool) × (a : Address) × ((add_server q a).0 ≡ 0)

  -- A result: as many identifiers as servers, in step with the pool behind the rows `done`.
  abbrev pub Synced :
      List (Row Address) → List (ServerInfo Address) → Option (List ℕ × Pool) → Type 0
  Synced done news none = PoolFull
  Synced done news (some (ids, q)) = (length ids ≡ length news) × InSync P q (done ++ rows news ids)

  pub Synced-cons :
      (done : List (Row Address)) (new : ServerInfo Address) (c : ℕ)
      (news : List (ServerInfo Address)) (r : Option (List ℕ × Pool))
      → Synced (done ++ row new c ∷ []) news r
      → Synced done (new ∷ news) (keep_then P c r)
  unfolding keep_then
  Synced-cons done new c news none s = s
  Synced-cons done new c news (some (ids, q)) s =
      (ap suc s.0, rw (append_assoc done (row new c ∷ []) (rows news ids)) at s.1)

  pub add_then-Synced :
      (done : List (Row Address)) (new : ServerInfo Address) (olds : List (Row Address))
      (news : List (ServerInfo Address)) (pool : Pool) (rest : Pool → Option (List ℕ × Pool))
      → ((q : Pool) (d : List (Row Address)) → InSync P q (d ++ olds) → Synced d news (rest q))
      → InSync P pool (done ++ olds)
      → Synced done (new ∷ news) (add_then P pool new.address rest)
  unfolding add_then
  add_then-Synced done new olds news pool rest ih v =
      let c = (add_server pool new.address).0 in
      elim (Bool-cases (c == 0)) [
        | inl full ↦ rw full (pool, new.address, ground arith)
        | inr room ↦ rw room (
            Synced-cons done new c news (rest (add_server pool new.address).1) (
              ih (add_server pool new.address).1 (done ++ row new c ∷ [])
                (InSync-add done new olds pool (ground arith) v)))
      ]

  pub remove_rest-InSync :
      (done olds : List (Row Address)) (pool : Pool)
      → InSync P pool (done ++ olds)
      → InSync P (remove_rest P olds pool) (done ++ [])
  unfolding remove_rest
  remove_rest-InSync done [] pool v = v
  remove_rest-InSync done (old ∷ olds) pool v =
      remove_rest-InSync done olds (remove_server pool old.connection_id)
        (InSync-remove done old olds pool v)

  pub add_rest-Synced :
      (done : List (Row Address)) (news : List (ServerInfo Address)) (pool : Pool)
      → InSync P pool (done ++ [])
      → Synced done news (add_rest P news pool)
  unfolding add_rest
  add_rest-Synced done [] pool v = (refl, v)
  add_rest-Synced done (new ∷ news) pool v =
      add_then-Synced done new [] news pool (add_rest P news) (λ q d. add_rest-Synced d news q) v
