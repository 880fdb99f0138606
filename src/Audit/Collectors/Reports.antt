-- ===== src/Audit/Collectors/Reports.antt =====
-- A report goes to one of the collectors, on an open connection.
use pp.Prelude.{
  ℕ, zero, suc, ◌≤◌, ◌≡◌, ◌∙◌, refl, ap, ◌⊎◌, inl, inr, List, [], ◌∷◌, Option, none, some, arith,
  length, get_elem?, get_elem-some, add64, ◌%◌,
}
use pp.Xel.ClientPool.{ClientPool}
use pp.Audit.Usage.{Report}
use pp.Audit.Collectors.{Row, Collectors, post_report}
use pp.Audit.Collectors.Sync.{server_at, holders, InSync}

module _ {Address : Type 0} where
  holders-get_elem? :
      (list : List (Row Address)) (i : ℕ) (r : Row Address)
      → get_elem? list i ≡ some r
      → 1 ≤ holders list r.connection_id
  holders-get_elem? [] i r h = cc
  holders-get_elem? (x ∷ list) zero r h = ground arith
  holders-get_elem? (x ∷ list) (suc i) r h = omega (arith, holders-get_elem? list i r h)

  server_at-get_elem? :
      (list : List (Row Address)) (i : ℕ) (r : Row Address)
      → get_elem? list i ≡ some r
      → holders list r.connection_id ≤ 1
      → server_at list r.connection_id ≡ some r.address
  server_at-get_elem? [] i r h d = cc
  server_at-get_elem? (x ∷ list) zero r h d = ground arith
  server_at-get_elem? (x ∷ list) (suc i) r h d =
      ground (arith, holders-get_elem? list i r h, server_at-get_elem? list i r h)

module _ {Address : Type 0} (P : ClientPool Address) where
  -- What becomes of a report on an account.
  abbrev pub Posted : Collectors P → Report → Collectors P × Option (ℕ × Report) → Type 0
  Posted state report (after, posted) =
      ((state.list ≡ [])
        × (posted ≡ none)
        × (after ≡ record state { no_server_report = add64 state.no_server_report 1 }))
      ⊎ ((r : Row Address) × (i : ℕ) × (get_elem? state.list i ≡ some r)
          × (posted ≡ some (r.connection_id, report))
          × (P.server_of state.reporter r.connection_id ≡ some r.address)
          × (after ≡ state))

  -- From connections in step with the list, a report on an account is counted and not posted if
  -- there is no collector; otherwise it is posted unchanged on a connection that is open for a
  -- collector of the list, and the state stays as it is.
  pub post_report-Posted :
      (state : Collectors P) (auth_id : ℕ) (report : Report)
      → InSync P state.reporter state.list
      → Posted state report (post_report P state auth_id report)
  unfolding post_report
  post_report-Posted state auth_id report v = go state.list refl
    where
      go :
          (list : List (Row Address))
          → state.list ≡ list
          → Posted state report (post_report P state auth_id report)
      go [] empty = inl (ground arith)
      go (x ∷ xs) filled =
          let i = auth_id % length state.list in
          let found = get_elem-some state.list i (grind (arith, ap length filled)) in
          inr (
            found.0,
            i,
            found.1,
            ground (arith, found.1, ap length filled),
            v.open_for found.0.connection_id
                ∙ server_at-get_elem? state.list i found.0 found.1
                    (v.distinct found.0.connection_id),
            ground (arith, found.1, ap length filled),
          )
