-- ===== src/Auth/References/Tick.antt =====
-- Tick keeps the counts, and the loop of CheckAndReportLocalAudit ends.
use pp.Prelude.{
  ℕ, zero, suc, ◌^◌, ◌≤◌, ◌<◌, ◌≡◌, ap, subst, List, Option, none, some, arith, Option-cases, inl,
  inr, refl, ◌∙◌, sym, length,
}
use pp.Audit.Usage.{AuditUsage}
use pp.Xel.Storage.{Storage}
use pp.Xel.NodeList.{NodeList}
use pp.Auth.Types.{Build, local_audit_node_idle_timeout_ms, AuditNode}
use pp.Auth.Service.{AuthService}
use pp.Auth.Reporting.{report_node, add_report, is_due, check_and_report_local_audit, tick}
use pp.Auth.References.{holders, refs, Inv}
use pp.Auth.References.Round.{left, dues-le, Round, report_node-Round}

module _ (Address : Type 0) (build : Build) (S : Storage AuditNode) (X : NodeList) where
  open S use {Pool, check_and_get}
  open X use {Links, nodes}

  abbrev State : Type 0
  State = AuthService Address build S X

  abbrev Counts : State → List ℕ → Type 0
  Counts = Inv Address build S X

  abbrev idle : ℕ
  idle = local_audit_node_idle_timeout_ms build

  -- What the loop leaves: the counts, the map and the time, and no due node at the head.
  abbrev pub Ended : State → List ℕ → Option (State × List AuditUsage) → Type 0
  Ended s clients none = ⊥
  Ended s clients (some (t, us)) =
      Counts t clients
      × (t.auth_local_map ≡ s.auth_local_map)
      × (t.now ≡ s.now)
      × (X.pop_head_if t.timeout_list (is_due Address build S X t.now t.pool) ≡ none)

  add_report-Ended :
      (s s' : State) (clients : List ℕ) (r : Option AuditUsage)
      (o : Option (State × List AuditUsage))
      → s'.auth_local_map ≡ s.auth_local_map
      → s'.now ≡ s.now
      → Ended s' clients o
      → Ended s clients (add_report Address build S X r o)
  unfolding add_report
  add_report-Ended s s' clients none none e1 e2 h = h
  add_report-Ended s s' clients (some u) none e1 e2 h = h
  add_report-Ended s s' clients none (some (t, us)) e1 e2 h = (h.0, h.1 ∙ e1, h.2 ∙ e2, h.3)
  add_report-Ended s s' clients (some u) (some (t, us)) e1 e2 h = (h.0, h.1 ∙ e1, h.2 ∙ e2, h.3)

  still_bounded :
      (s t : State) (clients : List ℕ) (j : ℕ)
      → t.auth_local_map ≡ s.auth_local_map
      → refs Address build S X j s clients < 2 ^ 64
      → refs Address build S X j t clients < 2 ^ 64
  still_bounded s t clients j e h = omega (arith, ap (holders j) e, h)

  loop-Ended :
      (fuel : ℕ) (s : State) (clients : List ℕ)
      → Counts s clients
      → ((i : ℕ) → refs Address build S X i s clients < 2 ^ 64)
      → idle ≤ s.now
      → s.now < 2 ^ 64
      → left Address build S X s < fuel
      → Ended s clients (check_and_report_local_audit Address build S X fuel s)
  unfolding check_and_report_local_audit
  loop-Ended zero s clients v b h1 h2 enough = omega (arith, enough)
  loop-Ended (suc fuel) s clients v b h1 h2 enough =
      elim (X.pop_head_if_lem s.timeout_list (is_due Address build S X s.now s.pool)) [
        | inl (e, none_left) ↦
            rw (none_left, check_and_report_local_audit) (v, refl, refl, none_left)
        | inr (i, rest, head, inr (not_due, stops)) ↦
            rw (stops, check_and_report_local_audit) (v, refl, refl, stops)
        | inr (i, rest, head, inl (due, pops)) ↦ elim (Option-cases (check_and_get s.pool i)) [
          | inl dead ↦ absurd (ground (arith, due, dead))
          | inr (n, own) ↦
              let s1 : State =
                (report_node Address build S X i n (record s { timeout_list = rest })).0 in
              let r : Round Address build S X s s1 clients =
                report_node-Round Address build S X s clients v i n rest head due own (b i) h1 h2 in
              rw (pops, check_and_report_local_audit, own)
                (add_report-Ended s s1 clients _ _ r.1 r.2 (
                  loop-Ended fuel s1 clients r.0 (λ j. still_bounded s s1 clients j r.1 (b j))
                    (subst (λ t. idle ≤ t) (sym r.2) h1) (subst (λ t. t < 2 ^ 64) (sym r.2) h2)
                    (omega (arith, r.3, enough))))
        ]
      ]

  still_now : (s : State) → left Address build S X s < suc (length (nodes s.timeout_list))
  still_now s = omega (arith, dues-le Address build S X s.now s.pool (nodes s.timeout_list))

  -- From a state whose counts hold and fit in 64 bits, Tick ends at a time past the idle timeout.
  -- It keeps the counts and the map, and leaves no node at the head of the list that is due.
  pub tick-Ended :
      (now : ℕ) (s : State) (clients : List ℕ)
      → Counts s clients
      → ((i : ℕ) → refs Address build S X i s clients < 2 ^ 64)
      → idle ≤ now
      → now < 2 ^ 64
      → Ended (record s { now = now }) clients (tick Address build S X now s)
  unfolding tick
  tick-Ended now s clients v b h1 h2 =
      loop-Ended (suc (length (nodes s.timeout_list))) (record s { now = now }) clients
        (record {
          counted = v.counted;
          live = v.live;
          listed = v.listed;
          given = v.given;
          unset = v.unset;
        })
        b h1 h2 (still_now (record s { now = now }))
