-- ===== src/Audit/Domain.antt =====
-- ExtractSecondLevelDomain of ppp/lib_component/audit_service/audit_service.cpp, on bytes.
pub mod Labels
use pp.Prelude.{
  ℕ, zero, suc, ◌+◌, List, Option, none, some, ◌==◌, if◌then◌else◌, length, get_or, drop,
}

-- The scan `for (I = from; I > 0;) if (Domain[--I] == '.') ...`: the last dot below `from`.
unfoldable pub last_dot_below : List ℕ → ℕ → Option ℕ
last_dot_below domain zero = none
last_dot_below domain (suc i) =
    if get_or domain i 0 == b'.' then some i else last_dot_below domain i

unfoldable pub extract_second_level_domain : List ℕ → List ℕ
extract_second_level_domain domain = elim (last_dot_below domain (length domain)) [
  | none ↦ domain
  | some last_dot ↦ elim (last_dot_below domain last_dot) [
    | none ↦ domain
    | some second_last_dot ↦ drop (second_last_dot + 1) domain
  ]
]
