-- ===== src/Xel/ServerIds.antt =====
-- xel::service::ExtractServerIdInternal: the parts of a server's identifier.
use pp.Prelude.{ℕ, ◌<◌}

pub record ServerIds : Type 0 where
  pub group_of : ℕ → ℕ  -- Type
  pub object_id_of : ℕ → ℕ  -- ObjectId
  pub group_of-lt : (id : ℕ) → group_of id < 256
