-- ===== src/Xel/ClientPool.antt =====
-- xel::xTcpClientPool: connections to servers, by an identifier that is never 0.
use pp.Prelude.{ℕ, ◌≡◌, ◌≢◌, Option, none, some, ◌==◌, if◌then◌else◌}

pub record ClientPool (Address : Type 0) : Type 1 where
  pub Pool : Type 0
  -- The server that a connection was added for.
  pub server_of : Pool → ℕ → Option Address
  -- AddServer, which returns 0 where the pool is full, and RemoveServer.
  pub add_server : Pool → Address → ℕ × Pool
  pub remove_server : Pool → ℕ → Pool
  pub add_fresh : (p : Pool) (a : Address) → server_of p (add_server p a).0 ≡ none
  pub server_of-add :
      (p : Pool) (a : Address) (c : ℕ)
      → (add_server p a).0 ≢ 0
      → server_of (add_server p a).1 c ≡ (if (add_server p a).0 == c then some a else server_of p c)
  pub server_of-remove :
      (p : Pool) (i c : ℕ)
      → server_of (remove_server p i) c ≡ (if i == c then none else server_of p c)
