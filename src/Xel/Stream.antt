-- ===== src/Xel/Stream.antt =====
-- xel::xStreamReader and xStreamWriter: the 16-bit numbers of a packet. Single bytes and runs of
-- bytes are read and written as they are.
use pp.Prelude.{ℕ, ◌^◌, ◌<◌, ◌≡◌}

pub record Stream : Type 0 where
  pub r2 : ℕ → ℕ → ℕ  -- R2() on two bytes
  pub w2_first : ℕ → ℕ  -- the bytes that W2() writes
  pub w2_second : ℕ → ℕ
  pub r2_w2 : (n : ℕ) → n < 2 ^ 16 → r2 (w2_first n) (w2_second n) ≡ n
