-- ===== src/Base/Rows.antt =====
-- Rows of equal size, one behind the other.
use Prim.Native.Nat.{ℕ, ◌+◌, ◌*◌, ◌≤◌, ◌<◌}
use native.Mathlib.Omega.{arith}

-- A row below `rows` ends inside the table.
pub row_end-le : (row size rows : ℕ) → row < rows → row * size + size ≤ rows * size
row_end-le row size rows h = grind arith
