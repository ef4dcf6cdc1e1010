-- ===== src/Prelude/Modulo.antt =====
-- An index that is taken once round a buffer.
use Prim.Native.Nat.{ℕ, ◌+◌, ◌-◌, ◌%◌, ◌<◌}
use mathlib.Core.Path.{◌≡◌}
use native.Mathlib.Omega.{arith}
use native.Mathlib.Nat.{mod-eq_of_lt, mod-eq-sub-mod}
use native.Mathlib.Decide.{dec_lt}
use iocp_multi_threading_cha.Prelude.Tests.{ltb, if◌then◌else◌}

pub mod-wrap : (a c : ℕ) → a < c + c → a % c ≡ (if ltb a c then a else a - c)
mod-wrap a c h = elim (dec_lt a c) [
  | yes p ↦ ground (arith, mod-eq_of_lt p)
  | no p ↦ ground (
    arith,
    mod-eq-sub-mod {n = a} {m = c} (omega arith),
    mod-eq_of_lt {n = a - c} {m = c} (omega arith),
  )
]
