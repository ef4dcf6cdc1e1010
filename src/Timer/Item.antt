-- ===== src/Timer/Item.antt =====
-- The items of Source/ServerEngine/Job/JobTimer.h.
use iocp_multi_threading_cha.Prelude.{ℕ}

pub record TimerItem (J : Type 0) : Type 0 where
  pub execute_tick : ℕ
  pub owner : ℕ
  pub job : J

-- What the heap orders by.
abbrev pub tick_of : {J : Type 0} → TimerItem J → ℕ
tick_of item = item.execute_tick
