-- ===== src/TimerThread.antt =====
-- The timer thread of Source/ChatServer/Main.cpp: a round of its loop hands out the due jobs of
-- `JobTimer` and once a second lets `AbuseMonitor` look for silent clients. The clients are those of the
-- service; what the clocks return and whether a job queue still exists are arguments.
pub mod Deadline
mod Tests
use iocp_multi_threading_cha.Prelude.{ℕ, Bool, List, leb, if◌then◌else◌}
use iocp_multi_threading_cha.Session.{Kernel}
use iocp_multi_threading_cha.Stats.{sub_64}
use iocp_multi_threading_cha.Timer.{Queues, JobTimer, distribute}
use iocp_multi_threading_cha.Timer.Heap.{PriorityQueue}
use iocp_multi_threading_cha.Timer.Item.{tick_of}
use iocp_multi_threading_cha.Abuse.{AbuseMonitor, Clock, Client, check_heartbeat_timeouts}

abbrev pub time_out_ms : ℕ
time_out_ms = 15000

module _ {J : Type 0} (pq : PriorityQueue (tick_of {J = J})) where
  pub record TimerThread : Type 0 where
    pub last_check_tick : ℕ
    pub timer : JobTimer pq
    pub queues : Queues J
    pub clients : List Client
    pub monitor : AbuseMonitor

  module _ (k : Kernel) (exists : ℕ → Bool) where
    -- The check once a second, at `now`; `tick` and `clock` are what `CheckHeartbeatTimeouts` and `ReportAbuse`
    -- read.
    unfoldable pub check_each_second : ℕ → ℕ → (ℕ → Clock) → TimerThread → TimerThread
    unfolding check_heartbeat_timeouts
    check_each_second now tick clock s =
        let (clients, monitor) =
          check_heartbeat_timeouts k tick time_out_ms clock s.clients s.monitor in
        if leb 1000 (sub_64 now s.last_check_tick)
        then record s { last_check_tick = now; clients = clients; monitor = monitor }
        else s

    -- A round of the loop.
    unfoldable pub on_round : ℕ → ℕ → (ℕ → Clock) → TimerThread → TimerThread
    unfolding check_each_second distribute
    on_round now tick clock s =
        let (timer, queues) = distribute pq exists now s.timer s.queues in
        check_each_second now tick clock (record s { timer = timer; queues = queues })
