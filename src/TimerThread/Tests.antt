-- ===== src/TimerThread/Tests.antt =====
-- A silent client over two rounds of the timer thread, and a witness.
use iocp_multi_threading_cha.Prelude.{
  ℕ, ◌+◌, ◌≤◌, ◌≡◌, refl, Bool, true, false, some, [], ◌∷◌, get_elem?, replicate, arith,
}
use iocp_multi_threading_cha.Session.{Session, success, Kernel}
use iocp_multi_threading_cha.Stats.{init}
use iocp_multi_threading_cha.TokenBucket.{make}
use iocp_multi_threading_cha.Timer.Item.{tick_of}
use iocp_multi_threading_cha.Timer.Heap.{PriorityQueue, by_selection}
use iocp_multi_threading_cha.Abuse.{Clock, Client}
use iocp_multi_threading_cha.TimerThread.{TimerThread, on_round}
use iocp_multi_threading_cha.TimerThread.Deadline.{
  Watched, begins, round, others, on_round-deadline,
}

abbrev kernel : Kernel
kernel = record {
  wsa_send = λ _. success;
  wsa_recv = λ _ _. success;
  disconnect_ex = success;
  stack_spans = record {
    first = record { buf = 0; len = 0 };
    second = record { buf = 0; len = 0 };
  };
}

abbrev connected : Session
connected = record {
  connected = true;
  recv_buffer = record { buffer = replicate 8 0; capacity = 8; read_pos = 0; write_pos = 0 };
  send_queue = [];
  is_sending = false;
  send_offset = 0;
  send_buffers = [];
  connect_owner = false;
  disconnect_owner = false;
  recv_owner = true;
  send_owner = false;
}

-- Last heard of at 1000.
abbrev silent : Client
silent = record {
  session = connected;
  session_id = 7;
  player_name = [];
  ip_address = [];
  port = 80;
  last_heartbeat_tick = 1000;
  is_abuse_reported = false;
  rate_limiter = make 40 20 1000;
}

abbrev queue : PriorityQueue (tick_of {J = ℕ})
queue = by_selection tick_of

abbrev thread : TimerThread queue
thread = record {
  last_check_tick = 900;
  timer = record { items = (by_selection tick_of).empty; distributing = false };
  queues = record { queue = λ q. record { jobs = []; job_count = 0 }; global = [] };
  clients = silent ∷ [];
  monitor = record { logs = []; abuse_count = 0; stats = init 0 };
}

abbrev none_left : ℕ → Bool
none_left q = false

abbrev at_tick : ℕ → Clock
at_tick n = record { tick = n; time_str = [] }

abbrev clock : ℕ → Clock
clock i = at_tick 17052

abbrev calm : TimerThread queue
calm = on_round queue kernel none_left 15950 15950 clock thread

-- A packet is sent to the client between the rounds.
abbrev told : TimerThread queue
told = record calm {
  clients =
      record silent { session = record connected { send_queue = (4 ∷ []) ∷ []; is_sending = true } }
      ∷ [];
}

abbrev over : TimerThread queue
over = on_round queue kernel none_left 17050 17051 clock told

rounds : Watched queue kernel none_left thread 0 1000 over 0 17050 17051
unfolding on_round
rounds =
    round told 0 15950 15950 17050 17051 clock
      (others calm told 0 0 15950 15950 silent
        (record silent {
          session = record connected { send_queue = (4 ∷ []) ∷ []; is_sending = true };
        })
        (round thread 0 1000 1000 15950 15950 clock (begins (omega arith) (omega arith))
          (omega arith) (omega arith) (omega arith))
        refl refl refl (record { same_connected = refl; same_heartbeat = refl }))
      (omega arith) (omega arith) (omega arith)

on_round-deadline_example :
    (c' : Client) × (get_elem? over.clients 0 ≡ some c')
    × (1000 + 16000 ≤ 17050 → c'.session.connected ≡ false)
    × (17051 ≤ 1000 + 15000 → c'.session.connected ≡ true)
on_round-deadline_example =
    on_round-deadline queue kernel none_left silent thread 0 1000 over 0 17050 17051 refl
      (omega arith) refl (omega arith) rounds
