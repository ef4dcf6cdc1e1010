-- ===== src/Abuse/Tests.antt =====
-- A client that floods, a client that has gone silent, and witnesses.
use iocp_multi_threading_cha.Prelude.{
  ℕ, zero, suc, ◌+◌, ◌*◌, ◌%◌, ◌≤◌, ◌≡◌, refl, Bool, true, false, not, List, [], ◌∷◌, ◌++◌, map,
  one_if, replicate, length, arith,
}
use iocp_multi_threading_cha.Session.{
  Bytes, Session, success, Kernel, disconnect, register_disconnect,
}
use iocp_multi_threading_cha.Stats.{init}
use iocp_multi_threading_cha.TokenBucket.{make, refill, consume}
use iocp_multi_threading_cha.TokenBucket.Limit.{All, budget}
use iocp_multi_threading_cha.Abuse.{
  packet_flooding, AbuseMonitor, Clock, Client, Env, report_abuse, get_recent_logs,
  check_heartbeat_timeouts, after_handle, after_consume, on_recv_packet, recv_each,
}
use iocp_multi_threading_cha.Abuse.Caught.{Caught, Keeps, recv_each-Caught}
use iocp_multi_threading_cha.Abuse.Flood.{floods, ticks, Counted, recv_each-limit}
use iocp_multi_threading_cha.Abuse.Heartbeat.{checked, late_entries, check_heartbeat_timeouts-late}

abbrev kernel : Kernel
kernel = record {
  wsa_send = λ _. success;
  wsa_recv = λ _ _. success;
  disconnect_ex = success;
  stack_spans = record {
    first = record { buf = 0; len = 0 };
    second = record { buf = 0; len = 0 };
  };
}

abbrev connected : Session
connected = record {
  connected = true;
  recv_buffer = record { buffer = replicate 8 0; capacity = 8; read_pos = 0; write_pos = 0 };
  send_queue = [];
  is_sending = false;
  send_offset = 0;
  send_buffers = [];
  connect_owner = false;
  disconnect_owner = false;
  recv_owner = false;
  send_owner = false;
}

-- A client with two tokens, heard of at 1000.
abbrev client : Client
client = record {
  session = connected;
  session_id = 7;
  player_name = 65 ∷ [];
  ip_address = 49 ∷ [];
  port = 80;
  last_heartbeat_tick = 1000;
  is_abuse_reported = false;
  rate_limiter = make 2 20 1000;
}

abbrev quiet : AbuseMonitor
quiet = record { logs = []; abuse_count = 0; stats = init 0 }

abbrev at_tick : ℕ → Clock
at_tick n = record { tick = n; time_str = [] }

-- A handler that takes every packet and counts.
abbrev count_packet : Bytes → Env ℕ → Bool × Env ℕ
count_packet b e = (true, record e { app = suc e.app })

count_packet-Counted : Counted (λ n. n) count_packet
count_packet-Counted = record {
  counts = λ b e. refl;
  same_bucket = λ b e. refl;
  same_flag = λ b e. refl;
  no_flood = λ b e. refl;
}

abbrev before : Env ℕ
before = record { client = client; monitor = quiet; app = 0 }

-- Four packets at once: two are handled, and the flood is reported once.
abbrev burst : List (Clock × Bytes)
burst = (at_tick 1010, []) ∷ (at_tick 1010, []) ∷ (at_tick 1011, []) ∷ (at_tick 1012, []) ∷ []

burst-runs :
    ((recv_each kernel count_packet burst before).app ≡ 2)
    × (length (recv_each kernel count_packet burst before).monitor.logs ≡ 1)
    × ((recv_each kernel count_packet burst before).client.session.connected ≡ false)
unfolding recv_each on_recv_packet after_consume after_handle report_abuse consume refill disconnect
    register_disconnect
burst-runs = (refl, refl, refl)

recent : length (get_recent_logs 5 (report_abuse (at_tick 1) 7 [] [] 80 packet_flooding quiet)) ≡ 1
unfolding get_recent_logs report_abuse
recent = refl

recv_each-limit_example :
    let e' = recv_each kernel count_packet burst before in
    (1000 * e'.app ≤ 1000 * before.app + budget before.client.rate_limiter 1020)
    × (floods e'.monitor.logs
        ≤ floods before.monitor.logs + one_if (not before.client.is_abuse_reported))
recv_each-limit_example =
    recv_each-limit (λ n. n) count_packet kernel count_packet-Counted burst 1020 before
      (omega arith, (omega arith, (omega arith, (omega arith, tt)))) (omega arith)

count_packet-Keeps : Keeps count_packet
count_packet-Keeps = record {
  same_bucket = λ b e. refl;
  stays = λ b e c. record { reported = c.reported; closed = c.closed };
}

-- A client with the limits of `_rateLimiter`, just connected, and the packets of a flooding bot.
abbrev armed : Env ℕ
armed = record before { client = record client { rate_limiter = make 40 20 1000 } }

abbrev flood : List (Clock × Bytes)
flood = replicate 81 (at_tick 2000, [])

flood-All : (n : ℕ) → All (ticks (replicate n (at_tick 2000, []))) 2000
flood-All zero = tt
flood-All (suc n) = (omega arith, flood-All n)

recv_each-Caught_example :
    let e' = recv_each kernel count_packet flood armed in
    Caught e' × (floods e'.monitor.logs ≡ floods armed.monitor.logs + 1)
recv_each-Caught_example =
    recv_each-Caught kernel count_packet count_packet-Keeps (λ n. n) flood 2000 armed
      count_packet-Counted (flood-All 81) (omega arith) refl (omega arith)

abbrev silent_one : List Client
silent_one = client ∷ record client { last_heartbeat_tick = 20000 } ∷ []

-- The clock moves on between the entries.
abbrev later : ℕ → Clock
later i = at_tick (20002 + i)

check_heartbeat_timeouts-late_example :
    let (cs', m') = check_heartbeat_timeouts kernel 20001 15000 later silent_one quiet in
    (cs' ≡ map (checked kernel 20001 15000) silent_one)
    × (m'.logs ≡ quiet.logs ++ late_entries kernel 20001 15000 later silent_one)
    × (m'.abuse_count % 4294967296
        ≡ (quiet.abuse_count + length (late_entries kernel 20001 15000 later silent_one))
          % 4294967296)
    × (m'.stats.total_abuse_disconnects % 4294967296
        ≡ (quiet.stats.total_abuse_disconnects
            + length (late_entries kernel 20001 15000 later silent_one))
          % 4294967296)
check_heartbeat_timeouts-late_example =
    check_heartbeat_timeouts-late kernel 20001 15000 later silent_one quiet
