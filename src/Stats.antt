-- ===== src/Stats.antt =====
-- The server's counters: Source/ChatServer/Monitoring/ServerStats.h and ServerStats.cpp. The counters are
-- atomic `uint64`s, `uint32`s and an `int32`, here modulo 2 ^ 64 and 2 ^ 32. `GetTickCount64` is an
-- argument. The quotient of a count and a time in floating point is a parameter.
pub mod Rates
mod Tests
use iocp_multi_threading_cha.Prelude.{ℕ, ◌+◌, ◌-◌, ◌/◌, ◌%◌, Bool, ltb, ◌==◌, if◌then◌else◌}

pub record ServerStats : Type 0 where
  pub total_accepted : ℕ
  pub current_ccu : ℕ
  pub total_recv_packets : ℕ
  pub total_recv_bytes : ℕ
  pub total_send_bytes : ℕ
  pub total_abuse_disconnects : ℕ
  pub last_recv_packets : ℕ
  pub last_recv_bytes : ℕ
  pub last_send_bytes : ℕ
  pub last_rate_tick : ℕ
  pub current_pps : ℕ
  pub current_recv_bps : ℕ
  pub current_send_bps : ℕ
  pub start_time : ℕ

abbrev pub add_64 : ℕ → ℕ → ℕ
add_64 a b = (a + b) % 18446744073709551616

abbrev pub sub_64 : ℕ → ℕ → ℕ
sub_64 a b = (a + (18446744073709551616 - b)) % 18446744073709551616

-- `ServerStats::Init`.
abbrev pub init : ℕ → ServerStats
init now = record {
  total_accepted = 0;
  current_ccu = 0;
  total_recv_packets = 0;
  total_recv_bytes = 0;
  total_send_bytes = 0;
  total_abuse_disconnects = 0;
  last_recv_packets = 0;
  last_recv_bytes = 0;
  last_send_bytes = 0;
  last_rate_tick = now;
  current_pps = 0;
  current_recv_bps = 0;
  current_send_bps = 0;
  start_time = now;
}

abbrev pub on_session_connected : ServerStats → ServerStats
on_session_connected s = record s {
  total_accepted = add_64 s.total_accepted 1;
  current_ccu = (s.current_ccu + 1) % 4294967296;
}

abbrev pub on_session_disconnected : ServerStats → ServerStats
on_session_disconnected s = record s { current_ccu = (s.current_ccu + 4294967295) % 4294967296 }

-- `OnPacketReceived` and `OnPacketSent`, of a size that is not negative.
abbrev pub on_packet_received : ℕ → ServerStats → ServerStats
on_packet_received bytes s = record s {
  total_recv_packets = add_64 s.total_recv_packets 1;
  total_recv_bytes = add_64 s.total_recv_bytes bytes;
}

abbrev pub on_packet_sent : ℕ → ServerStats → ServerStats
on_packet_sent bytes s = record s { total_send_bytes = add_64 s.total_send_bytes bytes }

abbrev pub on_abuse_disconnection : ServerStats → ServerStats
on_abuse_disconnection s = record s {
  total_abuse_disconnects = (s.total_abuse_disconnects + 1) % 4294967296;
}

-- `UpdateRates`; `per_second n ms` is `static_cast<uint32>(n / (ms / 1000.0))`.
unfoldable pub update_rates : (ℕ → ℕ → ℕ) → ℕ → ServerStats → ServerStats
update_rates per_second now s =
    let elapsed_ms = sub_64 now s.last_rate_tick in
    if ltb elapsed_ms 500 then s else record s {
      current_pps = per_second (sub_64 s.total_recv_packets s.last_recv_packets) elapsed_ms;
      current_recv_bps = per_second (sub_64 s.total_recv_bytes s.last_recv_bytes) elapsed_ms;
      current_send_bps = per_second (sub_64 s.total_send_bytes s.last_send_bytes) elapsed_ms;
      last_recv_packets = s.total_recv_packets;
      last_recv_bytes = s.total_recv_bytes;
      last_send_bytes = s.total_send_bytes;
      last_rate_tick = now;
    }

abbrev pub get_uptime_seconds : ℕ → ServerStats → ℕ
get_uptime_seconds now s = if s.start_time == 0 then 0 else sub_64 now s.start_time / 1000
