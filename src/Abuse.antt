-- ===== src/Abuse.antt =====
-- The monitor of abuse and the guard of a client's packets: Source/ChatServer/Service/AbuseMonitor.h and
-- AbuseMonitor.cpp, and `ClientSession::OnConnected` and `OnRecvPacket` of
-- Source/ChatServer/Session/ClientSession.cpp. Strings are lists of character codes; what the clocks
-- return is the record `Clock`, and `HandlePacket` is a parameter.
pub mod Caught
pub mod Flood
pub mod Heartbeat
mod Tests
use iocp_multi_threading_cha.Prelude.{
  ℕ, suc, ◌+◌, ◌-◌, ◌%◌, min, Bool, true, false, not, ◌&&◌, ◌||◌, List, [], ◌∷◌, ◌++◌, map, ltb,
  leb, ◌==◌, if◌then◌else◌, length, drop,
}
use iocp_multi_threading_cha.Session.{Bytes, Session, Kernel, disconnect}
use iocp_multi_threading_cha.Stats.{
  ServerStats, on_session_connected, on_packet_received, on_abuse_disconnection,
}
use iocp_multi_threading_cha.TokenBucket.{TokenBucket, consume, reset}

-- The three texts that the program gives.
pub data Reason : Type 0 where
  packet_flooding : Reason
  malformed_data : Reason
  heartbeat_timeout : Reason

pub record AbuseLogEntry : Type 0 where
  pub session_id : ℕ
  pub player_name : Bytes
  pub ip_address : Bytes
  pub port : ℕ
  pub reason : Reason
  pub timestamp : ℕ
  pub time_str : Bytes

pub record AbuseMonitor : Type 0 where
  pub logs : List AbuseLogEntry
  pub abuse_count : ℕ
  pub stats : ServerStats

-- `GetTickCount64` and `GetCurrentTimeString`.
pub record Clock : Type 0 where
  pub tick : ℕ
  pub time_str : Bytes

-- "(Unauth)" and "0.0.0.0".
abbrev pub unauth : Bytes
unauth = 40 ∷ 85 ∷ 110 ∷ 97 ∷ 117 ∷ 116 ∷ 104 ∷ 41 ∷ []

abbrev pub any_ip : Bytes
any_ip = 48 ∷ 46 ∷ 48 ∷ 46 ∷ 48 ∷ 46 ∷ 48 ∷ []

abbrev pub or_else : Bytes → Bytes → Bytes
or_else [] other = other
or_else (c ∷ s) other = c ∷ s

-- `AbuseMonitor::Init`.
abbrev pub init : AbuseMonitor → AbuseMonitor
init m = record m { logs = []; abuse_count = 0 }

-- `AbuseMonitor::ReportAbuse`.
unfoldable pub report_abuse : Clock → ℕ → Bytes → Bytes → ℕ → Reason → AbuseMonitor → AbuseMonitor
report_abuse clock session_id player_name ip_address port reason m =
    let entry : AbuseLogEntry = record {
      session_id = session_id;
      player_name = or_else player_name unauth;
      ip_address = or_else ip_address any_ip;
      port = port;
      reason = reason;
      timestamp = clock.tick;
      time_str = clock.time_str;
    } in
    record {
      logs = m.logs ++ (entry ∷ []);
      abuse_count = (m.abuse_count + 1) % 4294967296;
      stats = on_abuse_disconnection m.stats;
    }

-- `AbuseMonitor::GetRecentLogs`.
unfoldable pub get_recent_logs : ℕ → AbuseMonitor → List AbuseLogEntry
get_recent_logs max_count m =
    if length m.logs == 0
    then []
    else let count = min max_count (length m.logs) in drop (length m.logs - count) m.logs

-- A client as the guard and the monitor see it; `ip_address` is the text of `GetIpAddress`, in wide
-- characters.
pub record Client : Type 0 where
  pub session : Session
  pub session_id : ℕ
  pub player_name : Bytes
  pub ip_address : List ℕ
  pub port : ℕ
  pub last_heartbeat_tick : ℕ
  pub is_abuse_reported : Bool
  pub rate_limiter : TokenBucket

-- `ip += static_cast<char>(c)`.
abbrev pub narrow : List ℕ → Bytes
narrow ip = map (λ c. c % 256) ip

module _ (k : Kernel) where
  -- Whether `CheckHeartbeatTimeouts` reports a client at `now`.
  abbrev pub timed_out : ℕ → ℕ → Client → Bool
  timed_out now timeout_ms c =
      if not c.session.connected
      then false
      else if c.last_heartbeat_tick == 0
      then false
      else if leb now c.last_heartbeat_tick
      then false
      else ltb timeout_ms (now - c.last_heartbeat_tick)

  -- The loop of `CheckHeartbeatTimeouts` over the sessions of the snapshot, at `now`. `ReportAbuse` reads the
  -- clock again for each entry: it shows `clock i` at the session that stands at `i`.
  unfoldable pub check_heartbeat_timeouts :
      ℕ → ℕ → (ℕ → Clock) → List Client → AbuseMonitor → List Client × AbuseMonitor
  unfolding report_abuse
  check_heartbeat_timeouts now timeout_ms clock [] m = ([], m)
  check_heartbeat_timeouts now timeout_ms clock (c ∷ cs) m =
      let late = timed_out now timeout_ms c in
      let m' =
        if late
        then report_abuse (clock 0) c.session_id [] (narrow c.ip_address) c.port heartbeat_timeout m
        else m in
      let c' = if late then record c { session = disconnect k c.session } else c in
      let (cs', m'') = check_heartbeat_timeouts now timeout_ms (λ i. clock (suc i)) cs m' in
      (c' ∷ cs', m'')

  -- `ClientSession::OnConnected`.
  unfoldable pub on_connected : Clock → Client → AbuseMonitor → Client × AbuseMonitor
  unfolding reset
  on_connected clock c m = (
    record c { last_heartbeat_tick = clock.tick; rate_limiter = reset c.rate_limiter clock.tick },
    record m { stats = on_session_connected m.stats },
  )

-- What a handler of packets may change: its client, the monitor and the rest of the application.
pub record Env (A : Type 0) : Type 0 where
  pub client : Client
  pub monitor : AbuseMonitor
  pub app : A

module _ {A : Type 0} (k : Kernel) (handle_packet : Bytes → Env A → Bool × Env A) where
  -- `ReportAbuse` and `Disconnect` of the client.
  abbrev pub punish : Clock → Reason → Bool → Env A → Env A
  punish clock reason report e =
      let c = e.client in
      record e {
        client = record c { session = disconnect k c.session };
        monitor =
            if report
            then report_abuse clock c.session_id c.player_name (narrow c.ip_address) c.port reason
                e.monitor
            else e.monitor;
      }

  -- After `HandlePacket`.
  unfoldable pub after_handle : Clock → Bool × Env A → Env A
  unfolding report_abuse
  after_handle clock (true, e) = e
  after_handle clock (false, e) = punish clock malformed_data true e

  -- After `Consume(1)`.
  unfoldable pub after_consume : Clock → Bytes → Bool × TokenBucket → Env A → Env A
  unfolding after_handle
  after_consume clock packet (false, b) e =
      punish clock packet_flooding (not e.client.is_abuse_reported)
        (record e { client = record e.client { rate_limiter = b; is_abuse_reported = true } })
  after_consume clock packet (true, b) e = after_handle clock (
      handle_packet packet (record e {
        client = record e.client { rate_limiter = b; last_heartbeat_tick = clock.tick };
      }))

  -- `ClientSession::OnRecvPacket`.
  unfoldable pub on_recv_packet : Clock → Bytes → Env A → Env A
  unfolding after_consume consume
  on_recv_packet clock packet e =
      after_consume clock packet (consume e.client.rate_limiter 1 clock.tick) (record e {
        monitor = record e.monitor { stats = on_packet_received (length packet) e.monitor.stats };
      })

  -- Packets of one client, each at its time.
  unfoldable pub recv_each : List (Clock × Bytes) → Env A → Env A
  unfolding on_recv_packet
  recv_each [] e = e
  recv_each ((clock, packet) ∷ rest) e = recv_each rest (on_recv_packet clock packet e)
