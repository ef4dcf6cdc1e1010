-- ===== src/Bots.antt =====
-- The bots of the stress tester: Source/DummyClient/Session/DummySession.h and DummySession.cpp,
-- the handlers of Source/DummyClient/Protocol/DummyPacketHandlerImpl.cpp. What `rand()` and the clocks return is an
-- argument; so is `MakeSendBuffer`. `sent` lists what was given to `Send`, by which bot.
pub mod Hooks
pub mod Echo
pub mod Counts
pub mod Tally
mod Tests
use iocp_multi_threading_cha.Prelude.{
  ℕ, zero, suc, ◌+◌, ◌-◌, ◌%◌, Bool, true, false, not, ◌&&◌, ◌||◌, Option, none, some, List, [],
  ◌∷◌, ◌++◌, ltb, leb, ◌==◌, if◌then◌else◌, length, drop, update, codes, positive, equal,
}
use iocp_multi_threading_cha.Decimal.{to_string, stoull}
use iocp_multi_threading_cha.Latency.{LatencyMonitor, record_sample}
use iocp_multi_threading_cha.Protocol.{
  CEnterRoom, SLogin, SEnterRoom, SChat, Message, c_login, s_login, c_heartbeat, c_enter_room,
  s_enter_room, s_leave_room, c_room_chat, s_room_chat,
}
use iocp_multi_threading_cha.Protocol.Handlers.{client_case, handle_packet}
use iocp_multi_threading_cha.Session.{Bytes, Session, Kernel, disconnect, send}

pub data BotScenario : Type 0 where
  normal slowloris connect_spam packet_flood : BotScenario

-- `int32` and `uint64` counters, as their bits.
pub record StressStats : Type 0 where
  pub active_sessions : ℕ
  pub total_connected : ℕ
  pub total_disconnected : ℕ
  pub abuse_disconnected : ℕ
  pub total_sent_packets : ℕ
  pub total_recv_packets : ℕ

-- `StressStats::Reset`.
abbrev pub reset_stats : StressStats
reset_stats = record {
  active_sessions = 0;
  total_connected = 0;
  total_disconnected = 0;
  abuse_disconnected = 0;
  total_sent_packets = 0;
  total_recv_packets = 0;
}

pub record DummySession : Type 0 where
  pub scenario : BotScenario
  pub bot_index : ℕ
  pub bot_name : Bytes
  pub is_logged_in : Bool
  pub is_in_room : Bool
  pub chat_seq : ℕ
  pub connected_tick : ℕ
  pub session : Session

-- The constructor.
abbrev pub new_bot : BotScenario → ℕ → Session → DummySession
new_bot scenario index session = record {
  scenario = scenario;
  bot_index = index;
  bot_name = codes "Bot_" ++ to_string index;
  is_logged_in = false;
  is_in_room = false;
  chat_seq = 0;
  connected_tick = 0;
  session = session;
}

-- `latency` is `none` once `RecordSample` has left its array.
pub record Stress : Type 0 where
  pub bot : ℕ → DummySession
  pub stats : StressStats
  pub latency : Option LatencyMonitor
  pub sent : List (ℕ × Message)

abbrev pub int32_add : ℕ → ℕ → ℕ
int32_add a b = (a + b) % 4294967296

abbrev pub uint64_suc : ℕ → ℕ
uint64_suc a = suc a % 18446744073709551616

abbrev pub set_bot : ℕ → DummySession → Stress → Stress
set_bot i b w = record w { bot = update w.bot i b }

abbrev pub count_sent : Stress → Stress
count_sent w = record w {
  stats = record w.stats { total_sent_packets = uint64_suc w.stats.total_sent_packets };
}

abbrev pub count_recv : Stress → Stress
count_recv w = record w {
  stats = record w.stats { total_recv_packets = uint64_suc w.stats.total_recv_packets };
}

-- The text between "LAT:" and the clock's value: `message.rfind("LAT:", 0) == 0`,
-- `message.find(':', 4)` and `message.substr(firstColon + 1)`.
unfoldable pub starts_with : Bytes → Bytes → Bool
starts_with [] s = true
starts_with (p ∷ ps) [] = false
starts_with (p ∷ ps) (c ∷ s) = c == p && starts_with ps s

-- The index of the first `c` in a text that starts at `i`.
unfoldable pub find_at : ℕ → ℕ → Bytes → Option ℕ
find_at c i [] = none
find_at c i (x ∷ s) = let rest = find_at c (suc i) s in if x == c then some i else rest

abbrev pub read_tag : Option ℕ → Bytes → Option ℕ
read_tag none message = none
read_tag (some first_colon) message = stoull (drop (suc first_colon) message)

unfoldable pub latency_tag : Bytes → Option ℕ
unfolding starts_with find_at
latency_tag message =
    if starts_with (codes "LAT:") message
    then read_tag (find_at b':' 4 (drop 4 message)) message
    else none

abbrev pub recorded : ℕ → Option LatencyMonitor → Option LatencyMonitor
recorded rtt_us none = none
recorded rtt_us (some m) = record_sample rtt_us m

-- From the `try` on.
abbrev pub record_echo : ℕ → Option ℕ → Stress → Stress
record_echo now_us none w = w
record_echo now_us (some sent_us) w =
    if leb sent_us now_us then record w { latency = recorded (now_us - sent_us) w.latency } else w

-- `Handle_S_ROOM_CHAT`.
unfoldable pub handle_s_room_chat : ℕ → ℕ → SChat → Stress → Stress
unfolding latency_tag
handle_s_room_chat now_us i p w =
    if equal p.sender_name (w.bot i).bot_name
    then record_echo now_us (latency_tag p.message) w
    else w

-- `Handle_S_ENTER_ROOM` and `Handle_S_LEAVE_ROOM`.
abbrev pub handle_s_enter_room : ℕ → SEnterRoom → Stress → Stress
handle_s_enter_room i p w =
    if p.success then set_bot i (record (w.bot i) { is_in_room = true }) w else w

abbrev pub handle_s_leave_room : ℕ → Stress → Stress
handle_s_leave_room i w = set_bot i (record (w.bot i) { is_in_room = false }) w

abbrev pub is_normal : BotScenario → Bool
is_normal normal = true
is_normal _ = false

abbrev pub is_abusive : BotScenario → Bool
is_abusive slowloris = true
is_abusive packet_flood = true
is_abusive _ = false

-- The text of a ping.
abbrev pub ping_text : ℕ → ℕ → Bytes
ping_text seq now_us = codes "LAT:" ++ to_string seq ++ (b':' ∷ to_string now_us)

module _ (k : Kernel) (make_send_buffer : Message → Option Bytes) where
  -- `Send(pkt.MakeSendBuffer())`.
  abbrev pub transmit : ℕ → Message → Stress → Stress
  transmit i p w =
      record (set_bot i
        (record (w.bot i) { session = (send k (w.bot i).session (make_send_buffer p)).1 }) w) {
          sent = w.sent ++ ((i, p) ∷ []);
        }

  -- `Handle_S_LOGIN`, with the value of `rand()`.
  unfoldable pub handle_s_login : ℕ → ℕ → SLogin → Stress → Stress
  handle_s_login rand i p w =
      let w' = set_bot i (record (w.bot i) { is_logged_in = true }) w in
      let enter : CEnterRoom = record { room_id = rand % 50 + 1; room_name = [] } in
      if p.success
      then if is_normal (w.bot i).scenario
        then count_sent (transmit i (c_enter_room enter) w')
        else w'
      else w

  -- The `Handle_*` functions of the bots: those left out only return true.
  unfoldable pub handle : ℕ → ℕ → ℕ → Message → Stress → Bool × Stress
  unfolding handle_s_login handle_s_room_chat
  handle rand now_us i (s_login p) w = (true, handle_s_login rand i p w)
  handle rand now_us i (s_enter_room p) w = (true, handle_s_enter_room i p w)
  handle rand now_us i (s_leave_room success) w = (true, handle_s_leave_room i w)
  handle rand now_us i (s_room_chat p) w = (true, handle_s_room_chat now_us i p w)
  handle rand now_us i _ w = (true, w)

  -- `OnRecvPacket`.
  unfoldable pub on_recv_packet : ℕ → ℕ → ℕ → Bytes → Stress → Stress
  unfolding handle handle_packet
  on_recv_packet rand now_us i buffer w =
      (handle_packet (handle rand now_us i) client_case buffer (count_recv w)).1

  -- `SendChat`.
  unfoldable pub send_chat : ℕ → Bytes → Stress → Stress
  send_chat i msg w =
      if not (w.bot i).session.connected || not (w.bot i).is_in_room
      then w
      else count_sent (transmit i (c_room_chat msg) w)

  -- `SendLatencyPingChat`.
  unfoldable pub send_latency_ping_chat : ℕ → ℕ → Stress → Stress
  send_latency_ping_chat now_us i w =
      let seq = (w.bot i).chat_seq in
      if not (w.bot i).session.connected || not (w.bot i).is_in_room
      then w
      else count_sent (
          transmit i (c_room_chat (ping_text seq now_us))
            (set_bot i (record (w.bot i) { chat_seq = int32_add seq 1 }) w))

  -- `SendEnterRoom`.
  unfoldable pub send_enter_room : ℕ → Bytes → ℕ → Stress → Stress
  send_enter_room i msg room_id w =
      let enter : CEnterRoom = record { room_id = room_id; room_name = msg } in
      if not (w.bot i).session.connected then w else count_sent (transmit i (c_enter_room enter) w)

  -- `SendHeartbeat`.
  unfoldable pub send_heartbeat : ℕ → ℕ → Stress → Stress
  send_heartbeat tick i w =
      if not (w.bot i).session.connected then w else count_sent (transmit i (c_heartbeat tick) w)
