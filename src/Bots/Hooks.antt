-- ===== src/Bots/Hooks.antt =====
-- What a bot does when it has connected and has disconnected, of Source/DummyClient/Session/DummySession.cpp,
-- and the loop over the seconds and the verdict of Source/DummyClient/StressTester.cpp.
use iocp_multi_threading_cha.Prelude.{
  ℕ, zero, suc, ◌+◌, ◌%◌, Bool, not, ◌&&◌, ◌||◌, Option, List, [], ◌∷◌, ◌++◌, ltb, ◌==◌,
  if◌then◌else◌, codes, positive,
}
use iocp_multi_threading_cha.Decimal.{to_string}
use iocp_multi_threading_cha.Protocol.{Message, c_login, c_room_chat}
use iocp_multi_threading_cha.Session.{Bytes, Kernel, disconnect}
use iocp_multi_threading_cha.Bots.{
  BotScenario, normal, slowloris, connect_spam, packet_flood, StressStats, Stress, int32_add,
  set_bot, count_sent, is_abusive, transmit, send_latency_ping_chat, send_enter_room,
  send_heartbeat,
}

-- What the clocks and `rand()` return in a round of the inner loop.
pub record Readings : Type 0 where
  pub now_us : ℕ
  pub coin : ℕ
  pub tick : ℕ
  pub target : ℕ

module _ (k : Kernel) (make_send_buffer : Message → Option Bytes) where
  -- The rounds of `ExecuteFloodAttack` from `n` on.
  unfoldable pub flood_from : ℕ → ℕ → ℕ → Stress → Stress
  flood_from zero n i w = w
  flood_from (suc rounds) n i w = flood_from rounds (suc n) i (
      count_sent (
        transmit k make_send_buffer i
          (c_room_chat (codes "Flooding attack packet #" ++ to_string (suc n))) w))

  -- `ExecuteFloodAttack`.
  unfoldable pub execute_flood_attack : ℕ → ℕ → Stress → Stress
  unfolding flood_from
  execute_flood_attack count i w = flood_from count 0 i w

  -- The `switch` of `OnConnected`.
  unfoldable pub act : BotScenario → ℕ → Stress → Stress
  unfolding execute_flood_attack
  act normal i w = count_sent (transmit k make_send_buffer i (c_login (w.bot i).bot_name) w)
  act slowloris i w = w
  act connect_spam i w = set_bot i (record (w.bot i) { session = disconnect k (w.bot i).session }) w
  act packet_flood i w =
      execute_flood_attack 80 i
        (count_sent (transmit k make_send_buffer i (c_login (w.bot i).bot_name) w))

  -- `OnConnected`, with the value of `GetTickCount64()`.
  unfoldable pub on_connected : ℕ → ℕ → Stress → Stress
  unfolding act
  on_connected tick i w = act (w.bot i).scenario i (
      set_bot i (record (w.bot i) { connected_tick = tick })
        (record w {
          stats = record w.stats {
            active_sessions = int32_add w.stats.active_sessions 1;
            total_connected = int32_add w.stats.total_connected 1;
          };
        }))

  -- `OnDisconnected`; `fetch_sub(1)` adds the word of -1.
  unfoldable pub on_disconnected : ℕ → Stress → Stress
  on_disconnected i w =
      let abuse = if is_abusive (w.bot i).scenario then 1 else 0 in
      record w {
        stats = record w.stats {
          active_sessions = int32_add w.stats.active_sessions 4294967295;
          total_disconnected = int32_add w.stats.total_disconnected 1;
          abuse_disconnected = int32_add w.stats.abuse_disconnected abuse;
        };
      }

  -- A round of the inner loop of `RunScenario`; `sec % 1` is always 0.
  unfoldable pub interact_one : ℕ → Readings → ℕ → Stress → Stress
  unfolding send_latency_ping_chat send_heartbeat send_enter_room
  interact_one sec r i w =
      let w1 = send_latency_ping_chat k make_send_buffer r.now_us i w in
      let w2 = if r.coin % 3 == 0 then send_heartbeat k make_send_buffer r.tick i w1 else w1 in
      if not (w.bot i).session.connected
      then w
      else if sec % 10 == 0
      then send_enter_room k make_send_buffer i [] (r.target % 100 + 1) w2
      else w2

  -- The inner loop, over the bots that the factory made.
  unfoldable pub interact : ℕ → (ℕ → Readings) → List ℕ → Stress → Stress
  unfolding interact_one
  interact sec readings [] w = w
  interact sec readings (i ∷ bots) w =
      interact sec readings bots (interact_one sec (readings i) i w)

-- `testPassed`.
unfoldable pub test_passed : BotScenario → ℕ → StressStats → Bool
test_passed normal bot_count s = positive s.total_connected && ltb 0 s.total_sent_packets
test_passed slowloris bot_count s = positive s.total_connected
test_passed connect_spam bot_count s =
    s.total_connected == bot_count && s.total_disconnected == bot_count
test_passed packet_flood bot_count s =
    positive s.abuse_disconnected || positive s.total_disconnected
