-- ===== src/Bots/Tests.antt =====
-- A bot in a room that measures its latency, a short run of two bots, and witnesses.
use iocp_multi_threading_cha.Prelude.{
  ℕ, ◌≡◌, refl, true, false, Option, none, some, [], ◌∷◌, length, replicate, ◌≤◌, codes, arith,
  if◌then◌else◌, ◌==◌,
}
use iocp_multi_threading_cha.Decimal.{to_string, emit, stoull, skip_space, value}
use iocp_multi_threading_cha.Latency.{reset}
use iocp_multi_threading_cha.Protocol.{Message}
use iocp_multi_threading_cha.Session.{Bytes, Session, success, Kernel}
use iocp_multi_threading_cha.Wire.Chunks.{SendBufferManager}
use iocp_multi_threading_cha.Bots.{
  BotScenario, normal, slowloris, packet_flood, DummySession, Stress, new_bot, reset_stats,
  latency_tag, starts_with, find_at,
}
use iocp_multi_threading_cha.Bots.Hooks.{
  on_connected, act, execute_flood_attack, flood_from, test_passed,
}
use iocp_multi_threading_cha.Bots.Echo.{Echoed, send_latency_ping_chat-Echoed}
use iocp_multi_threading_cha.Bots.Tally.{
  connects, disconnects, Run, start, next, on_event, Tallied, Run-Tallied,
}

abbrev kernel : Kernel
kernel = record {
  wsa_send = λ _. success;
  wsa_recv = λ _ _. success;
  disconnect_ex = success;
  stack_spans = record {
    first = record { buf = 0; len = 0 };
    second = record { buf = 0; len = 0 };
  };
}

abbrev session : Session
session = record {
  connected = true;
  recv_buffer = record { buffer = replicate 8 0; capacity = 8; read_pos = 0; write_pos = 0 };
  send_queue = [];
  is_sending = true;
  send_offset = 0;
  send_buffers = [];
  connect_owner = false;
  disconnect_owner = false;
  recv_owner = true;
  send_owner = true;
}

abbrev packet : Message → Option Bytes
packet p = some []

abbrev in_room : DummySession
in_room = record (new_bot normal 3 session) { is_in_room = true }

abbrev in_rooms : Stress
in_rooms = record { bot = λ i. in_room; stats = reset_stats; latency = some reset; sent = [] }

abbrev fresh : SendBufferManager
fresh = record { chunk = none; pool = [] }

prints : to_string 18446744073709551615 ≡ codes "18446744073709551615"
unfolding to_string emit
prints = refl

reads : stoull (codes " -1x") ≡ some 18446744073709551615
unfolding stoull skip_space value
reads = refl

-- A tag without a second colon is none; nor is one whose number is no number.
tags : (latency_tag (codes "LAT:7") ≡ none) × (latency_tag (codes "LAT:7:x") ≡ none)
unfolding latency_tag starts_with find_at stoull skip_space
tags = (refl, refl)

short_name : length in_room.bot_name ≤ 4000
unfolding to_string emit
short_name = omega arith

send_latency_ping_chat-Echoed_example : Echoed kernel packet 1000 3500 0 0 in_rooms fresh
send_latency_ping_chat-Echoed_example =
    send_latency_ping_chat-Echoed kernel packet 1000 3500 0 0 in_rooms fresh refl refl short_name
      (omega arith) (omega arith) tt

-- One bot floods, the other chats.
abbrev scenarios : ℕ → BotScenario
scenarios i = if i == 0 then packet_flood else normal

abbrev spawned : Stress
spawned = record {
  bot = λ i. new_bot (scenarios i) i session;
  stats = reset_stats;
  latency = some reset;
  sent = [];
}

-- The login and eighty chats.
floods : length (on_connected kernel packet 10 0 spawned).sent ≡ 81
unfolding on_connected act execute_flood_attack flood_from
floods = refl

-- A bot that the server never disconnects passes the test of idle bots.
idle_passes : test_passed slowloris 1 (record reset_stats { total_connected = 1 }) ≡ true
unfolding test_passed
idle_passes = refl

two : Run kernel packet scenarios (disconnects 0 ∷ connects 20 1 ∷ connects 10 0 ∷ []) (
    on_event kernel packet
      (disconnects 0)
      (on_event kernel packet (connects 20 1) (on_event kernel packet (connects 10 0) spawned)))
two = next _ _ _ (next _ _ _ (next _ _ _ (start spawned refl refl (λ j. refl))))

Run-Tallied_example :
    Tallied kernel packet scenarios (disconnects 0 ∷ connects 20 1 ∷ connects 10 0 ∷ []) (
      on_event kernel packet
        (disconnects 0)
        (on_event kernel packet (connects 20 1) (on_event kernel packet (connects 10 0) spawned)))
Run-Tallied_example = Run-Tallied kernel packet scenarios _ _ two
