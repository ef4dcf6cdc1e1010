-- ===== src/Bots/Counts.antt =====
-- What the operations of the bots of Source/DummyClient leave of the counters of `StressStats`.
use iocp_multi_threading_cha.Prelude.{
  ℕ, zero, suc, ◌%◌, ◌≡◌, ◌∙◌, refl, Bool, true, false, Option, none, some, List, [], ◌∷◌, length,
  length-append, arith, ◌==◌, if◌then◌else◌,
}
use iocp_multi_threading_cha.Protocol.{
  Message, SLogin, s_login, s_enter_room, s_leave_room, s_room_chat,
}
use iocp_multi_threading_cha.Protocol.Handlers.{read_packet_header, read_and_handle, handle_packet}
use iocp_multi_threading_cha.Session.{Bytes, Kernel}
use iocp_multi_threading_cha.Session.Packets.{PacketHeader}
use iocp_multi_threading_cha.Wire.{Read, BufferReader}
use iocp_multi_threading_cha.Bots.{
  BotScenario, normal, slowloris, connect_spam, packet_flood, DummySession, Stress, set_bot,
  count_sent, transmit, handle_s_login, handle_s_room_chat, handle, send_latency_ping_chat,
  send_enter_room, send_heartbeat, record_echo, latency_tag,
}
use iocp_multi_threading_cha.Bots.Hooks.{
  Readings, flood_from, execute_flood_attack, act, interact_one, interact,
}

-- From one state to another packets are sent, each counted, and nothing else is.
pub record Sends (w w' : Stress) : Type 0 where
  pub connected : w'.stats.total_connected ≡ w.stats.total_connected
  pub active : w'.stats.active_sessions ≡ w.stats.active_sessions
  pub disconnected : w'.stats.total_disconnected ≡ w.stats.total_disconnected
  pub abuse : w'.stats.abuse_disconnected ≡ w.stats.abuse_disconnected
  pub received : w'.stats.total_recv_packets ≡ w.stats.total_recv_packets
  pub scenario : (j : ℕ) → (w'.bot j).scenario ≡ (w.bot j).scenario
  pub counted :
      w.stats.total_sent_packets ≡ length w.sent % 18446744073709551616
      → w'.stats.total_sent_packets ≡ length w'.sent % 18446744073709551616

refl-Sends : (w : Stress) → Sends w w
refl-Sends w = record {
  connected = refl;
  active = refl;
  disconnected = refl;
  abuse = refl;
  received = refl;
  scenario = λ j. refl;
  counted = λ h. h;
}

trans-Sends : {u v w : Stress} → Sends u v → Sends v w → Sends u w
trans-Sends a b = record {
  connected = b.connected ∙ a.connected;
  active = b.active ∙ a.active;
  disconnected = b.disconnected ∙ a.disconnected;
  abuse = b.abuse ∙ a.abuse;
  received = b.received ∙ a.received;
  scenario = λ j. b.scenario j ∙ a.scenario j;
  counted = λ h. b.counted (a.counted h);
}

if-Sends : (b : Bool) {w x y : Stress} → Sends w x → Sends w y → Sends w (if b then x else y)
if-Sends true a b = a
if-Sends false a b = b

-- A bot changes, and keeps its scenario.
set_bot-Sends :
    (i : ℕ) (b : DummySession) (w : Stress)
    → b.scenario ≡ (w.bot i).scenario
    → Sends w (set_bot i b w)
set_bot-Sends i b w h = record {
  connected = refl;
  active = refl;
  disconnected = refl;
  abuse = refl;
  received = refl;
  scenario = λ j. ground (arith, h);
  counted = λ c. c;
}

echo-Sends : (now_us : ℕ) (o : Option ℕ) (w : Stress) → Sends w (record_echo now_us o w)
echo-Sends now_us none w = refl-Sends w
echo-Sends now_us (some sent_us) w =
    if-Sends _
      (record {
        connected = refl;
        active = refl;
        disconnected = refl;
        abuse = refl;
        received = refl;
        scenario = λ j. refl;
        counted = λ h. h;
      })
      (refl-Sends w)

module _ (k : Kernel) (make_send_buffer : Message → Option Bytes) where
  transmit-Sends :
      (i : ℕ) (p : Message) (w : Stress) → Sends w (count_sent (transmit k make_send_buffer i p w))
  transmit-Sends i p w = record {
    connected = refl;
    active = refl;
    disconnected = refl;
    abuse = refl;
    received = refl;
    scenario = λ j. ground arith;
    counted = λ c. omega (arith, c, length-append w.sent ((i, p) ∷ []));
  }

  handle_s_login-Sends :
      (rand i : ℕ) (p : SLogin) (w : Stress)
      → Sends w (handle_s_login k make_send_buffer rand i p w)
  unfolding handle_s_login
  handle_s_login-Sends rand i p w =
      if-Sends p.success
        (if-Sends _ (trans-Sends (set_bot-Sends i _ w refl) (transmit-Sends i _ _))
          (set_bot-Sends i _ w refl))
        (refl-Sends w)

  handle-Sends :
      (rand now_us i : ℕ) (p : Message) (w : Stress)
      → Sends w (handle k make_send_buffer rand now_us i p w).1
  unfolding handle handle_s_room_chat
  handle-Sends rand now_us i (s_login p) w = handle_s_login-Sends rand i p w
  handle-Sends rand now_us i (s_enter_room p) w =
      if-Sends p.success (set_bot-Sends i _ w refl) (refl-Sends w)
  handle-Sends rand now_us i (s_leave_room success) w = set_bot-Sends i _ w refl
  handle-Sends rand now_us i (s_room_chat p) w =
      if-Sends _ (echo-Sends now_us (latency_tag p.message) w) (refl-Sends w)
  handle-Sends rand now_us i _ w = refl-Sends w

  read_and_handle-Sends :
      (get : Option (Read Message)) (rand now_us i : ℕ) (r : BufferReader) (w : Stress)
      → Sends w (read_and_handle (handle k make_send_buffer rand now_us i) get r w).1
  unfolding read_and_handle
  read_and_handle-Sends none rand now_us i r w = refl-Sends w
  read_and_handle-Sends (some read) rand now_us i r w = go (read r).0
    where
      go :
          (o : Option Message)
          → Sends w
              (elim o as (λ x. Bool × Stress) [
                | none ↦ (false, w)
                | some p ↦ handle k make_send_buffer rand now_us i p w
              ]).1
      go none = refl-Sends w
      go (some p) = handle-Sends rand now_us i p w

  -- `HandlePacket` changes what the handler changes.
  pub handle_packet-Sends :
      (cases : ℕ → Option (Read Message)) (rand now_us i : ℕ) (bytes : Bytes) (w : Stress)
      → Sends w (handle_packet (handle k make_send_buffer rand now_us i) cases bytes w).1
  unfolding handle_packet
  handle_packet-Sends cases rand now_us i bytes w =
      go (read_packet_header (record { unread = bytes; is_valid = true }))
    where
      go :
          (o : Option PacketHeader × BufferReader)
          → Sends w
              (elim o.0 as (λ x. Bool × Stress) [
                | none ↦ (false, w)
                | some h ↦
                    read_and_handle (handle k make_send_buffer rand now_us i) (cases h.id) o.1 w
              ]).1
      go (none, r) = refl-Sends w
      go (some h, r) = read_and_handle-Sends (cases h.id) rand now_us i r w

  send_latency_ping_chat-Sends :
      (now_us i : ℕ) (w : Stress) → Sends w (send_latency_ping_chat k make_send_buffer now_us i w)
  unfolding send_latency_ping_chat
  send_latency_ping_chat-Sends now_us i w =
      if-Sends _ (refl-Sends w) (trans-Sends (set_bot-Sends i _ w refl) (transmit-Sends i _ _))

  send_enter_room-Sends :
      (i : ℕ) (msg : Bytes) (room_id : ℕ) (w : Stress)
      → Sends w (send_enter_room k make_send_buffer i msg room_id w)
  unfolding send_enter_room
  send_enter_room-Sends i msg room_id w = if-Sends _ (refl-Sends w) (transmit-Sends i _ w)

  send_heartbeat-Sends :
      (tick i : ℕ) (w : Stress) → Sends w (send_heartbeat k make_send_buffer tick i w)
  unfolding send_heartbeat
  send_heartbeat-Sends tick i w = if-Sends _ (refl-Sends w) (transmit-Sends i _ w)

  flood_from-Sends :
      (rounds n i : ℕ) (w : Stress) → Sends w (flood_from k make_send_buffer rounds n i w)
  unfolding flood_from
  flood_from-Sends zero n i w = refl-Sends w
  flood_from-Sends (suc rounds) n i w =
      trans-Sends (transmit-Sends i _ w) (flood_from-Sends rounds (suc n) i _)

  pub act-Sends : (s : BotScenario) (i : ℕ) (w : Stress) → Sends w (act k make_send_buffer s i w)
  unfolding act execute_flood_attack
  act-Sends normal i w = transmit-Sends i _ w
  act-Sends slowloris i w = refl-Sends w
  act-Sends connect_spam i w = set_bot-Sends i _ w refl
  act-Sends packet_flood i w = trans-Sends (transmit-Sends i _ w) (flood_from-Sends 80 0 i _)

  interact_one-Sends :
      (sec : ℕ) (r : Readings) (i : ℕ) (w : Stress)
      → Sends w (interact_one k make_send_buffer sec r i w)
  unfolding interact_one
  interact_one-Sends sec r i w =
      if-Sends _ (refl-Sends w)
        (if-Sends _ (trans-Sends both (send_enter_room-Sends i [] _ _)) both)
    where
      both : Sends w (
          let w1 = send_latency_ping_chat k make_send_buffer r.now_us i w in
          if r.coin % 3 == 0 then send_heartbeat k make_send_buffer r.tick i w1 else w1)
      both =
          trans-Sends (send_latency_ping_chat-Sends r.now_us i w)
            (if-Sends _ (send_heartbeat-Sends r.tick i _) (refl-Sends _))

  pub interact-Sends :
      (sec : ℕ) (readings : ℕ → Readings) (bots : List ℕ) (w : Stress)
      → Sends w (interact k make_send_buffer sec readings bots w)
  unfolding interact
  interact-Sends sec readings [] w = refl-Sends w
  interact-Sends sec readings (i ∷ bots) w =
      trans-Sends (interact_one-Sends sec (readings i) i w) (interact-Sends sec readings bots _)
