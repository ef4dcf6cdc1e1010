-- ===== src/Bots/Tally.antt =====
-- The counters of `StressStats` over a run of Source/DummyClient/StressTester.cpp: the hooks of any
-- number of bots and the rounds of the loop over the seconds, in any order.
use iocp_multi_threading_cha.Prelude.{
  ℕ, ◌+◌, ◌%◌, ◌≡◌, ◌∙◌, refl, Bool, true, false, Option, List, [], ◌∷◌, length, one_if, arith,
}
use iocp_multi_threading_cha.Protocol.{Message}
use iocp_multi_threading_cha.Protocol.Handlers.{client_case}
use iocp_multi_threading_cha.Session.{Bytes, Kernel}
use iocp_multi_threading_cha.Bots.{
  BotScenario, Stress, reset_stats, is_abusive, on_recv_packet, count_recv,
}
use iocp_multi_threading_cha.Bots.Hooks.{Readings, on_connected, on_disconnected, interact}
use iocp_multi_threading_cha.Bots.Counts.{Sends, handle_packet-Sends, act-Sends, interact-Sends}

pub data Event : Type 0 where
  connects : (tick : ℕ) (i : ℕ) → Event
  receives : (rand : ℕ) (now_us : ℕ) (i : ℕ) (packet : Bytes) → Event
  disconnects : (i : ℕ) → Event
  second : (sec : ℕ) (readings : ℕ → Readings) (bots : List ℕ) → Event

abbrev pub is_connect : Event → Bool
is_connect (connects tick i) = true
is_connect _ = false

abbrev pub is_receive : Event → Bool
is_receive (receives rand now_us i packet) = true
is_receive _ = false

abbrev pub is_disconnect : Event → Bool
is_disconnect (disconnects i) = true
is_disconnect _ = false

abbrev pub is_abuse : (ℕ → BotScenario) → Event → Bool
is_abuse scenario (disconnects i) = is_abusive (scenario i)
is_abuse scenario _ = false

abbrev pub counting : (Event → Bool) → List Event → ℕ
counting test [] = 0
counting test (e ∷ es) = one_if (test e) + counting test es

module _ (k : Kernel) (make_send_buffer : Message → Option Bytes) where
  pub on_event : Event → Stress → Stress
  on_event (connects tick i) w = on_connected k make_send_buffer tick i w
  on_event (receives rand now_us i packet) w =
      on_recv_packet k make_send_buffer rand now_us i packet w
  on_event (disconnects i) w = on_disconnected k make_send_buffer i w
  on_event (second sec readings bots) w = interact k make_send_buffer sec readings bots w

  -- The states of a run from `StressStats::Reset` on, with the events so far, the latest first.
  pub data Run (scenario : ℕ → BotScenario) : List Event → Stress → Type 0 where
    start :
        (w : Stress)
        → w.stats ≡ reset_stats
        → w.sent ≡ []
        → ((j : ℕ) → (w.bot j).scenario ≡ scenario j)
        → Run scenario [] w
    next :
        (e : Event) (es : List Event) (w : Stress)
        → Run scenario es w
        → Run scenario (e ∷ es) (on_event e w)

  pub record Tallied (scenario : ℕ → BotScenario) (es : List Event) (w : Stress) : Type 0 where
    pub connected : w.stats.total_connected ≡ counting is_connect es % 4294967296
    pub disconnected : w.stats.total_disconnected ≡ counting is_disconnect es % 4294967296
    pub active :
        (w.stats.active_sessions + w.stats.total_disconnected) % 4294967296
        ≡ w.stats.total_connected
    pub abuse : w.stats.abuse_disconnected ≡ counting (is_abuse scenario) es % 4294967296
    pub received : w.stats.total_recv_packets ≡ counting is_receive es % 18446744073709551616
    pub sent : w.stats.total_sent_packets ≡ length w.sent % 18446744073709551616
    pub scenarios : (j : ℕ) → (w.bot j).scenario ≡ scenario j

  module _ (scenario : ℕ → BotScenario) where
    -- Sending changes no other counter.
    Sends-Tallied :
        (es : List Event) (w w' : Stress)
        → Sends w w'
        → Tallied scenario es w
        → Tallied scenario es w'
    Sends-Tallied es w w' s t = record {
      connected = s.connected ∙ t.connected;
      disconnected = s.disconnected ∙ t.disconnected;
      active = rw (s.active, s.disconnected, s.connected) t.active;
      abuse = s.abuse ∙ t.abuse;
      received = s.received ∙ t.received;
      sent = s.counted t.sent;
      scenarios = λ j. s.scenario j ∙ t.scenarios j;
    }

    on_event-Tallied :
        (e : Event) (es : List Event) (w : Stress)
        → Tallied scenario es w
        → Tallied scenario (e ∷ es) (on_event e w)
    unfolding on_event on_connected on_recv_packet on_disconnected
    on_event-Tallied (connects tick i) es w t =
        Sends-Tallied (connects tick i ∷ es) _ _
          (act-Sends k make_send_buffer (w.bot i).scenario i _)
          (record {
            connected = omega (arith, t.connected);
            disconnected = omega (arith, t.disconnected);
            active = omega (arith, t.active);
            abuse = omega (arith, t.abuse);
            received = omega (arith, t.received);
            sent = t.sent;
            scenarios = λ j. ground (arith, t.scenarios j);
          })
    on_event-Tallied (receives rand now_us i packet) es w t =
        Sends-Tallied (receives rand now_us i packet ∷ es) _ _
          (handle_packet-Sends k make_send_buffer client_case rand now_us i packet (count_recv w))
          (record {
            connected = omega (arith, t.connected);
            disconnected = omega (arith, t.disconnected);
            active = t.active;
            abuse = omega (arith, t.abuse);
            received = omega (arith, t.received);
            sent = t.sent;
            scenarios = t.scenarios;
          })
    on_event-Tallied (disconnects i) es w t = record {
      connected = omega (arith, t.connected);
      disconnected = omega (arith, t.disconnected);
      active = omega (arith, t.active, t.connected);
      abuse = rw (t.scenarios i) (ground (arith, t.abuse));
      received = omega (arith, t.received);
      sent = t.sent;
      scenarios = t.scenarios;
    }
    on_event-Tallied (second sec readings bots) es w t =
        Sends-Tallied (second sec readings bots ∷ es) _ _
          (interact-Sends k make_send_buffer sec readings bots w)
          (record {
            connected = omega (arith, t.connected);
            disconnected = omega (arith, t.disconnected);
            active = t.active;
            abuse = omega (arith, t.abuse);
            received = omega (arith, t.received);
            sent = t.sent;
            scenarios = t.scenarios;
          })

    pub Run-Tallied : (es : List Event) (w : Stress) → Run scenario es w → Tallied scenario es w
    Run-Tallied [] w (start _ s l b) = record {
      connected = rw (s) refl;
      disconnected = rw (s) refl;
      active = rw (s) refl;
      abuse = rw (s) refl;
      received = rw (s) refl;
      sent = rw (s, l) refl;
      scenarios = b;
    }
    Run-Tallied (e ∷ es) _ (next _ _ w r) = on_event-Tallied e es w (Run-Tallied es w r)
