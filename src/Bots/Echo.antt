-- ===== src/Bots/Echo.antt =====
-- The latency ping of Source/DummyClient: the text that `SendLatencyPingChat` writes and
-- `Handle_S_ROOM_CHAT` reads.
use iocp_multi_threading_cha.Prelude.{
  ℕ, zero, suc, ◌+◌, ◌-◌, ◌/◌, ◌%◌, ◌≤◌, ◌<◌, ◌≡◌, refl, sym, inl, inr, Bool, ap, ◌∙◌, true, Option,
  some, [], ◌∷◌, ◌++◌, length, drop, length-append, leb, arith, equal_refl,
}
use iocp_multi_threading_cha.Decimal.{emit, to_string, stoull}
use iocp_multi_threading_cha.Decimal.RoundTrip.{all_digits, to_string-digits, stoull-to_string}
use iocp_multi_threading_cha.Session.{Bytes}
use iocp_multi_threading_cha.Session.{Kernel}
use iocp_multi_threading_cha.Protocol.{SChat, Message, c_room_chat, s_room_chat}
use iocp_multi_threading_cha.Protocol.Codecs.{InRange}
use iocp_multi_threading_cha.Protocol.Delivery.{Handled, make_message-Handled}
use iocp_multi_threading_cha.Protocol.Packets.{make_message}
use iocp_multi_threading_cha.Protocol.Relay.{make_message-room_chat}
use iocp_multi_threading_cha.Wire.Chunks.{SendBufferManager, returns}
use iocp_multi_threading_cha.Wire.Sealed.{IsReady}
use iocp_multi_threading_cha.Bots.{
  Stress, starts_with, find_at, read_tag, latency_tag, ping_text, recorded, count_recv,
  handle_s_room_chat, handle, on_recv_packet, send_latency_ping_chat,
}

find_at-digits :
    (s t : Bytes) (i : ℕ) → all_digits s ≡ true → find_at 58 i (s ++ (58 ∷ t)) ≡ some (i + length s)
unfolding find_at
find_at-digits [] t i h = ap some (omega arith)
find_at-digits (c ∷ s) t i h = ground (arith, find_at-digits s t (suc i))

drop-past : (s t : Bytes) → drop (suc (length s)) (s ++ (58 ∷ t)) ≡ t
drop-past [] t = refl
drop-past (c ∷ s) t = drop-past s t

drop-tag : (a b c d n : ℕ) (s : Bytes) → drop (suc (4 + n)) (a ∷ b ∷ c ∷ d ∷ s) ≡ drop (suc n) s
drop-tag a b c d n s = ap (λ m. drop m (a ∷ b ∷ c ∷ d ∷ s)) (all_five n)
  where
    all_five : (n : ℕ) → suc (4 + n) ≡ suc (suc (suc (suc (suc n))))
    all_five n = omega arith

-- The time that a ping's text carries is read back.
latency_tag-ping_text :
    (seq now_us : ℕ)
    → now_us < 18446744073709551616
    → latency_tag (ping_text seq now_us) ≡ some now_us
unfolding latency_tag starts_with
latency_tag-ping_text seq now_us h =
    ap (λ colon. read_tag colon (ping_text seq now_us))
      (find_at-digits (to_string seq) (to_string now_us) 4 (to_string-digits seq))
    ∙ ap stoull
        (drop-tag 76 65 84 58 (length (to_string seq)) (to_string seq ++ (58 ∷ to_string now_us)))
    ∙ ap stoull (drop-past (to_string seq) (to_string now_us))
    ∙ stoull-to_string now_us h

length-emit : (rounds n : ℕ) (out : Bytes) → length (emit rounds n out) ≤ rounds + length out
unfolding emit
length-emit zero n out = omega arith
length-emit (suc rounds) n out = ground (arith, length-emit rounds (n / 10) ((48 + n % 10) ∷ out))

length-to_string : (n : ℕ) → length (to_string n) ≤ 20
unfolding to_string
length-to_string n = length-emit 20 n []

length-ping_text : (seq now_us : ℕ) → length (ping_text seq now_us) ≤ 45
length-ping_text seq now_us = omega (
  arith,
  length-append (to_string seq) (58 ∷ to_string now_us),
  length-to_string seq,
  length-to_string now_us,
)

handle-echo :
    (seq sent_us now_us i : ℕ) (p : SChat) (w : Stress)
    → p.message ≡ ping_text seq sent_us
    → p.sender_name ≡ (w.bot i).bot_name
    → sent_us ≤ now_us
    → now_us < 18446744073709551616
    → (handle_s_room_chat now_us i p w).latency ≡ recorded (now_us - sent_us) w.latency
unfolding handle_s_room_chat
handle-echo seq sent_us now_us i p w m e le small =
    rw
      (
        m,
        e,
        equal_refl (w.bot i).bot_name,
        latency_tag-ping_text seq sent_us (omega arith),
        in_time,
      )
      refl
  where
    in_time : leb sent_us now_us ≡ true
    in_time = ground arith

module _ (k : Kernel) (make_send_buffer : Message → Option Bytes) where
  on_recv_packet-echo :
      (rand seq sent_us now_us i : ℕ) (p : SChat) (bytes : Bytes) (w : Stress)
      → p.message ≡ ping_text seq sent_us
      → p.sender_name ≡ (w.bot i).bot_name
      → sent_us ≤ now_us
      → now_us < 18446744073709551616
      → Handled (handle k make_send_buffer rand now_us i) (s_room_chat p) bytes
      → (on_recv_packet k make_send_buffer rand now_us i bytes w).latency
        ≡ recorded (now_us - sent_us) w.latency
  unfolding on_recv_packet handle
  on_recv_packet-echo rand seq sent_us now_us i p bytes w m e le small h =
      ap (λ (out : Bool × Stress). out.1.latency) (h.at_client (count_recv w))
      ∙ handle-echo seq sent_us now_us i p (count_recv w) m e le small

  -- What the bot's ping becomes.
  pub record Echoed (now_us later rand i : ℕ) (w : Stress) (m : SendBufferManager) : Type 0 where
    pub text : Bytes
    pub asked :
        (send_latency_ping_chat k make_send_buffer now_us i w).sent
        ≡ w.sent ++ ((i, c_room_chat text) ∷ [])
    pub bytes : Bytes
    pub left : SendBufferManager
    pub relayed :
        make_message (s_room_chat (record { sender_name = (w.bot i).bot_name; message = text })) m
        ≡ returns (some bytes) left
    pub measured :
        (w' : Stress)
        → (w'.bot i).bot_name ≡ (w.bot i).bot_name
        → (on_recv_packet k make_send_buffer rand later i bytes w').latency
          ≡ recorded (later - now_us) w'.latency

  pub send_latency_ping_chat-Echoed :
      (now_us later rand i : ℕ) (w : Stress) (m : SendBufferManager)
      → (w.bot i).session.connected ≡ true
      → (w.bot i).is_in_room ≡ true
      → length (w.bot i).bot_name ≤ 4000
      → now_us ≤ later
      → later < 18446744073709551616
      → IsReady m
      → Echoed now_us later rand i w m
  unfolding send_latency_ping_chat make_message
  send_latency_ping_chat-Echoed now_us later rand i w m c r short le small ready =
      elim (make_message-Handled (handle k make_send_buffer rand later i) (s_room_chat p) m in_range
        ready) [
          | inl (bytes, left, e, ready', h) ↦ record {
            text = ping_text (w.bot i).chat_seq now_us;
            asked = rw (c, r) refl;
            bytes = bytes;
            left = left;
            relayed = e;
            measured = λ w' same.
                on_recv_packet-echo rand (w.bot i).chat_seq now_us later i p bytes w' refl
                  (sym same) le small h;
          }
          | inr (m', lost, _, _) ↦ absurd (ground (arith, fits, lost))
        ]
    where
      p : SChat
      p = record { sender_name = (w.bot i).bot_name; message = ping_text (w.bot i).chat_seq now_us }

      in_range : InRange (s_room_chat p)
      in_range = (omega (arith, short), omega (arith, length-ping_text (w.bot i).chat_seq now_us))

      fits :
          (bytes : Bytes) × (m' : SendBufferManager) × (make_message (s_room_chat p) m
            ≡ returns (some bytes) m')
          × IsReady m'
      fits =
          (make_message-room_chat p m in_range.0 in_range.1 ready).0
            (omega (arith, short, length-ping_text (w.bot i).chat_seq now_us))
