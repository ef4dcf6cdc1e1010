-- ===== src/Service/Follows.antt =====
-- What the operations of a session do to its connection: `Send`, `ProcessSend`, `RegisterRecv`,
-- `ProcessRecv` and `Disconnect` of Source/ServerEngine/Network/Session.cpp, where `DisconnectEx` starts.
use iocp_multi_threading_cha.Prelude.{
  ℕ, pos, ◌≡◌, ◌∙◌, refl, ap₂, inl, inr, Bool, true, false, not, ◌&&◌, ◌||◌, Option, none, some, [],
  ◌==◌, leb, ltb, take, length, Bool-cases, arith,
}
use iocp_multi_threading_cha.Ring.{write_span}
use iocp_multi_threading_cha.Session.{
  Bytes, Session, Outcome, success, failed, Kernel, wsa_io_pending, max_gather, max_send_queue_size,
  consume, register_disconnect, disconnect, handle_error, is_recoverable_error_code, after_wsa_send,
  register_send, send, process_send,
}
use iocp_multi_threading_cha.Session.Receive.{after_wsa_recv, register_recv}

-- An overlapped call that starts.
abbrev pub starts : Outcome → Bool
starts success = true
starts (failed code) = code == wsa_io_pending

-- A session is up while it is connected or its `DisconnectEx` runs.
abbrev pub is_up : Session → Bool
is_up s = s.connected || s.disconnect_owner

-- The session is up if it was; it is not connected and disconnecting at once; and no connect is
-- begun or forgotten.
pub record Follows (s s' : Session) : Type 0 where
  pub up : is_up s' ≡ is_up s
  pub apart :
      s.connected && s.disconnect_owner ≡ false → s'.connected && s'.disconnect_owner ≡ false
  pub dialling : s'.connect_owner ≡ s.connect_owner

pub Follows-refl : (s : Session) → Follows s s
Follows-refl s = record { up = refl; apart = λ h. h; dialling = refl }

pub Follows-trans : {s t u : Session} → Follows s t → Follows t u → Follows s u
Follows-trans f g = record {
  up = g.up ∙ f.up;
  apart = λ h. g.apart (f.apart h);
  dialling = g.dialling ∙ f.dialling;
}

-- A change of other fields.
pub keeps :
    {s s' : Session}
    → s'.connected ≡ s.connected
    → s'.disconnect_owner ≡ s.disconnect_owner
    → s'.connect_owner ≡ s.connect_owner
    → Follows s s'
keeps c d o = record { up = ap₂ ◌||◌ c d; apart = λ h. ap₂ ◌&&◌ c d ∙ h; dialling = o }

module _ (k : Kernel) (ok : starts k.disconnect_ex ≡ true) where
  pub disconnect-Follows : (s : Session) → Follows s (disconnect k s)
  unfolding disconnect register_disconnect
  disconnect-Follows s = elim (Bool-cases s.connected) [
    | inl e ↦ record {
      up = ground (arith, e, ok);
      apart = λ h. ground (arith, e, ok, h);
      dialling = ground (arith, e, ok);
    }
    | inr e ↦ record {
      up = ground (arith, e);
      apart = λ h. ground (arith, e, h);
      dialling = ground (arith, e);
    }
  ]

  after_wsa_send-Follows : (o : Outcome) (s : Session) → Follows s (after_wsa_send k o s)
  unfolding after_wsa_send handle_error
  after_wsa_send-Follows success s = Follows-refl s
  after_wsa_send-Follows (failed code) s =
      elim (Bool-cases (code == wsa_io_pending || is_recoverable_error_code code)) [
        | inl e ↦ rw (e) (Follows-refl s)
        | inr e ↦
            let f = disconnect-Follows s in
            let g : Follows s (record (disconnect k s) {
              send_owner = false;
              send_buffers = [];
              is_sending = false;
            }) =
              record { up = f.up; apart = f.apart; dialling = f.dialling } in
            rw (e) g
      ]

  register_send-Follows : (s : Session) → Follows s (register_send k s).1
  unfolding register_send
  register_send-Follows s = elim (Bool-cases (not s.connected)) [
    | inl e ↦ rw (e) (Follows-refl s)
    | inr e ↦ elim (Bool-cases (length (take max_gather s.send_queue) == 0)) [
      | inl e' ↦ rw (e, e') (keeps refl refl refl)
      | inr e' ↦ rw (e, e') (Follows-trans (keeps refl refl refl) (after_wsa_send-Follows _ _))
    ]
  ]

  pub send-Follows : (s : Session) (b : Option Bytes) → Follows s (send k s b).1
  unfolding send
  send-Follows s none = Follows-refl s
  send-Follows s (some b) = elim (Bool-cases (not s.connected)) [
    | inl e ↦ rw (e) (Follows-refl s)
    | inr e ↦ elim (Bool-cases (leb max_send_queue_size (length s.send_queue))) [
      | inl e' ↦ rw (e, e') (disconnect-Follows s)
      | inr e' ↦ elim (Bool-cases s.is_sending) [
        | inl busy ↦ simp (e, e', busy) (keeps refl refl refl)
        | inr idle ↦
            simp (e, e', idle) (Follows-trans (keeps refl refl refl) (register_send-Follows _))
      ]
    ]
  ]

  pub process_send-Follows : (s : Session) (n : ℕ) → Follows s (process_send k s n).1
  unfolding process_send
  process_send-Follows s n = elim (Bool-cases (n == 0)) [
    | inl e ↦ rw (e) (Follows-trans (keeps refl refl refl) (disconnect-Follows _))
    | inr e ↦ elim (Bool-cases (ltb 0 (length (consume s.send_buffers s.send_offset n).0))) [
      | inl e' ↦ rw (e, e') (Follows-trans (keeps refl refl refl) (register_send-Follows _))
      | inr e' ↦ elim (Bool-cases (length s.send_queue == 0)) [
        | inl none_left ↦ rw (e, e', none_left) (keeps refl refl refl)
        | inr more ↦
            rw (e, e', more) (Follows-trans (keeps refl refl refl) (register_send-Follows _))
      ]
    ]
  ]

  after_wsa_recv-Follows : (o : Outcome) (s : Session) → Follows s (after_wsa_recv k o s)
  unfolding after_wsa_recv handle_error
  after_wsa_recv-Follows success s = Follows-refl s
  after_wsa_recv-Follows (failed code) s = elim (Bool-cases (code == wsa_io_pending)) [
    | inl e ↦ rw (e) (Follows-refl s)
    | inr e ↦ rw (e) (Follows-trans (disconnect-Follows s) (keeps refl refl refl))
  ]

  pub register_recv-Follows : (s : Session) → Follows s (register_recv k s)
  unfolding register_recv
  register_recv-Follows s = elim (Bool-cases (not s.connected)) [
    | inl e ↦ rw (e) (Follows-refl s)
    | inr e ↦ elim (Bool-cases ((write_span s.recv_buffer k.stack_spans (pos 0)).0 == 0)) [
      | inl e' ↦ rw (e, e') (Follows-trans (keeps refl refl refl) (disconnect-Follows _))
      | inr e' ↦ rw (e, e') (Follows-trans (keeps refl refl refl) (after_wsa_recv-Follows _ _))
    ]
  ]
