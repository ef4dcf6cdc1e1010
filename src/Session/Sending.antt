-- ===== src/Session/Sending.antt =====
-- `Send` and the stream.
use mathlib.Core.List.{flatten}
use iocp_multi_threading_cha.Prelude.{
  ◌<◌, ◌≡◌, refl, sym, ap, ap₂, ◌∙◌, true, some, List, [], ◌∷◌, ◌++◌, append_assoc, append-nil,
  if◌then◌else◌, Bool-cases, inl, inr, length, length-append, drop, arith,
}
use iocp_multi_threading_cha.Session.{
  Bytes, Session, Kernel, max_send_queue_size, register_send, send,
}
use iocp_multi_threading_cha.Session.Stream.{
  outgoing, Within, Within-le, Sending, accepts, after_wsa_send-accepts, flatten-append,
  drop-append_le,
}

-- With one buffer queued and nothing in flight `RegisterSend` hands over that buffer.
register-one :
    (k : Kernel) (s : Session) (b : Bytes)
    → s.send_queue ≡ b ∷ []
    → s.connected ≡ true
    → s.send_buffers ≡ []
    → s.send_offset ≡ 0
    → ((bufs : List Bytes) → accepts (k.wsa_send bufs) ≡ true)
    → register_send k s
      ≡ (b ∷ [], record s { send_queue = []; send_buffers = b ∷ []; send_owner = true })
unfolding register_send
register-one k s b e on empty start ok =
    rw (e, on, empty, start, after_wsa_send-accepts k _ _ (ok _))

-- The buffer at the end of the queue.
abbrev queued : Session → Bytes → Session
queued s b = record s { send_queue = s.send_queue ++ (b ∷ []); is_sending = true }

send-queued :
    (k : Kernel) (s : Session) (b : Bytes)
    → s.connected ≡ true
    → length s.send_queue < max_send_queue_size
    → send k s (some b) ≡ (if s.is_sending then ([], queued s b) else register_send k (queued s b))
unfolding send
send-queued k s b on room = ground arith

flatten-queued :
    (sent queue : List Bytes) (b : Bytes)
    → flatten (sent ++ (queue ++ (b ∷ []))) ≡ flatten (sent ++ queue) ++ b
flatten-queued sent queue b =
    ap flatten (sym (append_assoc sent queue (b ∷ [])))
    ∙ flatten-append (sent ++ queue) (b ∷ [])
    ∙ ap (λ l. flatten (sent ++ queue) ++ l) (flatten-one b)
  where
    flatten-one : (b : Bytes) → flatten (b ∷ []) ≡ b
    flatten-one b = unfold flatten in append-nil b

outgoing-queued :
    (s : Session) (b : Bytes)
    → Within s.send_offset s.send_buffers
    → outgoing (queued s b) ≡ outgoing s ++ b
outgoing-queued s b w =
    ap (drop s.send_offset) (flatten-queued s.send_buffers s.send_queue b)
    ∙ drop-append_le s.send_offset (flatten (s.send_buffers ++ s.send_queue)) b (
        omega (
          arith,
          Within-le s.send_offset s.send_buffers w,
          length-append (flatten s.send_buffers) (flatten s.send_queue),
          ap length (flatten-append s.send_buffers s.send_queue),
        ))

-- `Send` on a connected session whose queue is not full, where every `WSASend` starts, appends the
-- buffer to the stream. An idle session hands the buffer to `WSASend` at once, a busy one leaves it
-- queued.
pub send-append :
    (k : Kernel) (s : Session) (b : Bytes)
    → s.connected ≡ true
    → Sending s
    → length s.send_queue < max_send_queue_size
    → ((bufs : List Bytes) → accepts (k.wsa_send bufs) ≡ true)
    → let (bufs, s') = send k s (some b) in
      (outgoing s' ≡ outgoing s ++ b)
      × (bufs ≡ (if s.is_sending then [] else b ∷ []))
      × (s'.is_sending ≡ true)
      × Sending s'
send-append k s b on v room ok = elim (Bool-cases s.is_sending) [
  | inl busy ↦
      rw (send-queued k s b on room, busy)
        (outgoing-queued s b v.within, refl, refl, record { within = v.within; idle = λ h. cc })
  | inr resting ↦
      let (none_sent, none_queued) = v.idle resting in
      let start : s.send_offset ≡ 0 = rw none_sent at v.within in
      rw
        (
          send-queued k s b on room,
          resting,
          register-one k (queued s b) b (rw none_queued) on none_sent start ok,
        )
        (
          ap₂ (λ x y. drop s.send_offset (flatten (x ++ (y ++ (b ∷ []))))) (sym none_sent)
                (sym none_queued)
              ∙ outgoing-queued s b v.within,
          refl,
          refl,
          record { within = omega arith; idle = λ h. cc },
        )
]
