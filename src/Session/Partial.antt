-- ===== src/Session/Partial.antt =====
-- What the end of `Session::ProcessRecv` does with whole packets, and with part of one.
use mathlib.Core.List.{flatten}
use iocp_multi_threading_cha.Prelude.{
  ℕ, ◌+◌, ◌<◌, ◌≡◌, ◌∙◌, ap, refl, inl, inr, pos, true, false, some, List, [], ◌∷◌, ◌++◌, none, ltb,
  ◌==◌, if◌then◌else◌, Bool-cases, length, length-append, take, drop, take-all, arith,
}
use iocp_multi_threading_cha.Ring.{
  RingBuffer, SpanPair, write_span, data_size, free_size, peek, move_read_pos,
}
use iocp_multi_threading_cha.Ring.Bounds.{IsValid, data-add-free}
use iocp_multi_threading_cha.Ring.Contents.{contents, length-contents, peek-take}
use iocp_multi_threading_cha.Ring.Queue.{has_bytes, move_read_pos-drop}
use iocp_multi_threading_cha.Session.{
  Bytes, Session, Outcome, success, failed, Kernel, disconnect, handle_error,
}
use iocp_multi_threading_cha.Session.Stream.{accepts}
use iocp_multi_threading_cha.Ring.Spans.{count-write_span}
use iocp_multi_threading_cha.Session.Packets.{on_recv}
use iocp_multi_threading_cha.Session.Framing.{
  All, Incomplete, handle_all, on_recv-frames, drop-append,
}
use iocp_multi_threading_cha.Session.Receive.{
  Live, after_wsa_recv, register_recv, consume_processed, disconnected, deliver, peeked,
}

-- `Disconnect` always ends with `_connected` false.
pub connected-disconnect : (k : Kernel) (s : Session) → (disconnect k s).connected ≡ false
unfolding disconnect
connected-disconnect k s = ground arith

pub peeked-contents : {r : RingBuffer} → IsValid r → peeked r ≡ contents r
peeked-contents {r} v = elim (Bool-cases (data_size r == 0)) [
  | inl drained ↦
      let e : data_size r ≡ 0 = ground arith in
      let p : peek r (pos (data_size r)) ≡ none = peek-take (data_size r) v ∙ rw drained in
      rw (peeked, p) (rw e)
  | inr more ↦
      let p : peek r (pos (data_size r)) ≡ some (take (data_size r) (contents r)) =
        peek-take (data_size r) v ∙ ground arith in
      rw (peeked, p) (take-all (data_size r) (contents r) (omega (arith, length-contents v)))
]

-- `RegisterRecv` touches no byte of the ring.
recv_buffer-register_recv :
    (k : Kernel) (s : Session) → (register_recv k s).recv_buffer ≡ s.recv_buffer
unfolding register_recv after_wsa_recv handle_error
recv_buffer-register_recv k s = ground arith

after_wsa_recv-accepts :
    (k : Kernel) (o : Outcome) (s : Session) → accepts o ≡ true → after_wsa_recv k o s ≡ s
unfolding after_wsa_recv
after_wsa_recv-accepts k success s h = refl
after_wsa_recv-accepts k (failed code) s h = ground arith

-- With a free byte in the ring and a receive that starts, `RegisterRecv` keeps the connection.
connected-register_recv :
    (k : Kernel) (s : Session)
    → ((count : ℕ) (spans : SpanPair) → accepts (k.wsa_recv count spans) ≡ true)
    → IsValid s.recv_buffer
    → 0 < free_size s.recv_buffer
    → (register_recv k s).connected ≡ s.connected
unfolding register_recv
connected-register_recv k s ok v h = ground (
  arith,
  count-write_span k.stack_spans v h,
  after_wsa_recv-accepts k (k.wsa_recv span.0 span.1) (record s { recv_owner = true })
      (ok span.0 span.1),
)
  where
    span : ℕ × SpanPair
    span = write_span s.recv_buffer k.stack_spans (pos 0)

module _ {U : Type 0} (handle : Bytes → Live U → Live U) where
  recv_buffer-handle_all :
      (ps : List Bytes) (l : Live U)
      → ((p : Bytes) (m : Live U) → (handle p m).session.recv_buffer ≡ m.session.recv_buffer)
      → (handle_all handle ps l).session.recv_buffer ≡ l.session.recv_buffer
  recv_buffer-handle_all [] l keeps = refl
  recv_buffer-handle_all (p ∷ ps) l keeps = recv_buffer-handle_all ps (handle p l) keeps ∙ keeps p l

length-flatten-pos : (ps : List Bytes) → All ps → 0 < length ps → 0 < length (flatten ps)
unfolding flatten
length-flatten-pos [] ks h = absurd (omega arith)
length-flatten-pos (p ∷ ps) (q, ks) h = omega (arith, q.long, length-append p (flatten ps))

module _ (k : Kernel) {U : Type 0} (handle : Bytes → Live U → Live U) where
  -- The bytes in hand are the start of one packet: `OnRecv` returns 0, which `MoveReadPos` refuses.
  pub deliver-partial :
      (l : Live U) (bytes : Bytes) (size : ℕ)
      → Incomplete bytes
      → deliver k handle l bytes size ≡ disconnected k handle l
  unfolding deliver consume_processed move_read_pos
  deliver-partial l bytes size h = rw none (ground arith)
    where
      none : on_recv handle bytes l ≡ (pos 0, l)
      none = unfold flatten in on_recv-frames handle [] bytes l tt h

  -- Whole packets in the ring, then part of one: they are handled, the ring keeps the part.
  pub deliver-frames :
      (l : Live U) (ps : List Bytes) (rest : Bytes)
      → All ps
      → Incomplete rest
      → 0 < length ps
      → IsValid l.session.recv_buffer
      → contents l.session.recv_buffer ≡ flatten ps ++ rest
      → ((p : Bytes) (m : Live U) → (handle p m).session.recv_buffer ≡ m.session.recv_buffer)
      → ((count : ℕ) (spans : SpanPair) → accepts (k.wsa_recv count spans) ≡ true)
      → let l' = deliver k handle l (flatten ps ++ rest) (data_size l.session.recv_buffer) in
        let handled = handle_all handle ps l in
        (contents l'.session.recv_buffer ≡ rest)
        × IsValid l'.session.recv_buffer
        × (l'.app ≡ handled.app)
        × (l'.session.connected ≡ handled.session.connected)
  unfolding deliver consume_processed
  deliver-frames l ps rest ks stop many v c keeps ok =
      rw (on_recv-frames handle ps rest l ks stop) rw (kept) rw (fits) rw (moved.0 ∙ room) (
        ap contents ring ∙ left,
        rw (ring) moved.2,
        refl,
        connected-register_recv k s' ok moved.2 free,
      )
    where
      n : ℕ
      n = length (flatten ps)

      r : RingBuffer
      r = l.session.recv_buffer

      kept : (handle_all handle ps l).session.recv_buffer ≡ r
      kept = recv_buffer-handle_all handle ps l keeps

      size : n + length rest ≡ data_size r
      size = omega (arith, length-contents v, ap length c, length-append (flatten ps) rest)

      some_bytes : 0 < n
      some_bytes = length-flatten-pos ps ks many

      fits : ltb (data_size r) n ≡ false
      fits = ground (arith, size)

      room : has_bytes r n ≡ true
      room = ground (arith, size, some_bytes)

      moved :
          let (done, r') = move_read_pos r (pos n) in
          (done ≡ has_bytes r n)
          × (contents r' ≡ (if has_bytes r n then drop n (contents r) else contents r))
          × IsValid r'
      moved = move_read_pos-drop n v

      s' : Session
      s' = record (handle_all handle ps l).session { recv_buffer = (move_read_pos r (pos n)).1 }

      ring : (register_recv k s').recv_buffer ≡ (move_read_pos r (pos n)).1
      ring = recv_buffer-register_recv k s'

      left : contents (move_read_pos r (pos n)).1 ≡ rest
      left = moved.1 ∙ rw (room, c) (drop-append (flatten ps) rest)

      same : (move_read_pos r (pos n)).1.capacity ≡ r.capacity
      same = unfold move_read_pos in ground arith

      free : 0 < free_size (move_read_pos r (pos n)).1
      free = omega (
        arith,
        data-add-free moved.2,
        data-add-free v,
        length-contents moved.2,
        ap length left,
        size,
        some_bytes,
        same,
      )
