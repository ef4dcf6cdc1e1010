-- ===== src/Session/Receive.antt =====
-- The receiving half of `Session` (Source/ServerEngine/Network/Session.cpp): `RegisterRecv` and
-- `ProcessRecv`. The application's state stands beside the session, and its `OnRecvPacket` may
-- change both.
use iocp_multi_threading_cha.Prelude.{
  ℕ, ℤ, pos, negsuc, Bool, true, false, not, none, some, [], ltb, ◌==◌, if◌then◌else◌,
}
use iocp_multi_threading_cha.Ring.{
  RingBuffer, data_size, write_span, peek, move_write_pos, move_read_pos,
}
use iocp_multi_threading_cha.Session.{
  Bytes, Session, Outcome, success, failed, Kernel, wsa_io_pending, disconnect, handle_error,
}
use iocp_multi_threading_cha.Session.Packets.{on_recv}

pub record Live (U : Type 0) : Type 0 where
  pub session : Session
  pub app : U

abbrev pub is_zero : ℤ → Bool
is_zero (pos n) = n == 0
is_zero (negsuc n) = false

module _ (k : Kernel) where
  -- The end of `RegisterRecv`, on what `WSARecv` returns.
  unfoldable pub after_wsa_recv : Outcome → Session → Session
  after_wsa_recv success s = s
  after_wsa_recv (failed code) s =
      if code == wsa_io_pending then s else record (handle_error k code s) { recv_owner = false }

  unfoldable pub register_recv : Session → Session
  register_recv s =
      let (count, spans) = write_span s.recv_buffer k.stack_spans (pos 0) in
      let s' = record s { recv_owner = true } in
      if not s.connected
      then s
      else if count == 0
      then disconnect k s'
      else after_wsa_recv (k.wsa_recv count spans) s'

-- `processedLen < 0 || processedLen > dataSize || !MoveReadPos(processedLen)`, with the ring left.
unfoldable pub consume_processed : RingBuffer → ℕ → ℤ → Bool × RingBuffer
consume_processed r size (negsuc n) = (false, r)
consume_processed r size (pos n) = if ltb size n then (false, r) else move_read_pos r (pos n)

-- `std::vector<BYTE> packetData(dataSize)` is zeroed; `Peek` fills it.
abbrev pub peeked : RingBuffer → Bytes
peeked r = elim (peek r (pos (data_size r))) [ none ↦ [] | some bytes ↦ bytes ]

abbrev pub with_ring : {U : Type 0} → Live U → RingBuffer → Live U
with_ring l r = record l { session = record l.session { recv_buffer = r } }

module _ (k : Kernel) {U : Type 0} (on_recv_packet : Bytes → Live U → Live U) where
  abbrev pub disconnected : Live U → Live U
  disconnected l = record l { session = disconnect k l.session }

  -- `OnRecv` on the copied bytes, and what follows it.
  unfoldable pub deliver : Live U → Bytes → ℕ → Live U
  unfolding consume_processed
  deliver l bytes size =
      let (processed, l') = on_recv on_recv_packet bytes l in
      let (consumed, r) = consume_processed l'.session.recv_buffer size processed in
      if consumed
      then record l' { session = register_recv k (record l'.session { recv_buffer = r }) }
      else disconnected l'

  -- `ProcessRecv` after `MoveWritePos`.
  unfoldable pub received : Live U → Bool × RingBuffer → Live U
  received l (moved, r) =
      if moved then deliver (with_ring l r) (peeked r) (data_size r) else disconnected l

  unfoldable pub process_recv : Live U → ℤ → Live U
  process_recv l num_of_bytes =
      let l' = record l { session = record l.session { recv_owner = false } } in
      if is_zero num_of_bytes
      then disconnected l'
      else received l' (move_write_pos l.session.recv_buffer num_of_bytes)
