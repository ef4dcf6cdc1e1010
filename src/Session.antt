-- ===== src/Session.antt =====
-- The network session: class `Session` of Source/ServerEngine/Network/Session.h and Session.cpp, and
-- `PacketSession` of PacketSession.h and PacketSession.cpp.
-- This file has the state, `Disconnect` and the sending half; `Session.Receive` has the receiving
-- half, `Session.Packets` the framing. A send buffer is the bytes from `Buffer()` up to `WriteSize()`.
-- What the kernel answers to an overlapped call is a parameter.
pub mod Packets
pub mod Receive
pub mod Stream
pub mod Sending
pub mod Framing
pub mod Partial
pub mod Arrival
mod Tests
use iocp_multi_threading_cha.Prelude.{
  ℕ, zero, suc, ◌+◌, ◌-◌, Bool, true, false, not, ◌&&◌, ◌||◌, Option, none, some, List, [], ◌∷◌,
  ◌++◌, ltb, leb, ◌==◌, if◌then◌else◌, length, take, drop,
}
use iocp_multi_threading_cha.Ring.{RingBuffer, SpanPair}

abbrev pub Bytes : Type 0
Bytes = List ℕ

pub record Session : Type 0 where
  pub connected : Bool
  pub recv_buffer : RingBuffer
  pub send_queue : List Bytes
  pub is_sending : Bool
  pub send_offset : ℕ
  pub send_buffers : List Bytes  -- `_sendEvent.sendBuffers`
  pub connect_owner : Bool  -- whether `_connectEvent.owner` keeps the session alive, and so on
  pub disconnect_owner : Bool
  pub recv_owner : Bool
  pub send_owner : Bool

-- What an overlapped call returns: success, or the code of `WSAGetLastError()`.
pub data Outcome : Type 0 where
  success : Outcome
  failed : ℕ → Outcome

pub record Kernel : Type 0 where
  pub wsa_send : List Bytes → Outcome
  pub wsa_recv : ℕ → SpanPair → Outcome
  pub disconnect_ex : Outcome
  pub stack_spans : SpanPair  -- what an uninitialised `WSABUF[2]` holds

-- Winsock's values of the codes that the program names.
abbrev pub wsa_io_incomplete : ℕ
wsa_io_incomplete = 996

abbrev pub wsa_io_pending : ℕ
wsa_io_pending = 997

abbrev pub wsaewouldblock : ℕ
wsaewouldblock = 10035

abbrev pub max_send_queue_size : ℕ
max_send_queue_size = 500

abbrev pub max_gather : ℕ
max_gather = 64

unfoldable pub is_recoverable_error_code : ℕ → Bool
is_recoverable_error_code code = code == wsaewouldblock || code == wsa_io_incomplete

-- The `WSABUF`s of a batch: the first buffer starts at `_sendOffset`.
abbrev pub gathered : ℕ → List Bytes → List Bytes
gathered offset [] = []
gathered offset (b ∷ bs) = (if ltb 0 offset then drop offset b else b) ∷ bs

-- The loop of `ProcessSend`: the uncompleted buffers and `nextOffset`.
unfoldable pub consume : List Bytes → ℕ → ℕ → List Bytes × ℕ
consume [] offset remaining = ([], 0)
consume (b ∷ bs) offset remaining =
    let pending = length b - offset in
    let rest = consume bs 0 (remaining - pending) in
    if leb pending remaining then rest else (b ∷ bs, offset + remaining)

module _ (k : Kernel) where
  -- `RegisterDisconnect`. Its `HandleError` calls `Disconnect`, which finds `_connected` false and
  -- returns at once, so it changes nothing.
  unfoldable pub register_disconnect : Session → Session
  register_disconnect s = elim k.disconnect_ex [
    | success ↦ record s { disconnect_owner = true }
    | failed code ↦ record s { disconnect_owner = code == wsa_io_pending }
  ]

  unfoldable pub disconnect : Session → Session
  unfolding register_disconnect
  disconnect s = if s.connected then register_disconnect (record s { connected = false }) else s

  -- `HandleError`: every case of its `switch` disconnects, with another cause to log.
  unfoldable pub handle_error : ℕ → Session → Session
  unfolding disconnect
  handle_error code s = disconnect s

  -- The end of `RegisterSend`, on what `WSASend` returns.
  unfoldable pub after_wsa_send : Outcome → Session → Session
  unfolding handle_error is_recoverable_error_code
  after_wsa_send success s = s
  after_wsa_send (failed code) s =
      if code == wsa_io_pending || is_recoverable_error_code code
      then s
      else record (handle_error code s) {
        send_owner = false;
        send_buffers = [];
        is_sending = false;
      }

  -- `RegisterSend`, with the buffers that it hands to `WSASend`.
  unfoldable pub register_send : Session → List Bytes × Session
  register_send s =
      let batch = take max_gather s.send_queue in
      let bufs = gathered s.send_offset batch in
      let s' = record s {
        send_queue = drop max_gather s.send_queue;
        send_buffers = s.send_buffers ++ batch;
        send_owner = true;
      } in
      if not s.connected
      then ([], s)
      else if length batch == 0
      then ([], record s' { is_sending = false; send_owner = false })
      else (bufs, after_wsa_send (k.wsa_send bufs) s')

  -- `Send(sendBuffer)`; `none` is a null buffer.
  unfoldable pub send : Session → Option Bytes → List Bytes × Session
  send s none = ([], s)
  send s (some b) =
      if not s.connected
      then ([], s)
      else if leb max_send_queue_size (length s.send_queue)
      then ([], disconnect s)
      else let queued = record s { send_queue = s.send_queue ++ (b ∷ []); is_sending = true } in
        if s.is_sending then ([], queued) else register_send queued

  -- `Send(sendBuffers)`.
  unfoldable pub send_all : Session → List Bytes → List Bytes × Session
  send_all s bufs =
      if length bufs == 0 || not s.connected
      then ([], s)
      else if leb max_send_queue_size (length s.send_queue + length bufs)
      then ([], disconnect s)
      else let queued = record s { send_queue = s.send_queue ++ bufs; is_sending = true } in
        if s.is_sending then ([], queued) else register_send queued

  -- `ProcessSend`; the hook `OnSend` does nothing in the program.
  unfoldable pub process_send : Session → ℕ → List Bytes × Session
  process_send s num_of_bytes =
      if num_of_bytes == 0
      then ([], disconnect (record s { send_owner = false; send_buffers = [] }))
      else let (uncompleted, next_offset) = consume s.send_buffers s.send_offset num_of_bytes in
        let s' = record s { send_owner = false; send_buffers = [] } in
        if ltb 0 (length uncompleted)
        then register_send
            (record s' { send_queue = uncompleted ++ s.send_queue; send_offset = next_offset })
        else if length s.send_queue == 0
        then ([], record s' { send_offset = 0; is_sending = false })
        else register_send (record s' { send_offset = 0 })
