-- ===== src/Session/Arrival.antt =====
-- `Session::ProcessRecv` on the bytes that a completed receive brings.
use mathlib.Core.List.{flatten}
use iocp_multi_threading_cha.Prelude.{
  ℕ, ◌<◌, ◌≡◌, refl, pos, true, false, List, ◌++◌, ◌==◌, length, arith,
}
use iocp_multi_threading_cha.Ring.{SpanPair, data_size, move_write_pos}
use iocp_multi_threading_cha.Ring.Bounds.{IsValid, move_write_pos-IsValid}
use iocp_multi_threading_cha.Ring.Contents.{contents}
use iocp_multi_threading_cha.Session.{Bytes, Kernel}
use iocp_multi_threading_cha.Session.Stream.{accepts}
use iocp_multi_threading_cha.Session.Framing.{All, Incomplete, handle_all}
use iocp_multi_threading_cha.Session.Receive.{Live, with_ring, deliver, received, process_recv}
use iocp_multi_threading_cha.Session.Partial.{
  connected-disconnect, peeked-contents, deliver-partial, deliver-frames,
}

-- What `ProcessRecv` has taken over when it comes to `OnRecv`: the kernel's bytes and its reference.
abbrev pub arrived : {U : Type 0} → Live U → ℕ → Live U
arrived l n =
    with_ring (record l { session = record l.session { recv_owner = false } })
      (move_write_pos l.session.recv_buffer (pos n)).1

module _ (k : Kernel) {U : Type 0} (handle : Bytes → Live U → Live U) where
  process_recv-deliver :
      (l : Live U) (n : ℕ)
      → IsValid l.session.recv_buffer
      → (move_write_pos l.session.recv_buffer (pos n)).0 ≡ true
      → process_recv k handle l (pos n)
        ≡ deliver k handle
            (arrived l n)
            (contents (arrived l n).session.recv_buffer)
            (data_size (arrived l n).session.recv_buffer)
  unfolding process_recv received
  process_recv-deliver l n v moved =
      rw (nonzero) rw (moved) rw (peeked-contents (move_write_pos-IsValid (pos n) v)) refl
    where
      nonzero : (n == 0) ≡ false
      nonzero = unfold move_write_pos in ground (arith, moved)

  -- A receive into a valid ring, after which it holds whole packets, one at least, and then part of
  -- one: the application handles these packets once each, in order; the ring keeps the part, and the
  -- session is as connected as the application leaves it. This is for an application that leaves the
  -- receive ring to the session, and where the next `WSARecv` starts.
  pub process_recv-frames :
      (l : Live U) (n : ℕ) (ps : List Bytes) (rest : Bytes)
      → All ps
      → Incomplete rest
      → 0 < length ps
      → IsValid l.session.recv_buffer
      → (move_write_pos l.session.recv_buffer (pos n)).0 ≡ true
      → contents (move_write_pos l.session.recv_buffer (pos n)).1 ≡ flatten ps ++ rest
      → ((p : Bytes) (m : Live U) → (handle p m).session.recv_buffer ≡ m.session.recv_buffer)
      → ((count : ℕ) (spans : SpanPair) → accepts (k.wsa_recv count spans) ≡ true)
      → let l' = process_recv k handle l (pos n) in
        let handled = handle_all handle ps (arrived l n) in
        (contents l'.session.recv_buffer ≡ rest)
        × IsValid l'.session.recv_buffer
        × (l'.app ≡ handled.app)
        × (l'.session.connected ≡ handled.session.connected)
  process_recv-frames l n ps rest ks stop many v moved c keeps ok =
      rw (process_recv-deliver l n v moved) rw (c) (
        deliver-frames k handle (arrived l n) ps rest ks stop many
          (move_write_pos-IsValid (pos n) v) c keeps ok)

  -- A receive into a valid ring, after which it holds only a part of a packet, ends the connection:
  -- no packet is handled, and `ProcessRecv` leaves the session disconnected.
  pub process_recv-partial :
      (l : Live U) (n : ℕ)
      → IsValid l.session.recv_buffer
      → (move_write_pos l.session.recv_buffer (pos n)).0 ≡ true
      → Incomplete (contents (move_write_pos l.session.recv_buffer (pos n)).1)
      → let l' = process_recv k handle l (pos n) in
        (l'.session.connected ≡ false) × (l'.app ≡ l.app)
  process_recv-partial l n v moved part =
      rw (process_recv-deliver l n v moved) rw
        (deliver-partial k handle (arrived l n)
          (contents (move_write_pos l.session.recv_buffer (pos n)).1)
          (data_size (move_write_pos l.session.recv_buffer (pos n)).1) part)
        (connected-disconnect k (arrived l n).session, refl)
