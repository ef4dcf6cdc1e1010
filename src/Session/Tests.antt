-- ===== src/Session/Tests.antt =====
-- A session with three packets in its life: one half sent, one queued, one that arrives in two parts.
use mathlib.Core.List.{flatten}
use iocp_multi_threading_cha.Prelude.{
  ℕ, suc, ◌≡◌, ◌⊎◌, inl, refl, pos, negsuc, true, false, List, [], ◌∷◌, ◌++◌, length, drop,
  replicate, arith,
}
use iocp_multi_threading_cha.Ring.{RingBuffer, data_size, free_size, move_write_pos}
use iocp_multi_threading_cha.Ring.Bounds.{IsValid}
use iocp_multi_threading_cha.Ring.Contents.{contents}
use iocp_multi_threading_cha.Session.{Bytes, Session, success, Kernel, process_send}
use iocp_multi_threading_cha.Session.Packets.{on_recv}
use iocp_multi_threading_cha.Session.Framing.{
  IsPacket, All, Incomplete, Malformed, handle_all, on_recv-total,
}
use iocp_multi_threading_cha.Session.Receive.{Live, process_recv}
use iocp_multi_threading_cha.Session.Arrival.{arrived, process_recv-frames, process_recv-partial}
use iocp_multi_threading_cha.Session.Stream.{outgoing, Sending, Sent, process_send-drop}

abbrev kernel : Kernel
kernel = record {
  wsa_send = λ _. success;
  wsa_recv = λ _ _. success;
  disconnect_ex = success;
  stack_spans = record {
    first = record { buf = 0; len = 0 };
    second = record { buf = 0; len = 0 };
  };
}

-- A whole packet and two bytes of the next.
abbrev packet : Bytes
packet = 5 ∷ 0 ∷ 233 ∷ 3 ∷ 65 ∷ []

abbrev part : Bytes
part = 9 ∷ 0 ∷ []

abbrev short_header : Bytes
short_header = 3 ∷ 0 ∷ 233 ∷ 3 ∷ []

packet-IsPacket : IsPacket packet
packet-IsPacket = record { long = omega arith; stated = refl }

abbrev ring : RingBuffer
ring = record {
  buffer = packet ++ part ++ replicate 9 0;
  capacity = 16;
  read_pos = 0;
  write_pos = 0;
}

ring-IsValid : IsValid ring
ring-IsValid = record {
  storage = refl;
  small = omega arith;
  read_in = omega arith;
  write_in = omega arith;
}

abbrev session : Session
session = record {
  connected = true;
  recv_buffer = ring;
  send_queue = (7 ∷ 8 ∷ []) ∷ [];
  is_sending = true;
  send_offset = 1;
  send_buffers = (4 ∷ 5 ∷ 6 ∷ []) ∷ [];
  connect_owner = false;
  disconnect_owner = false;
  recv_owner = true;
  send_owner = true;
}

session-Sending : Sending session
session-Sending = record { within = omega arith; idle = λ h. ground (arith, h) }

-- An application that counts packets.
abbrev count_packet : Bytes → ℕ → ℕ
count_packet p n = suc n

abbrev live : Live ℕ
live = record { session = session; app = 0 }

abbrev count_live : Bytes → Live ℕ → Live ℕ
count_live p l = record l { app = suc l.app }

on_recv-total_example :
    (ps : List Bytes) × (rest : Bytes) × (flatten ps ++ rest ≡ packet ++ part)
    × All ps
    × (Incomplete rest
          × (on_recv count_packet (packet ++ part) 0
              ≡ (pos (length (flatten ps)), handle_all count_packet ps 0))
        ⊎ Malformed rest
          × (on_recv count_packet (packet ++ part) 0 ≡ (negsuc 0, handle_all count_packet ps 0)))
on_recv-total_example = on_recv-total count_packet (packet ++ part) 0

process_recv-frames_example :
    let l' = process_recv kernel count_live live (pos 7) in
    let handled = handle_all count_live (packet ∷ []) (arrived live 7) in
    (contents l'.session.recv_buffer ≡ part)
    × IsValid l'.session.recv_buffer
    × (l'.app ≡ handled.app)
    × (l'.session.connected ≡ handled.session.connected)
unfolding move_write_pos free_size data_size flatten
process_recv-frames_example =
    process_recv-frames kernel count_live live 7 (packet ∷ []) part (packet-IsPacket, tt)
      (inl (omega arith)) (omega arith) ring-IsValid refl refl (λ p m. refl) (λ count spans. refl)

process_recv-partial_example :
    let l' = process_recv kernel count_live live (pos 3) in
    (l'.session.connected ≡ false) × (l'.app ≡ live.app)
unfolding move_write_pos free_size data_size
process_recv-partial_example =
    process_recv-partial kernel count_live live 3 ring-IsValid refl (inl (omega arith))

process_send-drop_example :
    let (bufs, s') = process_send kernel session 1 in Sent (drop 1 (outgoing session)) bufs s'
unfolding flatten
process_send-drop_example =
    process_send-drop kernel session 1 refl session-Sending refl (λ bufs. refl) (omega arith)
      (omega arith)
