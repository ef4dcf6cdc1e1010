-- ===== src/Protocol/Relay.antt =====
-- What becomes of a chat message that the server sends on, `S_ROOM_CHAT` of
-- Source/Common/Protocol/PacketProtocol.h, by its length.
use iocp_multi_threading_cha.Prelude.{ℕ, ◌+◌, ◌≤◌, ◌<◌, ◌≡◌, inl, inr, none, some, length, arith}
use iocp_multi_threading_cha.Session.{Bytes}
use iocp_multi_threading_cha.Wire.Chunks.{
  SendBufferManager, crash, returns, max_packet_size, written_packet,
}
use iocp_multi_threading_cha.Wire.Sealed.{IsReady, make_send_buffer-ready, make_send_buffer-stuck}
use iocp_multi_threading_cha.Wire.Sizes.{
  Exact, Exact-string, Exact-then, Exact-done, written_packet-fits,
}
use iocp_multi_threading_cha.Protocol.{
  SChat, Message, s_room_chat, pkt_s_room_chat, write_s_chat, read_s_chat,
}
use iocp_multi_threading_cha.Protocol.Codecs.{IsShort, Round-s_chat}
use iocp_multi_threading_cha.Protocol.Packets.{packet_id, write_fields, make_message}

write_s_chat-Exact :
    (p : SChat)
    → IsShort p.sender_name
    → IsShort p.message
    → Exact (write_s_chat p) (2 + length p.sender_name + (2 + length p.message + 0))
unfolding write_s_chat
write_s_chat-Exact p h i =
    Exact-then (Exact-string p.sender_name h) (Exact-then (Exact-string p.message i) Exact-done)

-- The bytes of a room chat packet.
abbrev pub room_chat_size : SChat → ℕ
room_chat_size p = 8 + length p.sender_name + length p.message

-- On a thread that leaves no send buffer open, for strings shorter than 65536 bytes: `MakeSendBuffer`
-- of a room chat returns a packet if the sender's name and the message take 4088 bytes together or
-- less. Else it returns a null pointer, and the next `MakeSendBuffer` of that thread, of whatever
-- message, ends the server.
pub make_message-room_chat :
    (p : SChat) (m : SendBufferManager)
    → IsShort p.sender_name
    → IsShort p.message
    → IsReady m
    → (room_chat_size p ≤ max_packet_size
        → (bytes : Bytes) × (m' : SendBufferManager) × (make_message (s_room_chat p) m
            ≡ returns (some bytes) m')
          × IsReady m')
      × (max_packet_size < room_chat_size p
          → (m' : SendBufferManager) × (make_message (s_room_chat p) m ≡ returns none m')
            × ((q : Message) → make_message q m' ≡ crash))
unfolding make_message write_fields
make_message-room_chat p m h i ready =
    elim (make_send_buffer-ready pkt_s_room_chat (write_s_chat p) read_s_chat p m
      (Round-s_chat p h i) ready) [
        | inl (bytes, m', e, written, r) ↦ (
          (λ fits. (bytes, m', e, r)),
          (λ far. absurd (ground (arith, fit.0 (omega arith), written))),
        )
        | inr (m', e, lost, stuck) ↦ (
          (λ fits. absurd (ground (arith, (fit.1 (omega arith)).1, lost))),
          (λ far. (m', e, λ q. make_send_buffer-stuck (packet_id q) (write_fields q) m' stuck)),
        )
      ]
  where
    fit :
        (max_packet_size < 4 + (2 + length p.sender_name + (2 + length p.message + 0))
          → written_packet pkt_s_room_chat (write_s_chat p) ≡ none)
        × (4 + (2 + length p.sender_name + (2 + length p.message + 0)) ≤ max_packet_size
            → (bytes : Bytes) × (written_packet pkt_s_room_chat (write_s_chat p) ≡ some bytes))
    fit =
        written_packet-fits pkt_s_room_chat (write_s_chat p)
          (2 + length p.sender_name + (2 + length p.message + 0)) (write_s_chat-Exact p h i)
