-- ===== src/Protocol/Tests.antt =====
-- A chat message from a client to the server, whose handler keeps the message.
use iocp_multi_threading_cha.Prelude.{
  ◌≡◌, ◌⊎◌, ◌≤◌, ◌<◌, Bool, true, none, some, List, [], ◌∷◌, arith,
}
use iocp_multi_threading_cha.Session.{Bytes}
use iocp_multi_threading_cha.Wire.Chunks.{SendBufferManager, crash, returns, max_packet_size}
use iocp_multi_threading_cha.Wire.Sealed.{IsReady, Lost}
use iocp_multi_threading_cha.Protocol.{Message, SChat, c_room_chat, s_room_chat}
use iocp_multi_threading_cha.Protocol.Packets.{packet_id, write_fields, make_message}
use iocp_multi_threading_cha.Protocol.Relay.{room_chat_size, make_message-room_chat}
use iocp_multi_threading_cha.Protocol.Delivery.{Handled, make_message-Handled}

abbrev fresh : SendBufferManager
fresh = record { chunk = none; pool = [] }

abbrev chat : Message
chat = c_room_chat (104 ∷ 101 ∷ 108 ∷ 108 ∷ 111 ∷ [])

abbrev keep_message : Message → List Message → Bool × List Message
keep_message p messages = (true, p ∷ messages)

make_message-Handled_example :
    ((bytes : Bytes) × (m' : SendBufferManager) × (make_message chat fresh
        ≡ returns (some bytes) m')
      × IsReady m'
      × Handled keep_message chat bytes)
    ⊎ Lost (packet_id chat) (write_fields chat) fresh
make_message-Handled_example = make_message-Handled keep_message chat fresh (omega arith) tt

abbrev greeting : SChat
greeting = record { sender_name = 98 ∷ 111 ∷ 98 ∷ []; message = 104 ∷ 105 ∷ [] }

make_message-room_chat_example :
    (room_chat_size greeting ≤ max_packet_size
      → (bytes : Bytes) × (m' : SendBufferManager) × (make_message (s_room_chat greeting) fresh
          ≡ returns (some bytes) m')
        × IsReady m')
    × (max_packet_size < room_chat_size greeting
        → (m' : SendBufferManager) × (make_message (s_room_chat greeting) fresh ≡ returns none m')
          × ((q : Message) → make_message q m' ≡ crash))
make_message-room_chat_example =
    make_message-room_chat greeting fresh (omega arith) (omega arith) tt
