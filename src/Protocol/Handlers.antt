-- ===== src/Protocol/Handlers.antt =====
-- `HandlePacket` of Source/Common/Protocol/ServerPacketHandler.h and ClientPacketHandler.h. The
-- `Handle_*` functions are one parameter, which acts on a state.
use iocp_multi_threading_cha.Prelude.{ℕ, ◌==◌, Bool, true, false, Option, none, some, if◌then◌else◌}
use iocp_multi_threading_cha.Session.{Bytes}
use iocp_multi_threading_cha.Session.Packets.{PacketHeader, header_size, read_header}
use iocp_multi_threading_cha.Wire.{BufferReader, Read, ◌>>=◌, return, finish, read_bytes}
use iocp_multi_threading_cha.Protocol.{
  pkt_c_login, pkt_s_login, pkt_c_heartbeat, pkt_s_heartbeat, pkt_c_room_list, pkt_s_room_list,
  pkt_c_enter_room, pkt_s_enter_room, pkt_c_leave_room, pkt_s_leave_room, pkt_c_room_chat,
  pkt_s_room_chat, pkt_c_global_chat, pkt_s_global_chat, pkt_s_notice, Message, c_login, s_login,
  c_heartbeat, s_heartbeat, c_room_list, s_room_list, c_enter_room, s_enter_room, c_leave_room,
  s_leave_room, c_room_chat, s_room_chat, c_global_chat, s_global_chat, s_notice, read_s_login,
  read_s_room_list, read_c_enter_room, read_s_enter_room, read_s_chat, read_text, read_tick,
  read_s_leave_room,
}

-- `reader.Read(header)`.
unfoldable pub read_packet_header : Read PacketHeader
read_packet_header = read_bytes header_size >>= λ bytes. return (read_header bytes)

-- The case of each packet id that `ServerPacketHandler::HandlePacket` knows.
unfoldable pub server_case : ℕ → Option (Read Message)
server_case id =
    if id == pkt_c_login
    then some (read_text >>= λ p. return (c_login p))
    else if id == pkt_c_heartbeat
    then some (read_tick >>= λ p. return (c_heartbeat p))
    else if id == pkt_c_room_list
    then some (finish c_room_list)
    else if id == pkt_c_enter_room
    then some (read_c_enter_room >>= λ p. return (c_enter_room p))
    else if id == pkt_c_leave_room
    then some (finish c_leave_room)
    else if id == pkt_c_room_chat
    then some (read_text >>= λ p. return (c_room_chat p))
    else if id == pkt_c_global_chat
    then some (read_text >>= λ p. return (c_global_chat p))
    else none

-- The case of each packet id that `ClientPacketHandler::HandlePacket` knows.
unfoldable pub client_case : ℕ → Option (Read Message)
client_case id =
    if id == pkt_s_login
    then some (read_s_login >>= λ p. return (s_login p))
    else if id == pkt_s_heartbeat
    then some (read_tick >>= λ p. return (s_heartbeat p))
    else if id == pkt_s_room_list
    then some (read_s_room_list >>= λ p. return (s_room_list p))
    else if id == pkt_s_enter_room
    then some (read_s_enter_room >>= λ p. return (s_enter_room p))
    else if id == pkt_s_leave_room
    then some (read_s_leave_room >>= λ p. return (s_leave_room p))
    else if id == pkt_s_room_chat
    then some (read_s_chat >>= λ p. return (s_room_chat p))
    else if id == pkt_s_global_chat
    then some (read_s_chat >>= λ p. return (s_global_chat p))
    else if id == pkt_s_notice
    then some (read_text >>= λ p. return (s_notice p))
    else none

module _ {S : Type 0} (handle : Message → S → Bool × S) where
  -- `if (pkt.Read(reader) == false) return false; return Handle_*(session, pkt);`
  unfoldable pub read_and_handle : Option (Read Message) → BufferReader → S → Bool × S
  read_and_handle none r s = (false, s)
  read_and_handle (some read) r s = elim (read r).0 [ none ↦ (false, s) | some p ↦ handle p s ]

  -- `HandlePacket`, whose `switch` is `cases`.
  unfoldable pub handle_packet : (ℕ → Option (Read Message)) → Bytes → S → Bool × S
  unfolding read_packet_header read_and_handle
  handle_packet cases buffer s =
      let (header, r) = read_packet_header (record { unread = buffer; is_valid = true }) in
      elim header [ none ↦ (false, s) | some h ↦ read_and_handle (cases h.id) r s ]
