-- ===== src/Protocol/Packets.antt =====
-- `MakeSendBuffer` of every struct of Source/Common/Protocol/PacketProtocol.h.
use iocp_multi_threading_cha.Prelude.{ℕ, Option}
use iocp_multi_threading_cha.Session.{Bytes}
use iocp_multi_threading_cha.Wire.{Write}
use iocp_multi_threading_cha.Wire.Chunks.{SendBufferManager, Run, make_send_buffer}
use iocp_multi_threading_cha.Protocol.{
  pkt_c_login, pkt_s_login, pkt_c_heartbeat, pkt_s_heartbeat, pkt_c_room_list, pkt_s_room_list,
  pkt_c_enter_room, pkt_s_enter_room, pkt_c_leave_room, pkt_s_leave_room, pkt_c_room_chat,
  pkt_s_room_chat, pkt_c_global_chat, pkt_s_global_chat, pkt_s_notice, Message, c_login, s_login,
  c_heartbeat, s_heartbeat, c_room_list, s_room_list, c_enter_room, s_enter_room, c_leave_room,
  s_leave_room, c_room_chat, s_room_chat, c_global_chat, s_global_chat, s_notice, done,
  write_s_login, write_s_room_list, write_c_enter_room, write_s_enter_room, write_s_chat,
  write_text, write_tick, write_s_leave_room,
}

-- The header's `id` of a message.
abbrev pub packet_id : Message → ℕ
packet_id (c_login _) = pkt_c_login
packet_id (s_login _) = pkt_s_login
packet_id (c_heartbeat _) = pkt_c_heartbeat
packet_id (s_heartbeat _) = pkt_s_heartbeat
packet_id c_room_list = pkt_c_room_list
packet_id (s_room_list _) = pkt_s_room_list
packet_id (c_enter_room _) = pkt_c_enter_room
packet_id (s_enter_room _) = pkt_s_enter_room
packet_id c_leave_room = pkt_c_leave_room
packet_id (s_leave_room _) = pkt_s_leave_room
packet_id (c_room_chat _) = pkt_c_room_chat
packet_id (s_room_chat _) = pkt_s_room_chat
packet_id (c_global_chat _) = pkt_c_global_chat
packet_id (s_global_chat _) = pkt_s_global_chat
packet_id (s_notice _) = pkt_s_notice

-- The fields that `MakeSendBuffer` writes after the header.
unfoldable pub write_fields : Message → Write
write_fields (c_login name) = write_text name
write_fields (s_login p) = write_s_login p
write_fields (c_heartbeat tick) = write_tick tick
write_fields (s_heartbeat tick) = write_tick tick
write_fields c_room_list = done
write_fields (s_room_list rooms) = write_s_room_list rooms
write_fields (c_enter_room p) = write_c_enter_room p
write_fields (s_enter_room p) = write_s_enter_room p
write_fields c_leave_room = done
write_fields (s_leave_room success) = write_s_leave_room success
write_fields (c_room_chat message) = write_text message
write_fields (s_room_chat p) = write_s_chat p
write_fields (c_global_chat message) = write_text message
write_fields (s_global_chat p) = write_s_chat p
write_fields (s_notice message) = write_text message

-- `MakeSendBuffer` of a message.
unfoldable pub make_message : Message → SendBufferManager → Run (Option Bytes)
make_message p m = make_send_buffer (packet_id p) (write_fields p) m
