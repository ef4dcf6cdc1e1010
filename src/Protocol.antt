-- ===== src/Protocol.antt =====
-- The messages of Source/Common/Protocol/PacketProtocol.h. A record holds the fields of a struct
-- but `header`, which `MakeSendBuffer` fills; `write_*` is the part of `MakeSendBuffer` between the
-- two headers, and `read_*` is `Read`. An `int32` stands as its 32 bits, a string as its bytes.
pub mod Codecs
pub mod Kinds
pub mod Delivery
pub mod Handlers
pub mod Packets
pub mod Relay
mod Tests
use iocp_multi_threading_cha.Prelude.{ℕ, Bool, Option, none, some, List, [], ◌∷◌}
use iocp_multi_threading_cha.Session.{Bytes}
use iocp_multi_threading_cha.Wire.{
  BufferReader, BufferWriter, Read, Write, ◌>>=◌, return, finish, ◌>=>◌, read_word, read_bool,
  read_string, write_word, write_bool, write_string, write_vector, read_vector,
}

abbrev pub pkt_c_login : ℕ
pkt_c_login = 1001

abbrev pub pkt_s_login : ℕ
pkt_s_login = 1002

abbrev pub pkt_c_heartbeat : ℕ
pkt_c_heartbeat = 1003

abbrev pub pkt_s_heartbeat : ℕ
pkt_s_heartbeat = 1004

abbrev pub pkt_c_room_list : ℕ
pkt_c_room_list = 1005

abbrev pub pkt_s_room_list : ℕ
pkt_s_room_list = 1006

abbrev pub pkt_c_enter_room : ℕ
pkt_c_enter_room = 1007

abbrev pub pkt_s_enter_room : ℕ
pkt_s_enter_room = 1008

abbrev pub pkt_c_leave_room : ℕ
pkt_c_leave_room = 1009

abbrev pub pkt_s_leave_room : ℕ
pkt_s_leave_room = 1010

abbrev pub pkt_c_room_chat : ℕ
pkt_c_room_chat = 1011

abbrev pub pkt_s_room_chat : ℕ
pkt_s_room_chat = 1012

abbrev pub pkt_c_global_chat : ℕ
pkt_c_global_chat = 1013

abbrev pub pkt_s_global_chat : ℕ
pkt_s_global_chat = 1014

abbrev pub pkt_s_notice : ℕ
pkt_s_notice = 1015

pub record RoomsInfo : Type 0 where
  pub room_id : ℕ
  pub room_name : Bytes
  pub user_count : ℕ

pub record MembersInfo : Type 0 where
  pub name : Bytes

pub record SLogin : Type 0 where
  pub success : Bool
  pub player_id : ℕ
  pub name : Bytes
  pub message : Bytes

pub record CEnterRoom : Type 0 where
  pub room_id : ℕ
  pub room_name : Bytes

pub record SEnterRoom : Type 0 where
  pub members : List MembersInfo
  pub success : Bool
  pub room_id : ℕ
  pub room_name : Bytes

pub record SChat : Type 0 where
  pub sender_name : Bytes
  pub message : Bytes

-- The structs with one field or none are that field.
pub data Message : Type 0 where
  c_login : Bytes → Message
  s_login : SLogin → Message
  c_heartbeat : ℕ → Message
  s_heartbeat : ℕ → Message
  c_room_list : Message
  s_room_list : List RoomsInfo → Message
  c_enter_room : CEnterRoom → Message
  s_enter_room : SEnterRoom → Message
  c_leave_room : Message
  s_leave_room : Bool → Message
  c_room_chat : Bytes → Message
  s_room_chat : SChat → Message
  c_global_chat : Bytes → Message
  s_global_chat : SChat → Message
  s_notice : Bytes → Message

abbrev pub done : Write
done w = some w

unfoldable pub write_s_login : SLogin → Write
write_s_login p =
    write_bool p.success
    >=> write_word 8 p.player_id
    >=> write_string p.name
    >=> write_string p.message
    >=> done

unfoldable pub read_s_login : Read SLogin
read_s_login = read_bool >>= λ success. read_word 8 >>= λ player_id. read_string >>= λ name.
    read_string >>= λ message.
    finish (record { success = success; player_id = player_id; name = name; message = message })

unfoldable pub write_rooms_info : RoomsInfo → Write
write_rooms_info item =
    write_word 4 item.room_id
    >=> write_string item.room_name
    >=> write_word 4 item.user_count
    >=> done

unfoldable pub read_rooms_info : Read RoomsInfo
read_rooms_info = read_word 4 >>= λ room_id. read_string >>= λ room_name.
    read_word 4 >>= λ user_count.
    return (record { room_id = room_id; room_name = room_name; user_count = user_count })

unfoldable pub write_s_room_list : List RoomsInfo → Write
unfolding write_rooms_info
write_s_room_list rooms = write_vector write_rooms_info rooms >=> done

unfoldable pub read_s_room_list : Read (List RoomsInfo)
unfolding read_rooms_info
read_s_room_list = read_vector read_rooms_info >>= λ rooms. finish rooms

unfoldable pub write_c_enter_room : CEnterRoom → Write
write_c_enter_room p = write_word 4 p.room_id >=> write_string p.room_name >=> done

unfoldable pub read_c_enter_room : Read CEnterRoom
read_c_enter_room = read_word 4 >>= λ room_id.
    read_string >>= λ room_name. finish (record { room_id = room_id; room_name = room_name })

unfoldable pub write_members_info : MembersInfo → Write
write_members_info item = write_string item.name >=> done

unfoldable pub read_members_info : Read MembersInfo
read_members_info = read_string >>= λ name. return (record { name = name })

unfoldable pub write_s_enter_room : SEnterRoom → Write
unfolding write_members_info
write_s_enter_room p =
    write_bool p.success
    >=> write_word 4 p.room_id
    >=> write_string p.room_name
    >=> write_vector write_members_info p.members
    >=> done

unfoldable pub read_s_enter_room : Read SEnterRoom
unfolding read_members_info
read_s_enter_room = read_bool >>= λ success. read_word 4 >>= λ room_id. read_string >>= λ room_name.
    read_vector read_members_info >>= λ members.
    finish
      (record { members = members; success = success; room_id = room_id; room_name = room_name })

-- `S_ROOM_CHAT` and `S_GLOBAL_CHAT`.
unfoldable pub write_s_chat : SChat → Write
write_s_chat p = write_string p.sender_name >=> write_string p.message >=> done

unfoldable pub read_s_chat : Read SChat
read_s_chat = read_string >>= λ sender_name.
    read_string >>= λ message. finish (record { sender_name = sender_name; message = message })

-- `C_LOGIN`, `C_ROOM_CHAT`, `C_GLOBAL_CHAT` and `S_NOTICE`.
unfoldable pub write_text : Bytes → Write
write_text str = write_string str >=> done

unfoldable pub read_text : Read Bytes
read_text = read_string >>= λ str. finish str

-- `C_HEARTBEAT` and `S_HEARTBEAT`.
unfoldable pub write_tick : ℕ → Write
write_tick tick = write_word 8 tick >=> done

unfoldable pub read_tick : Read ℕ
read_tick = read_word 8 >>= λ tick. finish tick

unfoldable pub write_s_leave_room : Bool → Write
write_s_leave_room success = write_bool success >=> done

unfoldable pub read_s_leave_room : Read Bool
read_s_leave_room = read_bool >>= λ success. finish success
