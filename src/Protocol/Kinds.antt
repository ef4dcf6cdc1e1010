-- ===== src/Protocol/Kinds.antt =====
-- Which `Read` belongs to each message of Source/Common/Protocol/PacketProtocol.h, and which side
-- handles it.
use iocp_multi_threading_cha.Prelude.{
  ◌<◌, ◌≡◌, refl, Bool, true, false, none, some, if◌then◌else◌, arith,
}
use iocp_multi_threading_cha.Wire.{Read, ◌>>=◌, return, finish}
use iocp_multi_threading_cha.Wire.Round.{Round, Round-map, Round-finish}
use iocp_multi_threading_cha.Protocol.{
  Message, c_login, s_login, c_heartbeat, s_heartbeat, c_room_list, s_room_list, c_enter_room,
  s_enter_room, c_leave_room, s_leave_room, c_room_chat, s_room_chat, c_global_chat, s_global_chat,
  s_notice, read_s_login, read_s_room_list, read_c_enter_room, read_s_enter_room, read_s_chat,
  read_text, read_tick, read_s_leave_room,
}
use iocp_multi_threading_cha.Protocol.Packets.{packet_id, write_fields}
use iocp_multi_threading_cha.Protocol.Handlers.{server_case, client_case}
use iocp_multi_threading_cha.Protocol.Codecs.{
  InRange, Round-text, Round-tick, Round-s_leave_room, Round-s_chat, Round-c_enter_room,
  Round-s_login, Round-s_room_list, Round-s_enter_room,
}

-- `Read` of the struct that a message's constructor names.
pub read_like : Message → Read Message
read_like (c_login _) = read_text >>= λ p. return (c_login p)
read_like (s_login _) = read_s_login >>= λ p. return (s_login p)
read_like (c_heartbeat _) = read_tick >>= λ p. return (c_heartbeat p)
read_like (s_heartbeat _) = read_tick >>= λ p. return (s_heartbeat p)
read_like c_room_list = finish c_room_list
read_like (s_room_list _) = read_s_room_list >>= λ p. return (s_room_list p)
read_like (c_enter_room _) = read_c_enter_room >>= λ p. return (c_enter_room p)
read_like (s_enter_room _) = read_s_enter_room >>= λ p. return (s_enter_room p)
read_like c_leave_room = finish c_leave_room
read_like (s_leave_room _) = read_s_leave_room >>= λ p. return (s_leave_room p)
read_like (c_room_chat _) = read_text >>= λ p. return (c_room_chat p)
read_like (s_room_chat _) = read_s_chat >>= λ p. return (s_room_chat p)
read_like (c_global_chat _) = read_text >>= λ p. return (c_global_chat p)
read_like (s_global_chat _) = read_s_chat >>= λ p. return (s_global_chat p)
read_like (s_notice _) = read_text >>= λ p. return (s_notice p)

pub read_like-Round : (p : Message) → InRange p → Round (write_fields p) (read_like p) p
unfolding read_like write_fields
read_like-Round (c_login n) h = Round-map c_login (Round-text n h)
read_like-Round (s_login p) (h, i, j) = Round-map s_login (Round-s_login p h i j)
read_like-Round (c_heartbeat t) h = Round-map c_heartbeat (Round-tick t h)
read_like-Round (s_heartbeat t) h = Round-map s_heartbeat (Round-tick t h)
read_like-Round c_room_list h = Round-finish c_room_list
read_like-Round (s_room_list r) (h, i) = Round-map s_room_list (Round-s_room_list r h i)
read_like-Round (c_enter_room p) (h, i) = Round-map c_enter_room (Round-c_enter_room p h i)
read_like-Round (s_enter_room p) (h, i, j, e) =
    Round-map s_enter_room (Round-s_enter_room p h i j e)
read_like-Round c_leave_room h = Round-finish c_leave_room
read_like-Round (s_leave_room b) h = Round-map s_leave_room (Round-s_leave_room b)
read_like-Round (c_room_chat m) h = Round-map c_room_chat (Round-text m h)
read_like-Round (s_room_chat p) (h, i) = Round-map s_room_chat (Round-s_chat p h i)
read_like-Round (c_global_chat m) h = Round-map c_global_chat (Round-text m h)
read_like-Round (s_global_chat p) (h, i) = Round-map s_global_chat (Round-s_chat p h i)
read_like-Round (s_notice m) h = Round-map s_notice (Round-text m h)

-- The messages that clients send.
abbrev pub is_client_message : Message → Bool
is_client_message (c_login _) = true
is_client_message (s_login _) = false
is_client_message (c_heartbeat _) = true
is_client_message (s_heartbeat _) = false
is_client_message c_room_list = true
is_client_message (s_room_list _) = false
is_client_message (c_enter_room _) = true
is_client_message (s_enter_room _) = false
is_client_message c_leave_room = true
is_client_message (s_leave_room _) = false
is_client_message (c_room_chat _) = true
is_client_message (s_room_chat _) = false
is_client_message (c_global_chat _) = true
is_client_message (s_global_chat _) = false
is_client_message (s_notice _) = false

pub case_of :
    (p : Message)
    → (server_case (packet_id p) ≡ (if is_client_message p then some (read_like p) else none))
      × (client_case (packet_id p) ≡ (if is_client_message p then none else some (read_like p)))
unfolding server_case client_case read_like
case_of (c_login _) = (refl, refl)
case_of (s_login _) = (refl, refl)
case_of (c_heartbeat _) = (refl, refl)
case_of (s_heartbeat _) = (refl, refl)
case_of c_room_list = (refl, refl)
case_of (s_room_list _) = (refl, refl)
case_of (c_enter_room _) = (refl, refl)
case_of (s_enter_room _) = (refl, refl)
case_of c_leave_room = (refl, refl)
case_of (s_leave_room _) = (refl, refl)
case_of (c_room_chat _) = (refl, refl)
case_of (s_room_chat _) = (refl, refl)
case_of (c_global_chat _) = (refl, refl)
case_of (s_global_chat _) = (refl, refl)
case_of (s_notice _) = (refl, refl)

pub packet_id-small : (p : Message) → packet_id p < 65536
packet_id-small (c_login _) = omega arith
packet_id-small (s_login _) = omega arith
packet_id-small (c_heartbeat _) = omega arith
packet_id-small (s_heartbeat _) = omega arith
packet_id-small c_room_list = omega arith
packet_id-small (s_room_list _) = omega arith
packet_id-small (c_enter_room _) = omega arith
packet_id-small (s_enter_room _) = omega arith
packet_id-small c_leave_room = omega arith
packet_id-small (s_leave_room _) = omega arith
packet_id-small (c_room_chat _) = omega arith
packet_id-small (s_room_chat _) = omega arith
packet_id-small (c_global_chat _) = omega arith
packet_id-small (s_global_chat _) = omega arith
packet_id-small (s_notice _) = omega arith
