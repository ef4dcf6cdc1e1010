-- ===== src/Rooms/Handlers.antt =====
-- The packet handlers of Source/ChatServer/Protocol/PacketHandlerImpl.cpp and what
-- Source/ChatServer/Session/ClientSession.cpp does with a room. `std::to_string` and the values of
-- `GetTickCount64()` are parameters.
use iocp_multi_threading_cha.Prelude.{
  ℕ, suc, true, none, some, [], ◌∷◌, ◌++◌, ◌==◌, if◌then◌else◌, length, ◌%◌,
}
use iocp_multi_threading_cha.Session.{Bytes}
use iocp_multi_threading_cha.Prelude.{update}
use iocp_multi_threading_cha.Protocol.{CEnterRoom, s_login, s_heartbeat, s_room_list, s_global_chat}
use iocp_multi_threading_cha.Rooms.{
  enter_job, leave_job, leave_and_enter_job, chat_job, Server, set_room, post, post_all, push_job,
  get_or_create_room, get_room_list_info,
}

-- "Welcome to High-Performance IOCP Chat Server!"
abbrev pub welcome : Bytes
welcome =
    87 ∷ 101 ∷ 108 ∷ 99 ∷ 111 ∷ 109 ∷ 101 ∷ 32 ∷ 116 ∷ 111 ∷ 32 ∷ 72 ∷ 105 ∷ 103 ∷ 104 ∷ 45 ∷ 80
    ∷ 101 ∷ 114 ∷ 102 ∷ 111 ∷ 114 ∷ 109 ∷ 97 ∷ 110 ∷ 99 ∷ 101 ∷ 32 ∷ 73 ∷ 79 ∷ 67 ∷ 80 ∷ 32 ∷ 67
    ∷ 104 ∷ 97 ∷ 116 ∷ 32 ∷ 83 ∷ 101 ∷ 114 ∷ 118 ∷ 101 ∷ 114 ∷ 33 ∷ []

-- "Room_"
abbrev pub room_prefix : Bytes
room_prefix = 82 ∷ 111 ∷ 111 ∷ 109 ∷ 95 ∷ []

-- `Handle_C_LOGIN`.
unfoldable pub handle_c_login : ℕ → Bytes → Server → Server
handle_c_login i name s =
    let named = record s {
      client = update s.client i (record (s.client i) {
        player_id = s.next_player_id;
        player_name = name;
        authenticated = true;
      });
      next_player_id = suc s.next_player_id % 18446744073709551616;
    } in
    post i
      (s_login
        (record { success = true; player_id = s.next_player_id; name = name; message = welcome }))
      named

-- `Handle_C_HEARTBEAT`, with the ticks that its two calls of `GetTickCount64()` return.
unfoldable pub handle_c_heartbeat : ℕ → ℕ → ℕ → Server → Server
handle_c_heartbeat i now later s =
    post i (s_heartbeat later)
      (record s { client = update s.client i (record (s.client i) { last_heartbeat_tick = now }) })

-- `Handle_C_ROOM_LIST`.
unfoldable pub handle_c_room_list : ℕ → Server → Server
handle_c_room_list i s = post i (s_room_list (get_room_list_info s s.rooms)) s

-- `Handle_C_ENTER_ROOM` from the look at the session's room on.
unfoldable pub request_room : ℕ → ℕ → Server → Server
request_room i target s = elim (s.client i).room [
  | some old ↦ if old == target then s else push_job old (leave_and_enter_job i target) s
  | none ↦ push_job target (enter_job i) s
]

module _ (to_string : ℕ → Bytes) where
  -- `Handle_C_ENTER_ROOM`.
  unfoldable pub handle_c_enter_room : ℕ → CEnterRoom → Server → Server
  unfolding request_room
  handle_c_enter_room i p s =
      let name =
        if length p.room_name == 0 then room_prefix ++ to_string p.room_id else p.room_name in
      let (target, s') = get_or_create_room p.room_id name s in request_room i target s'

-- `Handle_C_LEAVE_ROOM`.
unfoldable pub handle_c_leave_room : ℕ → Server → Server
handle_c_leave_room i s = elim (s.client i).room [ none ↦ s | some a ↦ push_job a (leave_job i) s ]

-- `Handle_C_ROOM_CHAT`.
unfoldable pub handle_c_room_chat : ℕ → Bytes → Server → Server
handle_c_room_chat i message s = elim (s.client i).room [
  | none ↦ s
  | some a ↦ push_job a (chat_job i message) s
]

-- `Handle_C_GLOBAL_CHAT`, with `Service::Broadcast`.
unfoldable pub handle_c_global_chat : ℕ → Bytes → Server → Server
unfolding post_all
handle_c_global_chat i message s =
    post_all s.sessions
      (s_global_chat (record { sender_name = (s.client i).player_name; message = message })) s

-- The room's part of `ClientSession::OnDisconnected`.
unfoldable pub on_disconnected : ℕ → Server → Server
on_disconnected i s = elim (s.client i).room [
  | none ↦ s
  | some a ↦ set_room i none (push_job a (leave_job i) s)
]
