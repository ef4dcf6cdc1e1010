-- ===== src/Protocol/Codecs.antt =====
-- Each message's fields are read back as they were written.
use iocp_multi_threading_cha.Prelude.{ℕ, ◌<◌, ◌^◌, Bool, List, [], ◌∷◌, length}
use iocp_multi_threading_cha.Session.{Bytes}
use iocp_multi_threading_cha.Wire.{◌>>=◌, return, finish, read_word, read_string, read_vector}
use iocp_multi_threading_cha.Wire.Round.{
  Round, Round-then, Round-finish, Round-return, Round-word, Round-bool, Round-string, Round-vector,
  Each,
}
use iocp_multi_threading_cha.Protocol.{
  RoomsInfo, MembersInfo, SLogin, CEnterRoom, SEnterRoom, SChat, Message, c_login, s_login,
  c_heartbeat, s_heartbeat, c_room_list, s_room_list, c_enter_room, s_enter_room, c_leave_room,
  s_leave_room, c_room_chat, s_room_chat, c_global_chat, s_global_chat, s_notice, write_s_login,
  write_s_room_list, write_c_enter_room, write_s_enter_room, write_s_chat, write_text, write_tick,
  write_s_leave_room, write_rooms_info, write_members_info, read_rooms_info, read_members_info,
  read_s_login, read_s_room_list, read_c_enter_room, read_s_enter_room, read_s_chat, read_text,
  read_tick, read_s_leave_room,
}

-- A string whose length a `uint16` holds.
abbrev pub IsShort : Bytes → Type 0
IsShort str = length str < 65536

abbrev pub IsInt : ℕ → Type 0
IsInt v = v < 256 ^ 4

abbrev pub IsLong : ℕ → Type 0
IsLong v = v < 256 ^ 8

-- Every field is within its type, every string and vector within the count before it.
abbrev pub InRange : Message → Type 0
InRange (c_login name) = IsShort name
InRange (s_login p) = IsLong p.player_id × IsShort p.name × IsShort p.message
InRange (c_heartbeat tick) = IsLong tick
InRange (s_heartbeat tick) = IsLong tick
InRange c_room_list = Unit
InRange (s_room_list rooms) =
    (length rooms < 65536)
    × Each (λ (i : RoomsInfo). IsInt i.room_id × IsShort i.room_name × IsInt i.user_count) rooms
InRange (c_enter_room p) = IsInt p.room_id × IsShort p.room_name
InRange (s_enter_room p) =
    IsInt p.room_id
    × IsShort p.room_name
    × (length p.members < 65536)
    × Each (λ (i : MembersInfo). IsShort i.name) p.members
InRange c_leave_room = Unit
InRange (s_leave_room success) = Unit
InRange (c_room_chat message) = IsShort message
InRange (s_room_chat p) = IsShort p.sender_name × IsShort p.message
InRange (c_global_chat message) = IsShort message
InRange (s_global_chat p) = IsShort p.sender_name × IsShort p.message
InRange (s_notice message) = IsShort message

pub Round-text : (str : Bytes) → IsShort str → Round (write_text str) read_text str
unfolding write_text read_text
Round-text str h = Round-then (λ s. finish s) (Round-string str h) (Round-finish str)

pub Round-tick : (tick : ℕ) → IsLong tick → Round (write_tick tick) read_tick tick
unfolding write_tick read_tick
Round-tick tick h = Round-then (λ t. finish t) (Round-word 8 tick h) (Round-finish tick)

pub Round-s_leave_room :
    (success : Bool) → Round (write_s_leave_room success) read_s_leave_room success
unfolding write_s_leave_room read_s_leave_room
Round-s_leave_room b = Round-then (λ t. finish t) (Round-bool b) (Round-finish b)

pub Round-s_chat :
    (p : SChat) → IsShort p.sender_name → IsShort p.message → Round (write_s_chat p) read_s_chat p
unfolding write_s_chat read_s_chat
Round-s_chat p h i =
    Round-then (λ n. read_string >>= λ m. finish (record { sender_name = n; message = m }))
      (Round-string p.sender_name h)
      (Round-then (λ m. finish (record { sender_name = p.sender_name; message = m }))
        (Round-string p.message i) (Round-finish p))

pub Round-c_enter_room :
    (p : CEnterRoom)
    → IsInt p.room_id
    → IsShort p.room_name
    → Round (write_c_enter_room p) read_c_enter_room p
unfolding write_c_enter_room read_c_enter_room
Round-c_enter_room p h i =
    Round-then (λ n. read_string >>= λ m. finish (record { room_id = n; room_name = m }))
      (Round-word 4 p.room_id h)
      (Round-then (λ m. finish (record { room_id = p.room_id; room_name = m }))
        (Round-string p.room_name i) (Round-finish p))

pub Round-s_login :
    (p : SLogin)
    → IsLong p.player_id
    → IsShort p.name
    → IsShort p.message
    → Round (write_s_login p) read_s_login p
unfolding write_s_login read_s_login
Round-s_login p h i j =
    Round-then
      (λ s. read_word 8 >>= λ d. read_string >>= λ n.
        read_string >>= λ m. finish (record { success = s; player_id = d; name = n; message = m }))
      (Round-bool p.success)
      (Round-then
        (λ d. read_string >>= λ n. read_string >>= λ m.
          finish (record { success = p.success; player_id = d; name = n; message = m }))
        (Round-word 8 p.player_id h)
        (Round-then
          (λ n. read_string >>= λ m.
            finish (record { success = p.success; player_id = p.player_id; name = n; message = m }))
          (Round-string p.name i)
          (Round-then
            (λ m.
              finish (record {
                success = p.success;
                player_id = p.player_id;
                name = p.name;
                message = m;
              }))
            (Round-string p.message j) (Round-finish p))))

Round-rooms_info :
    (p : RoomsInfo)
    → IsInt p.room_id
    → IsShort p.room_name
    → IsInt p.user_count
    → Round (write_rooms_info p) read_rooms_info p
unfolding write_rooms_info read_rooms_info
Round-rooms_info p h i j =
    Round-then
      (λ d. read_string >>= λ n.
        read_word 4 >>= λ c. return (record { room_id = d; room_name = n; user_count = c }))
      (Round-word 4 p.room_id h)
      (Round-then
        (λ n. read_word 4 >>= λ c.
          return (record { room_id = p.room_id; room_name = n; user_count = c }))
        (Round-string p.room_name i)
        (Round-then
          (λ c. return (record { room_id = p.room_id; room_name = p.room_name; user_count = c }))
          (Round-word 4 p.user_count j) (Round-return p)))

Each-room :
    (rooms : List RoomsInfo)
    → Each (λ (i : RoomsInfo). IsInt i.room_id × IsShort i.room_name × IsInt i.user_count) rooms
    → Each (λ i. Round (write_rooms_info i) read_rooms_info i) rooms
Each-room [] h = tt
Each-room (i ∷ rooms) ((d, n, c), h) = (Round-rooms_info i d n c, Each-room rooms h)

pub Round-s_room_list :
    (rooms : List RoomsInfo)
    → length rooms < 65536
    → Each (λ (i : RoomsInfo). IsInt i.room_id × IsShort i.room_name × IsInt i.user_count) rooms
    → Round (write_s_room_list rooms) read_s_room_list rooms
unfolding write_s_room_list read_s_room_list
Round-s_room_list rooms h e =
    Round-then (λ r. finish r)
      (Round-vector write_rooms_info read_rooms_info rooms h (Each-room rooms e))
      (Round-finish rooms)

Round-members_info :
    (p : MembersInfo) → IsShort p.name → Round (write_members_info p) read_members_info p
unfolding write_members_info read_members_info
Round-members_info p h =
    Round-then (λ n. return (record { name = n })) (Round-string p.name h) (Round-return p)

Each-member :
    (members : List MembersInfo)
    → Each (λ (i : MembersInfo). IsShort i.name) members
    → Each (λ i. Round (write_members_info i) read_members_info i) members
Each-member [] h = tt
Each-member (i ∷ members) (n, h) = (Round-members_info i n, Each-member members h)

pub Round-s_enter_room :
    (p : SEnterRoom)
    → IsInt p.room_id
    → IsShort p.room_name
    → length p.members < 65536
    → Each (λ (i : MembersInfo). IsShort i.name) p.members
    → Round (write_s_enter_room p) read_s_enter_room p
unfolding write_s_enter_room read_s_enter_room
Round-s_enter_room p h i j e =
    Round-then
      (λ s. read_word 4 >>= λ d. read_string >>= λ n. read_vector read_members_info >>= λ m.
        finish (record { members = m; success = s; room_id = d; room_name = n }))
      (Round-bool p.success)
      (Round-then
        (λ d. read_string >>= λ n. read_vector read_members_info >>= λ m.
          finish (record { members = m; success = p.success; room_id = d; room_name = n }))
        (Round-word 4 p.room_id h)
        (Round-then
          (λ n. read_vector read_members_info >>= λ m.
            finish
              (record { members = m; success = p.success; room_id = p.room_id; room_name = n }))
          (Round-string p.room_name i)
          (Round-then
            (λ m. finish (record {
              members = m;
              success = p.success;
              room_id = p.room_id;
              room_name = p.room_name;
            }))
            (Round-vector write_members_info read_members_info p.members j
              (Each-member p.members e))
            (Round-finish p))))
