-- ===== src/Rooms.antt =====
-- The chat rooms: Source/ChatServer/Room/Room.h, Room.cpp, RoomManager.h and RoomManager.cpp, over the
-- fields of Source/ChatServer/Session/ClientSession.h. A `Server` is the store of the shared objects:
-- sessions by their id and rooms by an address, with the packets made for each session, in order. What
-- a room's `JobQueue` runs is a `Job`, whose session is never null. The order in an `unordered_map` is that of insertion.
pub mod Handlers
pub mod Members
pub mod Effects
pub mod Sound
pub mod Ghost
pub mod Kept
pub mod Reach
mod Tests
use iocp_multi_threading_cha.Prelude.{
  ℕ, suc, Bool, true, false, ◌||◌, Option, none, some, List, [], ◌∷◌, ◌++◌, ◌==◌, if◌then◌else◌,
  length,
}
use iocp_multi_threading_cha.Session.{Bytes}
use iocp_multi_threading_cha.Prelude.{update}
use iocp_multi_threading_cha.Protocol.{
  RoomsInfo, MembersInfo, SEnterRoom, SChat, Message, s_enter_room, s_leave_room, s_room_chat,
  s_notice,
}

pub data Job : Type 0 where
  enter_job : (session : ℕ) → Job
  leave_job : (session : ℕ) → Job
  leave_and_enter_job : (session : ℕ) (target : ℕ) → Job
  chat_job : (session : ℕ) (message : Bytes) → Job

pub record ClientSession : Type 0 where
  pub player_id : ℕ
  pub player_name : Bytes
  pub authenticated : Bool
  pub room : Option ℕ
  pub last_heartbeat_tick : ℕ

pub record Room : Type 0 where
  pub room_id : ℕ
  pub room_name : Bytes
  pub members : List ℕ
  pub jobs : List Job

pub record Server : Type 0 where
  pub client : ℕ → ClientSession
  pub room : ℕ → Room
  pub next_room : ℕ  -- the first address without a room
  pub rooms : List (ℕ × ℕ)  -- `RoomManager::_rooms`: an id and the address of its room
  pub sessions : List ℕ  -- `Service::_sessions`
  pub next_player_id : ℕ  -- `GPlayerIdGenerator`
  pub sent : List (ℕ × Message)

-- "["
abbrev pub opening : Bytes
opening = 91 ∷ []

-- "] joined the room."
abbrev pub joined : Bytes
joined =
    93 ∷ 32 ∷ 106 ∷ 111 ∷ 105 ∷ 110 ∷ 101 ∷ 100 ∷ 32 ∷ 116 ∷ 104 ∷ 101 ∷ 32 ∷ 114 ∷ 111 ∷ 111 ∷ 109
    ∷ 46 ∷ []

-- "] left the room."
abbrev pub left : Bytes
left = 93 ∷ 32 ∷ 108 ∷ 101 ∷ 102 ∷ 116 ∷ 32 ∷ 116 ∷ 104 ∷ 101 ∷ 32 ∷ 114 ∷ 111 ∷ 111 ∷ 109 ∷ 46 ∷ []

-- "Lobby Channel 1"
abbrev pub lobby : Bytes
lobby = 76 ∷ 111 ∷ 98 ∷ 98 ∷ 121 ∷ 32 ∷ 67 ∷ 104 ∷ 97 ∷ 110 ∷ 110 ∷ 101 ∷ 108 ∷ 32 ∷ 49 ∷ []

-- "Chat Room 2"
abbrev pub second_room : Bytes
second_room = 67 ∷ 104 ∷ 97 ∷ 116 ∷ 32 ∷ 82 ∷ 111 ∷ 111 ∷ 109 ∷ 32 ∷ 50 ∷ []

-- "Free Talk 3"
abbrev pub third_room : Bytes
third_room = 70 ∷ 114 ∷ 101 ∷ 101 ∷ 32 ∷ 84 ∷ 97 ∷ 108 ∷ 107 ∷ 32 ∷ 51 ∷ []

abbrev pub mem : ℕ → List ℕ → Bool
mem x [] = false
mem x (y ∷ ys) = y == x || mem x ys

abbrev pub insert : ℕ → List ℕ → List ℕ
insert x ys = if mem x ys then ys else ys ++ (x ∷ [])

abbrev pub erase : ℕ → List ℕ → List ℕ
erase x [] = []
erase x (y ∷ ys) = if y == x then erase x ys else y ∷ erase x ys

abbrev pub set_room : ℕ → Option ℕ → Server → Server
set_room i at s = record s { client = update s.client i (record (s.client i) { room = at }) }

abbrev pub set_members : ℕ → List ℕ → Server → Server
set_members a ids s = record s { room = update s.room a (record (s.room a) { members = ids }) }

-- `session->Send(pkt.MakeSendBuffer())`: the packet is made for the session. One whose fields do not fit gives a null
-- buffer, which `Send` drops; that is decided in Protocol, not here.
abbrev pub post : ℕ → Message → Server → Server
post i p s = record s { sent = s.sent ++ ((i, p) ∷ []) }

unfoldable pub post_all : List ℕ → Message → Server → Server
post_all [] p s = s
post_all (i ∷ ids) p s = post_all ids p (post i p s)

-- `Room::Broadcast`.
unfoldable pub broadcast : ℕ → Message → Server → Server
unfolding post_all
broadcast a p s = post_all (s.room a).members p s

-- `room->PushJob(room, ...)`.
abbrev pub push_job : ℕ → Job → Server → Server
push_job a job s = record s {
  room = update s.room a (record (s.room a) { jobs = (s.room a).jobs ++ (job ∷ []) });
}

unfoldable pub member_names : Server → List ℕ → List MembersInfo
member_names s [] = []
member_names s (i ∷ ids) = record { name = (s.client i).player_name } ∷ member_names s ids

-- `Room::Enter`.
unfoldable pub enter : ℕ → ℕ → Server → Server
unfolding broadcast member_names
enter a i s =
    let inside = set_room i (some a) (set_members a (insert i (s.room a).members) s) in
    let reply : SEnterRoom = record {
      members = member_names inside (inside.room a).members;
      success = true;
      room_id = (s.room a).room_id;
      room_name = (s.room a).room_name;
    } in
    broadcast a (s_notice (opening ++ (s.client i).player_name ++ joined))
      (post i (s_enter_room reply) inside)

-- `session->GetRoom().get() == this`
abbrev pub is_at : Option ℕ → ℕ → Bool
is_at none a = false
is_at (some b) a = b == a

-- `Room::Leave`.
unfoldable pub leave : ℕ → ℕ → Server → Server
unfolding broadcast
leave a i s =
    let outside = set_members a (erase i (s.room a).members) s in
    let parted = if is_at (s.client i).room a then set_room i none outside else outside in
    broadcast a (s_notice (opening ++ (s.client i).player_name ++ left))
      (post i (s_leave_room true) parted)

-- `Room::LeaveAndEnter`.
unfoldable pub leave_and_enter : ℕ → ℕ → ℕ → Server → Server
unfolding leave
leave_and_enter a i target s = push_job target (enter_job i) (leave a i s)

-- `Room::HandleChat`.
unfoldable pub handle_chat : ℕ → ℕ → Bytes → Server → Server
unfolding broadcast
handle_chat a i message s =
    broadcast a (s_room_chat (record { sender_name = (s.client i).player_name; message = message }))
      s

-- `Job::Execute` in the room at an address.
unfoldable pub run_job : ℕ → Job → Server → Server
run_job a (enter_job i) s = enter a i s
run_job a (leave_job i) s = leave a i s
run_job a (leave_and_enter_job i target) s = leave_and_enter a i target s
run_job a (chat_job i message) s = handle_chat a i message s

-- `RoomManager::FindRoom`.
unfoldable pub find_room : ℕ → List (ℕ × ℕ) → Option ℕ
find_room id [] = none
find_room id ((key, a) ∷ rooms) = if key == id then some a else find_room id rooms

-- `RoomManager::CreateRoom`, with the address of the room.
unfoldable pub create_room : ℕ → Bytes → Server → ℕ × Server
unfolding find_room
create_room id name s = elim (find_room id s.rooms) [
  | some a ↦ (a, s)
  | none ↦ (
    s.next_room,
    record s {
      room =
          update s.room s.next_room
            (record { room_id = id; room_name = name; members = []; jobs = [] });
      next_room = suc s.next_room;
      rooms = s.rooms ++ ((id, s.next_room) ∷ []);
    },
  )
]

-- `RoomManager::GetOrCreateRoom`.
unfoldable pub get_or_create_room : ℕ → Bytes → Server → ℕ × Server
unfolding create_room find_room
get_or_create_room id name s = elim (find_room id s.rooms) [
  | some a ↦ (a, s)
  | none ↦ create_room id name s
]

-- `RoomManager::RemoveRoom`.
unfoldable pub remove_room : ℕ → List (ℕ × ℕ) → List (ℕ × ℕ)
remove_room id [] = []
remove_room id ((key, a) ∷ rooms) =
    let rest = remove_room id rooms in if key == id then rest else (key, a) ∷ rest

-- `RoomManager::Init`.
unfoldable pub init_rooms : Server → Server
unfolding create_room
init_rooms s =
    (create_room 3 third_room
      (create_room 2 second_room (create_room 1 lobby (record s { rooms = [] })).1).1).1

-- `RoomManager::GetRoomListInfo`.
unfoldable pub get_room_list_info : Server → List (ℕ × ℕ) → List RoomsInfo
get_room_list_info s [] = []
get_room_list_info s ((key, a) ∷ rooms) =
    record {
      room_id = (s.room a).room_id;
      room_name = (s.room a).room_name;
      user_count = length (s.room a).members;
    }
    ∷ get_room_list_info s rooms

unfoldable pub get_total_room_count : Server → ℕ
get_total_room_count s = length s.rooms
