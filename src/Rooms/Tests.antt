-- ===== src/Rooms/Tests.antt =====
-- Two empty rooms and a session that is in neither.
use iocp_multi_threading_cha.Prelude.{ℕ, ◌+◌, ◌≡◌, refl, true, none, some, [], ◌∷◌, ◌++◌}
use iocp_multi_threading_cha.Rooms.{
  enter_job, ClientSession, Server, mem, run_job, init_rooms, get_or_create_room, create_room,
  find_room,
}
use iocp_multi_threading_cha.Rooms.Handlers.{request_room, handle_c_enter_room}
use iocp_multi_threading_cha.Session.{Bytes}
use iocp_multi_threading_cha.Protocol.{CEnterRoom}
use iocp_multi_threading_cha.Rooms.Sound.{Sound, take_job}
use iocp_multi_threading_cha.Rooms.Reach.{enters, executes, start, next, Reach-Sound}
use iocp_multi_threading_cha.Rooms.Effects.{request_room-twice}

abbrev stranger : ClientSession
stranger = record {
  player_id = 1000;
  player_name = 98 ∷ 111 ∷ 98 ∷ [];
  authenticated = true;
  room = none;
  last_heartbeat_tick = 0;
}

abbrev house : Server
house = record {
  client = λ i. stranger;
  room = λ a. record { room_id = a + 1; room_name = []; members = []; jobs = [] };
  next_room = 2;
  rooms = (1, 0) ∷ (2, 1) ∷ [];
  sessions = 7 ∷ [];
  next_player_id = 1001;
  sent = [];
}

-- Before `RoomManager::Init`.
abbrev unbuilt : Server
unbuilt = record house {
  room = λ a. record { room_id = 0; room_name = []; members = []; jobs = [] };
  next_room = 0;
  rooms = [];
}

abbrev room_1 : CEnterRoom
room_1 = record { room_id = 1; room_name = [] }

abbrev name_of : ℕ → Bytes
name_of n = n ∷ []

-- Session 7 asks for the lobby.
abbrev asked : Server
asked = handle_c_enter_room name_of 7 room_1 (init_rooms unbuilt)

one_job : (asked.room 0).jobs ≡ enter_job 7 ∷ []
unfolding handle_c_enter_room request_room get_or_create_room init_rooms create_room find_room
one_job = refl

Reach-Sound_example : Sound (run_job 0 (enter_job 7) (take_job 0 [] asked))
Reach-Sound_example = Reach-Sound name_of (run_job 0 (enter_job 7) (take_job 0 [] asked)) (
    next asked _
      (next (init_rooms unbuilt) asked (start unbuilt (λ i. refl) (λ a. refl))
        (enters 7 room_1 (init_rooms unbuilt)))
      (executes 0 (enter_job 7) [] asked one_job))

request_room-twice_example :
    let asked = request_room 7 1 (request_room 7 0 house) in
    let b_last = run_job 1 (enter_job 7) (run_job 0 (enter_job 7) asked) in
    let a_last = run_job 0 (enter_job 7) (run_job 1 (enter_job 7) asked) in
    ((asked.room 0).jobs ≡ (house.room 0).jobs ++ (enter_job 7 ∷ []))
    × ((asked.room 1).jobs ≡ (house.room 1).jobs ++ (enter_job 7 ∷ []))
    × ((mem 7 (b_last.room 0).members ≡ true)
        × (mem 7 (b_last.room 1).members ≡ true)
        × ((b_last.client 7).room ≡ some 1))
    × ((mem 7 (a_last.room 1).members ≡ true)
        × (mem 7 (a_last.room 0).members ≡ true)
        × ((a_last.client 7).room ≡ some 0))
request_room-twice_example = request_room-twice 0 1 7 house refl refl
