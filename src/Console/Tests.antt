-- ===== src/Console/Tests.antt =====
-- Lines of a user, a client that a room's jobs answer, and witnesses.
use iocp_multi_threading_cha.Prelude.{
  ℕ, ◌≡◌, refl, true, false, Option, none, some, List, [], ◌∷◌, ◌++◌, length, replicate, codes,
  arith, if◌then◌else◌, ◌==◌,
}
use iocp_multi_threading_cha.Console.Words.{extract_int, word, after_digits}
use iocp_multi_threading_cha.Decimal.{skip_space, value}
use iocp_multi_threading_cha.Protocol.{Message, c_enter_room}
use iocp_multi_threading_cha.Session.{Bytes, Session, success, Kernel, send}
use iocp_multi_threading_cha.Rooms.{
  leave_job, enter_job, Room, Server, run_job, init_rooms, get_or_create_room, create_room,
  find_room,
}
use iocp_multi_threading_cha.Rooms.Handlers.{handle_c_leave_room, request_room, handle_c_enter_room}
use iocp_multi_threading_cha.Console.{
  Console, on_line, on_text, on_command, on_join, on_flood, flood_from, read_lines,
}
use iocp_multi_threading_cha.Console.Typed.{
  flood, typed, messages, announced, transmit_each, on_line-typed,
}
use iocp_multi_threading_cha.Console.View.{shown}
use iocp_multi_threading_cha.Console.Agree.{Agrees, leave_twice}
use iocp_multi_threading_cha.Console.Runs.{start, next, Orderly-Agrees}
use iocp_multi_threading_cha.Rooms.Reach.{enters, executes}
use iocp_multi_threading_cha.Rooms.Sound.{take_job}

abbrev kernel : Kernel
kernel = record {
  wsa_send = λ _. success;
  wsa_recv = λ _ _. success;
  disconnect_ex = success;
  stack_spans = record {
    first = record { buf = 0; len = 0 };
    second = record { buf = 0; len = 0 };
  };
}

abbrev session : Session
session = record {
  connected = true;
  recv_buffer = record { buffer = replicate 8 0; capacity = 8; read_pos = 0; write_pos = 0 };
  send_queue = [];
  is_sending = true;
  send_offset = 0;
  send_buffers = [];
  connect_owner = false;
  disconnect_owner = false;
  recv_owner = true;
  send_owner = true;
}

abbrev packet : Message → Option Bytes
packet p = some []

abbrev console : Console
console = record {
  server_session = record {
    player_name = codes "ann";
    is_logged_in = true;
    current_room_id = 0;
    session = session;
  };
  is_running = true;
  sent = [];
  printed = [];
}

-- A number that does not fit is held at the largest `int32`, and the name after it is not read.
large :
    (on_join kernel packet (codes " 9999999999 x") console).sent
    ≡ c_enter_room (record { room_id = 2147483647; room_name = [] }) ∷ []
unfolding on_join extract_int word skip_space value after_digits
large = refl

-- `/flood` without a number sends fifty packets, with a word for a number none.
floods :
    (length (on_flood kernel packet [] console).sent ≡ 50)
    × (length (on_flood kernel packet (codes " x") console).sent ≡ 0)
unfolding on_flood flood_from extract_int skip_space
floods = (refl, refl)

lines : List Bytes
lines = codes "/join 7 dev" ∷ codes "/quit" ∷ codes "/list" ∷ []

one_message : length (read_lines kernel packet lines console).sent ≡ 1
unfolding lines read_lines on_line on_text on_command on_join extract_int word skip_space value
    after_digits send
one_message = refl

on_line-typed_example :
    on_line kernel packet (typed (flood 3)) console
    ≡ transmit_each kernel packet
        (messages (flood 3))
        (record console { printed = console.printed ++ announced (flood 3) })
on_line-typed_example =
    on_line-typed kernel packet (flood 3) console refl (omega arith, omega arith)

-- Two rooms, and session 7 in the first.
abbrev room : ℕ → ℕ → Room
room i id = record { room_id = id; room_name = codes "room"; members = i ∷ []; jobs = [] }

abbrev server : Option ℕ → Server
server at = record {
  client = λ i. record {
    player_id = 1;
    player_name = codes "ann";
    authenticated = true;
    room = at;
    last_heartbeat_tick = 0;
  };
  room = λ a. if a == 0 then room 7 1 else room 8 2;
  next_room = 2;
  rooms = (1, 0) ∷ (2, 1) ∷ [];
  sessions = 7 ∷ [];
  next_player_id = 2;
  sent = [];
}

abbrev name_of : ℕ → Bytes
name_of n = n ∷ []

-- A server whose rooms are made, session 7 asks for the first of them, and the room lets it enter.
abbrev built : Server
built = init_rooms (server none)

abbrev asked : Server
asked = handle_c_enter_room name_of 7 (record { room_id = 1; room_name = [] }) built

one_job : (asked.room 2).jobs ≡ enter_job 7 ∷ []
unfolding handle_c_enter_room request_room get_or_create_room init_rooms create_room find_room
one_job = refl

Orderly-Agrees_example : Agrees console 7 (run_job 2 (enter_job 7) (take_job 2 [] asked))
Orderly-Agrees_example =
    Orderly-Agrees name_of 7 console (run_job 2 (enter_job 7) (take_job 2 [] asked)) refl (
      next asked _
        (next built asked (start (server none) (λ i. refl) idle refl)
          (enters 7 (record { room_id = 1; room_name = [] }) built) tt)
        (executes 2 (enter_job 7) [] asked one_job) tt)
  where
    idle : (a : ℕ) → ((server none).room a).jobs ≡ []
    idle a = ground arith

leave_twice_example :
    let asked = handle_c_leave_room 7 (handle_c_leave_room 7 (server (some 0))) in
    let later = request_room 7 1 (run_job 0 (leave_job 7) asked) in
    let over = run_job 0 (leave_job 7) (run_job 1 (enter_job 7) later) in
    ((asked.room 0).jobs ≡ [] ++ (leave_job 7 ∷ leave_job 7 ∷ []))
    × ((later.room 1).jobs ≡ [] ++ (enter_job 7 ∷ []))
    × ((over.client 7).room ≡ some 1)
    × (shown console 7 over.sent ≡ 0)
leave_twice_example = leave_twice console 0 1 7 (server (some 0)) refl refl
