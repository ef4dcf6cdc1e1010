-- ===== src/Rooms/Reach.antt =====
-- Every state of the rooms that the program reaches: the packet handlers of
-- Source/ChatServer/Protocol/PacketHandlerImpl.cpp, what a disconnect does, and the jobs of
-- Source/ChatServer/Room/Room.cpp, in any order.
use iocp_multi_threading_cha.Prelude.{
  ℕ, ◌<◌, ◌≡◌, ◌∙◌, refl, ap, inl, inr, none, List, [], ◌∷◌, ◌==◌, ==_iff, update, Bool-cases,
  Option-cases, arith,
}
use iocp_multi_threading_cha.Session.{Bytes}
use iocp_multi_threading_cha.Protocol.{CEnterRoom}
use iocp_multi_threading_cha.Rooms.{
  Job, enter_job, leave_job, leave_and_enter_job, chat_job, Server, set_room, push_job, run_job,
}
use iocp_multi_threading_cha.Rooms.{init_rooms, ClientSession, lobby, second_room, third_room}
use iocp_multi_threading_cha.Rooms.Handlers.{
  handle_c_login, handle_c_heartbeat, handle_c_room_list, request_room, handle_c_enter_room,
  handle_c_leave_room, handle_c_room_chat, handle_c_global_chat, on_disconnected,
}
use iocp_multi_threading_cha.Rooms.Sound.{
  Sound, Same-Sound, push_job-Sound, set_room-Sound, create_room-Sound, get_or_create_room-Sound,
  take_job, take_job-Sound,
}
use iocp_multi_threading_cha.Rooms.Kept.{run_job-Sound, post_all-Same}

request_room-Sound :
    (i target : ℕ) (s : Server) → target < s.next_room → Sound s → Sound (request_room i target s)
unfolding request_room
request_room-Sound i target s small h = elim (Option-cases (s.client i).room) [
  | inl outside ↦
      let e : request_room i target s ≡ push_job target (enter_job i) s =
        rw (request_room, outside) refl in
      rw (e) (push_job-Sound target (enter_job i) s small tt h)
  | inr (old, inside) ↦ elim (Bool-cases (old == target)) [
    | inl there ↦
        let e : request_room i target s ≡ s = rw (request_room, inside, there) refl in rw (e) h
    | inr other ↦
        let e : request_room i target s ≡ push_job old (leave_and_enter_job i target) s =
          rw (request_room, inside, other) refl in
        rw (e)
          (push_job-Sound old (leave_and_enter_job i target) s (h.pointed i old inside) small h)
  ]
]

handle_c_enter_room-Sound :
    (to_string : ℕ → Bytes) (i : ℕ) (p : CEnterRoom) (s : Server)
    → Sound s
    → Sound (handle_c_enter_room to_string i p s)
unfolding handle_c_enter_room
handle_c_enter_room-Sound to_string i p s h =
    let (small, sound) = get_or_create_room-Sound p.room_id _ s h in
    request_room-Sound i _ _ small sound

handle_c_leave_room-Sound : (i : ℕ) (s : Server) → Sound s → Sound (handle_c_leave_room i s)
unfolding handle_c_leave_room
handle_c_leave_room-Sound i s h = elim (Option-cases (s.client i).room) [
  | inl outside ↦
      let e : handle_c_leave_room i s ≡ s = rw (handle_c_leave_room, outside) refl in rw (e) h
  | inr (a, inside) ↦
      let e : handle_c_leave_room i s ≡ push_job a (leave_job i) s =
        rw (handle_c_leave_room, inside) refl in
      rw (e) (push_job-Sound a (leave_job i) s (h.pointed i a inside) tt h)
]

handle_c_room_chat-Sound :
    (i : ℕ) (message : Bytes) (s : Server) → Sound s → Sound (handle_c_room_chat i message s)
unfolding handle_c_room_chat
handle_c_room_chat-Sound i message s h = elim (Option-cases (s.client i).room) [
  | inl outside ↦
      let e : handle_c_room_chat i message s ≡ s = rw (handle_c_room_chat, outside) refl in rw (e) h
  | inr (a, inside) ↦
      let e : handle_c_room_chat i message s ≡ push_job a (chat_job i message) s =
        rw (handle_c_room_chat, inside) refl in
      rw (e) (push_job-Sound a (chat_job i message) s (h.pointed i a inside) tt h)
]

on_disconnected-Sound : (i : ℕ) (s : Server) → Sound s → Sound (on_disconnected i s)
unfolding on_disconnected
on_disconnected-Sound i s h = elim (Option-cases (s.client i).room) [
  | inl outside ↦ let e : on_disconnected i s ≡ s = rw (on_disconnected, outside) refl in rw (e) h
  | inr (a, inside) ↦
      let e : on_disconnected i s ≡ set_room i none (push_job a (leave_job i) s) =
        rw (on_disconnected, inside) refl in
      rw (e) (
        set_room-Sound i (push_job a (leave_job i) s)
          (push_job-Sound a (leave_job i) s (h.pointed i a inside) tt h))
]

pub room-update :
    (client : ℕ → ClientSession) (i j : ℕ) (c : ClientSession)
    → c.room ≡ (client i).room
    → (update client i c j).room ≡ (client j).room
room-update client i j c e = elim (Bool-cases (i == j)) [
  | inl same ↦ rw (same) (e ∙ ap (λ x. (client x).room) ((==_iff i j).0 same))
  | inr other ↦ rw (other) refl
]

module _ (to_string : ℕ → Bytes) where
  pub data Step : Server → Server → Type 0 where
    registered : (ids : List ℕ) (s : Server) → Step s (record s { sessions = ids })
    logs_in : (i : ℕ) (name : Bytes) (s : Server) → Step s (handle_c_login i name s)
    beats : (i now later : ℕ) (s : Server) → Step s (handle_c_heartbeat i now later s)
    lists : (i : ℕ) (s : Server) → Step s (handle_c_room_list i s)
    enters : (i : ℕ) (p : CEnterRoom) (s : Server) → Step s (handle_c_enter_room to_string i p s)
    leaves : (i : ℕ) (s : Server) → Step s (handle_c_leave_room i s)
    chats : (i : ℕ) (message : Bytes) (s : Server) → Step s (handle_c_room_chat i message s)
    broadcasts : (i : ℕ) (message : Bytes) (s : Server) → Step s (handle_c_global_chat i message s)
    disconnects : (i : ℕ) (s : Server) → Step s (on_disconnected i s)
    executes :
        (a : ℕ) (job : Job) (rest : List Job) (s : Server)
        → (s.room a).jobs ≡ job ∷ rest
        → Step s (run_job a job (take_job a rest s))

  -- The states from `RoomManager::Init` on.
  pub data Reach : Server → Type 0 where
    start :
        (s : Server)
        → ((i : ℕ) → (s.client i).room ≡ none)
        → ((a : ℕ) → (s.room a).jobs ≡ [])
        → Reach (init_rooms s)
    next : (s s' : Server) → Reach s → Step s s' → Reach s'

  Step-Sound : (s s' : Server) → Step s s' → Sound s → Sound s'
  unfolding handle_c_login handle_c_heartbeat handle_c_room_list handle_c_leave_room
      handle_c_room_chat handle_c_global_chat
  Step-Sound s _ (registered ids _) h =
      Same-Sound s _ (record { client = λ i. refl; room = λ a. refl; next = refl; rooms = refl }) h
  Step-Sound s _ (logs_in i name _) h =
      Same-Sound s (handle_c_login i name s)
        (record {
          client = λ j. room-update s.client i j _ refl;
          room = λ a. refl;
          next = refl;
          rooms = refl;
        })
        h
  Step-Sound s _ (beats i now later _) h =
      Same-Sound s (handle_c_heartbeat i now later s)
        (record {
          client = λ j. room-update s.client i j _ refl;
          room = λ a. refl;
          next = refl;
          rooms = refl;
        })
        h
  Step-Sound s _ (lists i _) h =
      Same-Sound s (handle_c_room_list i s)
        (record { client = λ i. refl; room = λ a. refl; next = refl; rooms = refl }) h
  Step-Sound s _ (enters i p _) h = handle_c_enter_room-Sound to_string i p s h
  Step-Sound s _ (leaves i _) h = handle_c_leave_room-Sound i s h
  Step-Sound s _ (chats i message _) h = handle_c_room_chat-Sound i message s h
  Step-Sound s _ (broadcasts i message _) h =
      Same-Sound s (handle_c_global_chat i message s) (post_all-Same s.sessions _ s) h
  Step-Sound s _ (disconnects i _) h = on_disconnected-Sound i s h
  Step-Sound s _ (executes a job rest _ e) h =
      let (small, goes, sound) = take_job-Sound a job rest s e h in
      run_job-Sound a job (take_job a rest s) small goes sound

  init_rooms-Sound :
      (s : Server)
      → ((i : ℕ) → (s.client i).room ≡ none)
      → ((a : ℕ) → (s.room a).jobs ≡ [])
      → Sound (init_rooms s)
  unfolding init_rooms
  init_rooms-Sound s outside idle =
      let (_, one) = create_room-Sound 1 lobby (record s { rooms = [] }) empty in
      let (_, two) = create_room-Sound 2 second_room _ one in
      (create_room-Sound 3 third_room _ two).1
    where
      empty : Sound (record s { rooms = [] })
      empty = record {
        placed = λ i a p. absurd (ground (arith, outside i, p));
        pointed = λ i a p. absurd (ground (arith, outside i, p));
        listed = λ id a p. absurd (ground (arith, p));
        idle = λ a p. idle a;
        going = λ a. rw (idle a) tt;
      }

  -- From RoomManager::Init on, in whatever order packets are handled, sessions disconnect and the rooms run
  -- their jobs: a session's room has the session among its members; sessions, waiting jobs and the
  -- table name only rooms that exist; and the table has each room under the room's own id.
  pub Reach-Sound : (s : Server) → Reach s → Sound s
  Reach-Sound _ (start s outside idle) = init_rooms-Sound s outside idle
  Reach-Sound _ (next s s' r step) = Step-Sound s s' step (Reach-Sound s r)
