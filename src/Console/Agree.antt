-- ===== src/Console/Agree.antt =====
-- When the room that the console client shows is the room that the server keeps for its session:
-- Source/ChatClient/Protocol/ClientPacketHandlerImpl.cpp, Source/ChatServer/Room/Room.cpp and the handlers
-- of Source/ChatServer/Protocol/PacketHandlerImpl.cpp.
use iocp_multi_threading_cha.Prelude.{
  ℕ, ◌≡◌, ◌∙◌, ◌⊎◌, inl, inr, refl, sym, ap, true, false, Option, none, some, List, [], ◌∷◌, ◌++◌,
  append_assoc, ◌==◌, ==_iff, if◌then◌else◌, update, Bool-cases, arith,
}
use iocp_multi_threading_cha.Protocol.{Message, s_room_chat}
use iocp_multi_threading_cha.Session.{Bytes}
use iocp_multi_threading_cha.Rooms.{
  Job, enter_job, leave_job, leave_and_enter_job, chat_job, Room, Server, push_job, enter, leave,
  broadcast, is_at, run_job, handle_chat, leave_and_enter, insert, erase,
}
use iocp_multi_threading_cha.Rooms.Effects.{
  to_each, post_all-sent, room-enter, client-enter, room-leave, client-leave, leave-room,
  enter-room, request_room-outside, equal,
}
use iocp_multi_threading_cha.Console.{Console}
use iocp_multi_threading_cha.Console.View.{
  inbox, receive_each, shown, shown-append, shown-aside, IsAside-chat, shown-enter, shown-leave,
}
use iocp_multi_threading_cha.Rooms.Handlers.{handle_c_leave_room, request_room}

-- The id of the room that the server keeps for a session; 0 is none.
abbrev pub number : (ℕ → Room) → Option ℕ → ℕ
number room none = 0
number room (some a) = (room a).room_id

pub number-push_job :
    (room : ℕ → Room) (a : ℕ) (job : Job) (o : Option ℕ)
    → number (update room a (record (room a) { jobs = (room a).jobs ++ (job ∷ []) })) o
      ≡ number room o
number-push_job room a job none = refl
number-push_job room a job (some b) = elim (Bool-cases (a == b)) [
  | inl same ↦ rw (number, same) (ap (λ c. (room c).room_id) ((==_iff a b).0 same))
  | inr other ↦ rw (number, other) refl
]

abbrev pub Agrees : Console → ℕ → Server → Type 0
Agrees w j s = shown w j s.sent ≡ number s.room (s.client j).room

number-update :
    (room : ℕ → Room) (a : ℕ) (members : List ℕ) (o : Option ℕ)
    → number (update room a (record (room a) { members = members })) o ≡ number room o
number-update room a members none = refl
number-update room a members (some b) = elim (Bool-cases (a == b)) [
  | inl same ↦ rw (number, same) (ap (λ c. (room c).room_id) ((==_iff a b).0 same))
  | inr other ↦ rw (number, other) refl
]

enter-Agrees : (w : Console) (a i j : ℕ) (s : Server) → Agrees w j s → Agrees w j (enter a i s)
enter-Agrees w a i j s h = shown-enter w a i j s ∙ sym server
  where
    server :
        number (enter a i s).room ((enter a i s).client j).room
        ≡ (if i == j then (s.room a).room_id else shown w j s.sent)
    server =
        ap (λ r. number r ((enter a i s).client j).room) (room-enter a i s)
        ∙ number-update s.room a (insert i (s.room a).members) ((enter a i s).client j).room
        ∙ ap (λ c. number s.room (c j).room) (client-enter a i s)
        ∙ elim (Bool-cases (i == j)) [ inl same ↦ rw (same) refl | inr other ↦ rw (other) (sym h) ]

-- A session that leaves has no other room.
abbrev pub IsCurrent : ℕ → ℕ → Server → Type 0
IsCurrent a i s = ((s.client i).room ≡ none) ⊎ (is_at (s.client i).room a ≡ true)

leave-Agrees :
    (w : Console) (a i j : ℕ) (s : Server)
    → ((i == j) ≡ true → IsCurrent a i s)
    → Agrees w j s
    → Agrees w j (leave a i s)
leave-Agrees w a i j s current h = shown-leave w a i j s ∙ sym server
  where
    parted :
        number s.room
          ((if is_at (s.client i).room a
              then update s.client i (record (s.client i) { room = none })
              else s.client)
            j).room
        ≡ (if i == j then 0 else shown w j s.sent)
    parted = elim (Bool-cases (i == j)) [
      | inl same ↦ elim (current same) [
        | inr here ↦ rw (here, same) refl
        | inl outside ↦
            let off : is_at (s.client i).room a ≡ false = ap (λ o. is_at o a) outside in
            let e : (s.client j).room ≡ none =
              ap (λ x. (s.client x).room) (sym ((==_iff i j).0 same)) ∙ outside in
            rw (off, same, e) refl
      ]
      | inr other ↦ elim (Bool-cases (is_at (s.client i).room a)) [
        | inl here ↦ rw (here, other) (sym h)
        | inr away ↦ rw (away, other) (sym h)
      ]
    ]

    server :
        number (leave a i s).room ((leave a i s).client j).room
        ≡ (if i == j then 0 else shown w j s.sent)
    server =
        ap (λ r. number r ((leave a i s).client j).room) (room-leave a i s)
        ∙ number-update s.room a (erase i (s.room a).members) ((leave a i s).client j).room
        ∙ ap (λ c. number s.room (c j).room) (client-leave a i s)
        ∙ parted

chat-Agrees :
    (w : Console) (a i j : ℕ) (message : Bytes) (s : Server)
    → Agrees w j s
    → Agrees w j (handle_chat a i message s)
unfolding handle_chat broadcast
chat-Agrees w a i j message s h =
    ap (λ (t : Server). shown w j t.sent) said
    ∙ shown-append w j s.sent (to_each (s.room a).members line)
    ∙ shown-aside (receive_each (inbox j s.sent) w) j (s.room a).members line
        (IsAside-chat (record { sender_name = (s.client i).player_name; message = message }))
    ∙ h
    ∙ sym (ap (λ (t : Server). number t.room (t.client j).room) said)
  where
    line : Message
    line = s_room_chat (record { sender_name = (s.client i).player_name; message = message })

    said : handle_chat a i message s ≡ record s { sent = s.sent ++ to_each (s.room a).members line }
    said = post_all-sent (s.room a).members line s

-- What a job has to find for session `j`: if it lets the session leave, this has no other room.
abbrev pub Finds : ℕ → ℕ → Job → Server → Type 0
Finds j a (enter_job i) s = Unit
Finds j a (leave_job i) s = (i == j) ≡ true → IsCurrent a i s
Finds j a (leave_and_enter_job i target) s = (i == j) ≡ true → IsCurrent a i s
Finds j a (chat_job i message) s = Unit

-- A job of a room keeps the agreement.
pub run_job-Agrees :
    (w : Console) (a j : ℕ) (job : Job) (s : Server)
    → Finds j a job s
    → Agrees w j s
    → Agrees w j (run_job a job s)
unfolding run_job leave_and_enter
run_job-Agrees w a j (enter_job i) s f h = enter-Agrees w a i j s h
run_job-Agrees w a j (leave_job i) s f h = leave-Agrees w a i j s f h
run_job-Agrees w a j (leave_and_enter_job i target) s f h =
    leave-Agrees w a i j s f h
    ∙ sym (number-push_job (leave a i s).room target (enter_job i) ((leave a i s).client j).room)
run_job-Agrees w a j (chat_job i message) s f h = chat-Agrees w a i j message s h

ask_to_leave :
    (a i : ℕ) (s : Server)
    → (s.client i).room ≡ some a
    → handle_c_leave_room i s ≡ push_job a (leave_job i) s
unfolding handle_c_leave_room
ask_to_leave a i s inside = rw (handle_c_leave_room, inside) refl

room-left :
    (a i : ℕ) (s : Server) → (s.client i).room ≡ some a → ((leave a i s).client i).room ≡ none
room-left a i s inside =
    let here : is_at (s.client i).room a ≡ true = ap (λ o. is_at o a) inside ∙ equal a in
    ap (λ c. (c i).room) (client-leave a i s) ∙ rw (here, equal i) refl

room-elsewhere :
    (a b i : ℕ) (s : Server)
    → (s.client i).room ≡ some b
    → (b == a) ≡ false
    → ((leave a i s).client i).room ≡ some b
room-elsewhere a b i s inside apart =
    let away : is_at (s.client i).room a ≡ false = ap (λ o. is_at o a) inside ∙ apart in
    ap (λ c. (c i).room) (client-leave a i s) ∙ rw (away) inside

-- Two requests to leave a room, and between the two jobs a request to enter another, whose job runs before
-- the second: the server keeps the session in the other room, the client shows none.
pub leave_twice :
    (w : Console) (a b i : ℕ) (s : Server)
    → (s.client i).room ≡ some a
    → (a == b) ≡ false
    → let asked = handle_c_leave_room i (handle_c_leave_room i s) in
      let later = request_room i b (run_job a (leave_job i) asked) in
      let over = run_job a (leave_job i) (run_job b (enter_job i) later) in
      ((asked.room a).jobs ≡ (s.room a).jobs ++ (leave_job i ∷ leave_job i ∷ []))
      × ((later.room b).jobs ≡ (s.room b).jobs ++ (enter_job i ∷ []))
      × ((over.client i).room ≡ some b)
      × (shown w i over.sent ≡ 0)
unfolding run_job
leave_twice w a b i s inside apart = (
  ap (λ t. (t.room a).jobs) twice
      ∙ rw (equal a) (append_assoc (s.room a).jobs (leave_job i ∷ []) (leave_job i ∷ [])),
  ap (λ t. (t.room b).jobs) wanted ∙ rw (equal b) (ap (λ r. r.jobs ++ (enter_job i ∷ [])) other),
  room-elsewhere a b i (enter b i later) (enter-room b i later).2 (ground (arith, apart)),
  shown-leave w a i i (enter b i later) ∙ rw (equal i) refl,
)
  where
    asked : Server
    asked = handle_c_leave_room i (handle_c_leave_room i s)

    later : Server
    later = request_room i b (leave a i asked)

    twice : asked ≡ push_job a (leave_job i) (push_job a (leave_job i) s)
    twice =
        ap (handle_c_leave_room i) (ask_to_leave a i s inside)
        ∙ ask_to_leave a i (push_job a (leave_job i) s) inside

    twice_pushed : (push_job a (leave_job i) (push_job a (leave_job i) s)).room b ≡ s.room b
    twice_pushed = rw (apart) refl

    other : (leave a i asked).room b ≡ s.room b
    other = (leave-room a i asked).1 b apart ∙ ap (λ (t : Server). t.room b) twice ∙ twice_pushed

    wanted : later ≡ push_job b (enter_job i) (leave a i asked)
    wanted =
        request_room-outside b i (leave a i asked)
          (room-left a i asked (ap (λ (t : Server). (t.client i).room) twice ∙ inside))
