-- ===== src/Console/Runs.antt =====
-- The room that a console client shows and the room that the server keeps for its session, over whole runs of
-- the server: the handlers of Source/ChatServer/Protocol/PacketHandlerImpl.cpp, the jobs of
-- Source/ChatServer/Room/Room.cpp and Source/ChatClient/Protocol/ClientPacketHandlerImpl.cpp.
use iocp_multi_threading_cha.Prelude.{
  ℕ, suc, length, ◌%◌, ◌<◌, ◌≡◌, ◌∙◌, inl, inr, refl, sym, ap, true, false, Option, none, some,
  List, [], ◌∷◌, ◌++◌, ◌==◌, ==_iff, if◌then◌else◌, update, Bool-cases, Option-cases, arith,
}
use iocp_multi_threading_cha.Protocol.{
  Message, SLogin, RoomsInfo, SChat, s_login, s_heartbeat, s_room_list, s_global_chat,
}
use iocp_multi_threading_cha.Session.{Bytes}
use iocp_multi_threading_cha.Rooms.{
  ClientSession, Job, enter_job, leave_job, leave_and_enter_job, chat_job, Room, Server, push_job,
  post, set_room, init_rooms, create_room, get_or_create_room, find_room,
}
use iocp_multi_threading_cha.Rooms.Effects.{to_each, post_all-sent}
use iocp_multi_threading_cha.Rooms.Handlers.{
  welcome, room_prefix, handle_c_login, handle_c_heartbeat, handle_c_room_list, request_room,
  handle_c_enter_room, handle_c_leave_room, handle_c_room_chat, handle_c_global_chat,
  on_disconnected,
}
use iocp_multi_threading_cha.Rooms.Sound.{Sound, take_job}
use iocp_multi_threading_cha.Rooms.Reach as Rooms
use iocp_multi_threading_cha.Rooms.Reach.{
  Step, registered, logs_in, beats, lists, enters, leaves, chats, broadcasts, disconnects, executes,
  Reach, room-update, Reach-Sound,
}
use iocp_multi_threading_cha.Console.{Console, handle}
use iocp_multi_threading_cha.Console.View.{
  inbox, receive_each, shown, shown-append, shown-aside, IsAside,
}
use iocp_multi_threading_cha.Console.Agree.{number, number-push_job, Agrees, Finds, run_job-Agrees}

IsAside-login : (p : SLogin) → IsAside (s_login p)
unfolding handle
IsAside-login p w = ground arith

IsAside-heartbeat : (tick : ℕ) → IsAside (s_heartbeat tick)
unfolding handle
IsAside-heartbeat tick w = ground arith

IsAside-room_list : (l : List RoomsInfo) → IsAside (s_room_list l)
unfolding handle
IsAside-room_list l w = ground arith

IsAside-global_chat : (p : SChat) → IsAside (s_global_chat p)
unfolding handle
IsAside-global_chat p w = ground arith

module _ (w : Console) (j : ℕ) where
  -- What is sent besides, to however many.
  aside-Agrees :
      (ids : List ℕ) (p : Message) (s : Server)
      → IsAside p
      → Agrees w j s
      → Agrees w j (record s { sent = s.sent ++ to_each ids p })
  aside-Agrees ids p s q h =
      shown-append w j s.sent (to_each ids p)
      ∙ shown-aside (receive_each (inbox j s.sent) w) j ids p q
      ∙ h

  -- The agreement is about the room of the session alone.
  client-Agrees :
      (s s' : Server)
      → s'.sent ≡ s.sent
      → s'.room ≡ s.room
      → (s'.client j).room ≡ (s.client j).room
      → Agrees w j s
      → Agrees w j s'
  client-Agrees s s' sent room at h =
      ap (shown w j) sent
      ∙ h
      ∙ ap (number s.room) (sym at)
      ∙ ap (λ r. number r (s'.client j).room) (sym room)

  -- A reply beside a change of the session's other fields.
  reply-Agrees :
      (i : ℕ) (c : ClientSession) (n : ℕ) (p : Message) (s : Server)
      → c.room ≡ (s.client i).room
      → IsAside p
      → Agrees w j s
      → Agrees w j (post i p (record s { client = update s.client i c; next_player_id = n }))
  reply-Agrees i c n p s same q h =
      let changed : Server = record s { client = update s.client i c; next_player_id = n } in
      aside-Agrees (i ∷ []) p changed q
        (client-Agrees s changed refl refl (room-update s.client i j c same) h)

  push_job-Agrees : (a : ℕ) (job : Job) (s : Server) → Agrees w j s → Agrees w j (push_job a job s)
  push_job-Agrees a job s h = h ∙ sym (number-push_job s.room a job (s.client j).room)

  request_room-Agrees :
      (i target : ℕ) (s : Server) → Agrees w j s → Agrees w j (request_room i target s)
  unfolding request_room
  request_room-Agrees i target s h = elim (Option-cases (s.client i).room) [
    | inl outside ↦
        let e : request_room i target s ≡ push_job target (enter_job i) s =
          rw (request_room, outside) refl in
        rw (e) (push_job-Agrees target (enter_job i) s h)
    | inr (old, inside) ↦ elim (Bool-cases (old == target)) [
      | inl there ↦
          let e : request_room i target s ≡ s = rw (request_room, inside, there) refl in rw (e) h
      | inr other ↦
          let e : request_room i target s ≡ push_job old (leave_and_enter_job i target) s =
            rw (request_room, inside, other) refl in
          rw (e) (push_job-Agrees old (leave_and_enter_job i target) s h)
    ]
  ]

  -- A new room takes an address that no session has.
  fresh-number :
      (room : ℕ → Room) (next : ℕ) (new : Room) (o : Option ℕ)
      → ((a : ℕ) → o ≡ some a → a < next)
      → number (update room next new) o ≡ number room o
  fresh-number room next new none small = refl
  fresh-number room next new (some a) small =
      let apart : (next == a) ≡ false = ground (arith, small a refl) in rw (number, apart) refl

  get_or_create_room-Agrees :
      (id : ℕ) (name : Bytes) (s : Server)
      → Sound s
      → Agrees w j s
      → Agrees w j (get_or_create_room id name s).1
  unfolding get_or_create_room create_room
  get_or_create_room-Agrees id name s sound h = elim (Option-cases (find_room id s.rooms)) [
    | inl missing ↦
        let created : (get_or_create_room id name s).1 ≡ (create_room id name s).1 =
          rw (get_or_create_room, missing) refl in
        let new : (create_room id name s).1 ≡ record s {
          room =
              update s.room s.next_room
                (record { room_id = id; room_name = name; members = []; jobs = [] });
          next_room = suc s.next_room;
          rooms = s.rooms ++ ((id, s.next_room) ∷ []);
        } =
          rw (create_room, missing) refl in
        rw (created, new)
          (h ∙ sym (fresh-number s.room s.next_room _ (s.client j).room (λ a. sound.pointed j a)))
    | inr (a, there) ↦ rw (get_or_create_room, there) h
  ]

  leave_room-Agrees : (i : ℕ) (s : Server) → Agrees w j s → Agrees w j (handle_c_leave_room i s)
  unfolding handle_c_leave_room
  leave_room-Agrees i s h = elim (Option-cases (s.client i).room) [
    | inl outside ↦
        let e : handle_c_leave_room i s ≡ s = rw (handle_c_leave_room, outside) refl in rw (e) h
    | inr (a, inside) ↦
        let e : handle_c_leave_room i s ≡ push_job a (leave_job i) s =
          rw (handle_c_leave_room, inside) refl in
        rw (e) (push_job-Agrees a (leave_job i) s h)
  ]

  room_chat-Agrees :
      (i : ℕ) (message : Bytes) (s : Server)
      → Agrees w j s
      → Agrees w j (handle_c_room_chat i message s)
  unfolding handle_c_room_chat
  room_chat-Agrees i message s h = elim (Option-cases (s.client i).room) [
    | inl outside ↦
        let e : handle_c_room_chat i message s ≡ s = rw (handle_c_room_chat, outside) refl in
        rw (e) h
    | inr (a, inside) ↦
        let e : handle_c_room_chat i message s ≡ push_job a (chat_job i message) s =
          rw (handle_c_room_chat, inside) refl in
        rw (e) (push_job-Agrees a (chat_job i message) s h)
  ]

  -- Another session disconnects.
  disconnected-Agrees :
      (i : ℕ) (s : Server) → (i == j) ≡ false → Agrees w j s → Agrees w j (on_disconnected i s)
  unfolding on_disconnected
  disconnected-Agrees i s other h = elim (Option-cases (s.client i).room) [
    | inl outside ↦ let e : on_disconnected i s ≡ s = rw (on_disconnected, outside) refl in rw (e) h
    | inr (a, inside) ↦
        let e : on_disconnected i s ≡ set_room i none (push_job a (leave_job i) s) =
          rw (on_disconnected, inside) refl in
        rw (e) (
          client-Agrees (push_job a (leave_job i) s) (set_room i none (push_job a (leave_job i) s))
            refl refl (rw (other) refl) (push_job-Agrees a (leave_job i) s h))
  ]

  taken-number :
      (a : ℕ) (rest : List Job) (room : ℕ → Room) (o : Option ℕ)
      → number (update room a (record (room a) { jobs = rest })) o ≡ number room o
  taken-number a rest room none = refl
  taken-number a rest room (some b) = elim (Bool-cases (a == b)) [
    | inl same ↦ rw (number, same) (ap (λ c. (room c).room_id) ((==_iff a b).0 same))
    | inr other ↦ rw (number, other) refl
  ]

module _ (to_string : ℕ → Bytes) (j : ℕ) where
  -- What a step has to keep to: session `j` does not disconnect, and a job that lets it leave finds it in this room
  -- or in none.
  abbrev pub InOrder : (s s' : Server) → Step to_string s s' → Type 0
  InOrder _ _ (disconnects i s) = (i == j) ≡ false
  InOrder _ _ (executes a job rest s e) = Finds j a job (take_job a rest s)
  InOrder _ _ _ = Unit

  -- Runs of the server from `RoomManager::Init` on, with nothing sent yet.
  pub data Orderly : Server → Type 0 where
    start :
        (s : Server)
        → ((i : ℕ) → (s.client i).room ≡ none)
        → ((a : ℕ) → (s.room a).jobs ≡ [])
        → s.sent ≡ []
        → Orderly (init_rooms s)
    next : (s s' : Server) → Orderly s → (st : Step to_string s s') → InOrder s s' st → Orderly s'

  Orderly-Reach : (s : Server) → Orderly s → Reach to_string s
  Orderly-Reach _ (start s outside idle unsent) = Rooms.start s outside idle
  Orderly-Reach _ (next s s' o st f) = Rooms.next s s' (Orderly-Reach s o) st

  Step-Agrees :
      (w : Console) (s s' : Server) (st : Step to_string s s')
      → InOrder s s' st
      → Sound s
      → Agrees w j s
      → Agrees w j s'
  unfolding handle_c_login handle_c_heartbeat handle_c_room_list handle_c_enter_room
      handle_c_global_chat
  Step-Agrees w s _ (registered ids _) f sound h = h
  Step-Agrees w s _ (logs_in i name _) f sound h =
      let reply : SLogin = record {
        success = true;
        player_id = s.next_player_id;
        name = name;
        message = welcome;
      } in
      reply-Agrees w j i
        (record (s.client i) {
          player_id = s.next_player_id;
          player_name = name;
          authenticated = true;
        })
        (suc s.next_player_id % 18446744073709551616) (s_login reply) s refl (IsAside-login reply) h
  Step-Agrees w s _ (beats i now later _) f sound h =
      reply-Agrees w j i (record (s.client i) { last_heartbeat_tick = now }) s.next_player_id
        (s_heartbeat later) s refl (IsAside-heartbeat later) h
  Step-Agrees w s _ (lists i _) f sound h = aside-Agrees w j (i ∷ []) _ s (IsAside-room_list _) h
  Step-Agrees w s _ (enters i p _) f sound h =
      let name =
        if length p.room_name == 0 then room_prefix ++ to_string p.room_id else p.room_name in
      let got = get_or_create_room p.room_id name s in
      request_room-Agrees w j i got.0 got.1 (get_or_create_room-Agrees w j p.room_id name s sound h)
  Step-Agrees w s _ (leaves i _) f sound h = leave_room-Agrees w j i s h
  Step-Agrees w s _ (chats i message _) f sound h = room_chat-Agrees w j i message s h
  Step-Agrees w s _ (broadcasts i message _) f sound h =
      rw (post_all-sent s.sessions _ s) (aside-Agrees w j s.sessions _ s (IsAside-global_chat _) h)
  Step-Agrees w s _ (disconnects i _) f sound h = disconnected-Agrees w j i s f h
  Step-Agrees w s _ (executes a job rest _ e) f sound h =
      run_job-Agrees w a j job (take_job a rest s) f
        (h ∙ sym (taken-number w j a rest s.room (s.client j).room))

  start-Agrees :
      (w : Console) (s : Server)
      → w.server_session.current_room_id ≡ 0
      → (s.client j).room ≡ none
      → s.sent ≡ []
      → Agrees w j (init_rooms s)
  unfolding init_rooms create_room find_room inbox receive_each
  start-Agrees w s nowhere outside unsent = rw (unsent, outside) nowhere

  -- From RoomManager::Init on, in whatever order packets are handled, other sessions disconnect and the rooms run
  -- their jobs: a client that was in no room and has handled all that was sent to its session shows the room
  -- that the server keeps for the session, provided that the session does not disconnect, that every job that
  -- lets it leave a room finds it in this room or in none, and that every packet fits.
  pub Orderly-Agrees :
      (w : Console) (s : Server) → w.server_session.current_room_id ≡ 0 → Orderly s → Agrees w j s
  Orderly-Agrees w _ nowhere (start s outside idle unsent) =
      start-Agrees w s nowhere (outside j) unsent
  Orderly-Agrees w _ nowhere (next s s' o st f) =
      Step-Agrees w s s' st f (Reach-Sound to_string s (Orderly-Reach s o))
        (Orderly-Agrees w s nowhere o)
