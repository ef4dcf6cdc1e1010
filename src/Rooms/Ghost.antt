-- ===== src/Rooms/Ghost.antt =====
-- A session that disconnects while its job to enter a room still waits: `ClientSession::OnDisconnected` of
-- Source/ChatServer/Session/ClientSession.cpp and `Room::Enter` of Source/ChatServer/Room/Room.cpp.
use iocp_multi_threading_cha.Prelude.{ℕ, ◌≡◌, ◌∙◌, refl, ap, true, none, some, [], ◌∷◌, ◌++◌}
use iocp_multi_threading_cha.Rooms.{enter_job, Server, mem, push_job, run_job}
use iocp_multi_threading_cha.Rooms.Handlers.{request_room, on_disconnected}
use iocp_multi_threading_cha.Rooms.Effects.{enter-room, request_room-outside, equal, enter-there}

on_disconnected-outside : (i : ℕ) (s : Server) → (s.client i).room ≡ none → on_disconnected i s ≡ s
unfolding on_disconnected
on_disconnected-outside i s h = rw (on_disconnected, h) refl

-- A session without a room that asks for one and disconnects before the job has run: the disconnect
-- leaves no job behind, and once the room lets the session enter it is a member and points to
-- the room, with no job of the room left beside those that others asked for.
pub on_disconnected-too_early :
    (a i : ℕ) (s : Server)
    → (s.client i).room ≡ none
    → let asked = request_room i a s in
      let over = run_job a (enter_job i) (on_disconnected i asked) in
      (on_disconnected i asked ≡ asked)
      × ((asked.room a).jobs ≡ (s.room a).jobs ++ (enter_job i ∷ []))
      × (mem i (over.room a).members ≡ true)
      × ((over.client i).room ≡ some a)
unfolding run_job
on_disconnected-too_early a i s outside = (
  quiet,
  ap (λ (t : Server). (t.room a).jobs) asked_is ∙ rw (equal a) refl,
  enter-there a i (on_disconnected i (request_room i a s)),
  (enter-room a i (on_disconnected i (request_room i a s))).2,
)
  where
    asked_is : request_room i a s ≡ push_job a (enter_job i) s
    asked_is = request_room-outside a i s outside

    quiet : on_disconnected i (request_room i a s) ≡ request_room i a s
    quiet =
        on_disconnected-outside i (request_room i a s)
          (ap (λ (t : Server). (t.client i).room) asked_is ∙ outside)
