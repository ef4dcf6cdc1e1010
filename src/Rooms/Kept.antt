-- ===== src/Rooms/Kept.antt =====
-- What the jobs of Source/ChatServer/Room/Room.cpp leave of the rooms beside their members.
use mathlib.Core.Option.{some-injective}
use iocp_multi_threading_cha.Prelude.{
  ℕ, ◌<◌, ◌≡◌, ◌∙◌, refl, sym, ap, inl, inr, Bool, true, false, none, some, List, ◌==◌, ==_iff,
  if◌then◌else◌, update, Bool-cases, arith,
}
use iocp_multi_threading_cha.Protocol.{Message}
use iocp_multi_threading_cha.Rooms.{
  Job, enter_job, leave_job, leave_and_enter_job, chat_job, Room, Server, post_all, find_room,
  run_job, enter, leave, broadcast, leave_and_enter, handle_chat,
}
use iocp_multi_threading_cha.Rooms.Effects.{
  post_all-sent, next_room-enter, rooms-enter, next_room-leave, rooms-leave, room-enter,
  client-enter, room-leave, client-leave,
}
use iocp_multi_threading_cha.Rooms.Members.{Placed, run_job-Placed}
use iocp_multi_threading_cha.Rooms.{is_at}
use iocp_multi_threading_cha.Rooms.Sound.{Goes, Sound, Same, Same-Sound, push_job-Sound}

-- What the jobs keep, but for the members.
record Kept (s s' : Server) : Type 0 where
  client : (i b : ℕ) → (s'.client i).room ≡ some b → b < s.next_room
  room_id : (b : ℕ) → (s'.room b).room_id ≡ (s.room b).room_id
  jobs : (b : ℕ) → (s'.room b).jobs ≡ (s.room b).jobs
  next : s'.next_room ≡ s.next_room
  rooms : s'.rooms ≡ s.rooms

Kept-Sound : (s s' : Server) → Placed s' → Kept s s' → Sound s → Sound s'
Kept-Sound s s' p e h = record {
  placed = p;
  pointed = λ i a q. rw (e.next) (e.client i a q);
  listed = λ id a q.
      let (small, same) = h.listed id a (ap (find_room id) (sym e.rooms) ∙ q) in
      (rw (e.next) small, e.room_id a ∙ same);
  idle = λ a q. e.jobs a ∙ h.idle a (rw (e.next) at q);
  going = λ a. rw (e.next, e.jobs a) (h.going a);
}

update-room_id :
    (room : ℕ → Room) (a b : ℕ) (members : List ℕ)
    → (update room a (record (room a) { members = members }) b).room_id ≡ (room b).room_id
update-room_id room a b members = elim (Bool-cases (a == b)) [
  | inl same ↦ rw (same) (ap (λ c. (room c).room_id) ((==_iff a b).0 same))
  | inr other ↦ rw (other) refl
]

update-jobs :
    (room : ℕ → Room) (a b : ℕ) (members : List ℕ)
    → (update room a (record (room a) { members = members }) b).jobs ≡ (room b).jobs
update-jobs room a b members = elim (Bool-cases (a == b)) [
  | inl same ↦ rw (same) (ap (λ c. (room c).jobs) ((==_iff a b).0 same))
  | inr other ↦ rw (other) refl
]

enter-Kept : (a i : ℕ) (s : Server) → a < s.next_room → Sound s → Kept s (enter a i s)
enter-Kept a i s small h = record {
  client = λ j b p. elim (Bool-cases (i == j)) [
    | inl same ↦
        let e : a ≡ b = some-injective a b (sym (pointer j ∙ rw (same) refl) ∙ p) in
        omega (arith, e, small)
    | inr other ↦ h.pointed j b (sym (pointer j ∙ rw (other) refl) ∙ p)
  ];
  room_id = λ b. ap (λ r. (r b).room_id) (room-enter a i s) ∙ update-room_id s.room a b _;
  jobs = λ b. ap (λ r. (r b).jobs) (room-enter a i s) ∙ update-jobs s.room a b _;
  next = next_room-enter a i s;
  rooms = rooms-enter a i s;
}
  where
    pointer :
        (j : ℕ) → ((enter a i s).client j).room ≡ (if i == j then some a else (s.client j).room)
    pointer j =
        ap (λ c. (c j).room) (client-enter a i s)
        ∙ elim (Bool-cases (i == j)) [ inl same ↦ rw (same) refl | inr other ↦ rw (other) refl ]

left-pointer :
    (a i j b : ℕ) (s : Server) → ((leave a i s).client j).room ≡ some b → (s.client j).room ≡ some b
left-pointer a i j b s p =
    go (is_at (s.client i).room a) (sym (ap (λ c. (c j).room) (client-leave a i s)) ∙ p)
  where
    go :
        (t : Bool)
        → ((if t then update s.client i (record (s.client i) { room = none }) else s.client) j).room
          ≡ some b
        → (s.client j).room ≡ some b
    go false q = q
    go true q = elim (Bool-cases (i == j)) [
      | inl same ↦ absurd (ground (arith, same, q))
      | inr other ↦ rw (other) at q
    ]

leave-Kept : (a i : ℕ) (s : Server) → Sound s → Kept s (leave a i s)
leave-Kept a i s h = record {
  client = λ j b p. h.pointed j b (left-pointer a i j b s p);
  room_id = λ b. ap (λ r. (r b).room_id) (room-leave a i s) ∙ update-room_id s.room a b _;
  jobs = λ b. ap (λ r. (r b).jobs) (room-leave a i s) ∙ update-jobs s.room a b _;
  next = next_room-leave a i s;
  rooms = rooms-leave a i s;
}

pub post_all-Same : (ids : List ℕ) (p : Message) (s : Server) → Same s (post_all ids p s)
post_all-Same ids p s = record {
  client = λ i. ap (λ (t : Server). (t.client i).room) (post_all-sent ids p s);
  room = λ a. ap (λ (t : Server). t.room a) (post_all-sent ids p s);
  next = ap (λ (t : Server). t.next_room) (post_all-sent ids p s);
  rooms = ap (λ (t : Server). t.rooms) (post_all-sent ids p s);
}

pub run_job-Sound :
    (a : ℕ) (job : Job) (s : Server)
    → a < s.next_room
    → Goes s.next_room job
    → Sound s
    → Sound (run_job a job s)
unfolding run_job leave_and_enter handle_chat broadcast
run_job-Sound a (enter_job i) s small goes h =
    Kept-Sound s (enter a i s) (run_job-Placed a (enter_job i) s h.placed)
      (enter-Kept a i s small h) h
run_job-Sound a (leave_job i) s small goes h =
    Kept-Sound s (leave a i s) (run_job-Placed a (leave_job i) s h.placed) (leave-Kept a i s h) h
run_job-Sound a (leave_and_enter_job i target) s small goes h =
    push_job-Sound target (enter_job i) (leave a i s) (rw (next_room-leave a i s) goes) tt (
      Kept-Sound s (leave a i s) (run_job-Placed a (leave_job i) s h.placed) (leave-Kept a i s h) h)
run_job-Sound a (chat_job i message) s small goes h =
    Same-Sound s (handle_chat a i message s) (post_all-Same (s.room a).members _ s) h
