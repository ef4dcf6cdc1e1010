-- ===== src/Rooms/Sound.antt =====
-- What the rooms of Source/ChatServer/Room/Room.cpp and RoomManager.cpp are kept to: addresses, the table of
-- rooms, the jobs that wait and the members.
use mathlib.Core.Option.{some-injective}
use iocp_multi_threading_cha.Prelude.{
  ℕ, suc, ◌≤◌, ◌<◌, ◌≡◌, ◌∙◌, refl, sym, ap, inl, inr, true, false, none, some, List, [], ◌∷◌, ◌++◌,
  ◌==◌, ==_iff, update, Bool-cases, Option-cases, ltb, ltb→lt, ◌⊎◌, arith,
}
use iocp_multi_threading_cha.Session.{Bytes}
use iocp_multi_threading_cha.Rooms.{
  Job, enter_job, leave_job, leave_and_enter_job, chat_job, Room, Server, mem, set_room, push_job,
  find_room, create_room, get_or_create_room,
}
use iocp_multi_threading_cha.Rooms.Members.{Placed}

-- Where a job sends its session.
abbrev pub Goes : ℕ → Job → Type 0
Goes next (leave_and_enter_job i target) = target < next
Goes next _ = Unit

abbrev pub AllGo : ℕ → List Job → Type 0
AllGo next [] = Unit
AllGo next (job ∷ jobs) = Goes next job × AllGo next jobs

-- Sessions, jobs and the manager's table name only rooms that exist; the table has each room under its
-- id; and a session's room has the session among its members.
pub record Sound (s : Server) : Type 0 where
  pub placed : Placed s
  pub pointed : (i a : ℕ) → (s.client i).room ≡ some a → a < s.next_room
  pub listed :
      (id a : ℕ) → find_room id s.rooms ≡ some a → (a < s.next_room) × ((s.room a).room_id ≡ id)
  pub idle : (a : ℕ) → s.next_room ≤ a → (s.room a).jobs ≡ []
  pub going : (a : ℕ) → AllGo s.next_room (s.room a).jobs

-- The states differ in nothing that `Sound` is about.
pub record Same (s s' : Server) : Type 0 where
  pub client : (i : ℕ) → (s'.client i).room ≡ (s.client i).room
  pub room : (a : ℕ) → s'.room a ≡ s.room a
  pub next : s'.next_room ≡ s.next_room
  pub rooms : s'.rooms ≡ s.rooms

pub Same-Sound : (s s' : Server) → Same s s' → Sound s → Sound s'
Same-Sound s s' e h = record {
  placed =
      λ i a p. ap (λ (r : Room). mem i r.members) (e.room a) ∙ h.placed i a (sym (e.client i) ∙ p);
  pointed = λ i a p. rw (e.next) (h.pointed i a (sym (e.client i) ∙ p));
  listed = λ id a p.
      let (small, same) = h.listed id a (ap (find_room id) (sym e.rooms) ∙ p) in
      (rw (e.next) small, ap (λ (r : Room). r.room_id) (e.room a) ∙ same);
  idle = λ a p. ap (λ (r : Room). r.jobs) (e.room a) ∙ h.idle a (rw (e.next) at p);
  going = λ a. rw (e.next, e.room a) (h.going a);
}

AllGo-append :
    (next : ℕ) (jobs : List Job) (job : Job)
    → AllGo next jobs
    → Goes next job
    → AllGo next (jobs ++ (job ∷ []))
AllGo-append next [] job h g = (g, tt)
AllGo-append next (j ∷ jobs) job (h, hs) g = (h, AllGo-append next jobs job hs g)

pub push_job-Sound :
    (a : ℕ) (job : Job) (s : Server)
    → a < s.next_room
    → Goes s.next_room job
    → Sound s
    → Sound (push_job a job s)
push_job-Sound a job s small goes h = record {
  placed = λ i b p. elim (Bool-cases (a == b)) [
    | inl here ↦ rw (here, (==_iff a b).0 here) (h.placed i b p)
    | inr away ↦ rw (away) (h.placed i b p)
  ];
  pointed = h.pointed;
  listed = λ id b p. elim (Bool-cases (a == b)) [
    | inl here ↦ rw (here, (==_iff a b).0 here) (h.listed id b p)
    | inr away ↦ rw (away) (h.listed id b p)
  ];
  idle = λ b p. elim (Bool-cases (a == b)) [
    | inl here ↦ absurd (omega (arith, (==_iff a b).0 here, p, small))
    | inr away ↦ rw (away) (h.idle b p)
  ];
  going = λ b. elim (Bool-cases (a == b)) [
    | inl here ↦ rw (here) (AllGo-append s.next_room (s.room a).jobs job (h.going a) goes)
    | inr away ↦ rw (away) (h.going b)
  ];
}

-- A session without a room.
pub set_room-Sound : (i : ℕ) (s : Server) → Sound s → Sound (set_room i none s)
set_room-Sound i s h = record {
  placed = λ j a p. elim (Bool-cases (i == j)) [
    | inl same ↦ absurd (ground (arith, same, p))
    | inr other ↦ h.placed j a (rw (other) at p)
  ];
  pointed = λ j a p. elim (Bool-cases (i == j)) [
    | inl same ↦ absurd (ground (arith, same, p))
    | inr other ↦ h.pointed j a (rw (other) at p)
  ];
  listed = h.listed;
  idle = h.idle;
  going = h.going;
}

Goes-later : (next : ℕ) (job : Job) → Goes next job → Goes (suc next) job
Goes-later next (enter_job i) g = tt
Goes-later next (leave_job i) g = tt
Goes-later next (leave_and_enter_job i target) g = omega (arith, g)
Goes-later next (chat_job i message) g = tt

AllGo-later : (next : ℕ) (jobs : List Job) → AllGo next jobs → AllGo (suc next) jobs
AllGo-later next [] h = tt
AllGo-later next (job ∷ jobs) (h, hs) = (Goes-later next job h, AllGo-later next jobs hs)

-- A room found behind the others is one of them or the last.
find_room-append :
    (id key a b : ℕ) (rooms : List (ℕ × ℕ))
    → find_room id (rooms ++ ((key, a) ∷ [])) ≡ some b
    → (find_room id rooms ≡ some b) ⊎ ((key ≡ id) × (a ≡ b))
unfolding find_room
find_room-append id key a b [] h = elim (Bool-cases (key == id)) [
  | inl same ↦ inr ((==_iff key id).0 same, some-injective a b (rw (same) at h))
  | inr other ↦ absurd (ground (arith, other, h))
]
find_room-append id key a b ((k, c) ∷ rooms) h = elim (Bool-cases (k == id)) [
  | inl same ↦ rw (same) (inl (rw (same) at h))
  | inr other ↦ rw (other) (find_room-append id key a b rooms (rw (other) at h))
]

-- The server after `CreateRoom` of an id that has no room.
abbrev made : ℕ → Bytes → Server → Server
made id name s = record s {
  room =
      update s.room s.next_room
        (record { room_id = id; room_name = name; members = []; jobs = [] });
  next_room = suc s.next_room;
  rooms = s.rooms ++ ((id, s.next_room) ∷ []);
}

made-Sound : (id : ℕ) (name : Bytes) (s : Server) → Sound s → Sound (made id name s)
made-Sound id name s h = record {
  placed = λ i a p.
      let old : (s.next_room == a) ≡ false = ground (arith, h.pointed i a p) in
      rw (old) (h.placed i a p);
  pointed = λ i a p. omega (arith, h.pointed i a p);
  listed = λ key a p. elim (find_room-append key id s.next_room a s.rooms p) [
    | inl found ↦
        let (small, same) = h.listed key a found in
        let old : (s.next_room == a) ≡ false = ground (arith, small) in
        (omega (arith, small), rw (old) same)
    | inr (e, last) ↦
        let new : (s.next_room == a) ≡ true = ground (arith, last) in
        (omega (arith, last), rw (new) e)
  ];
  idle = λ a p.
      let old : (s.next_room == a) ≡ false = ground (arith, p) in
      rw (old) (h.idle a (omega (arith, p)));
  going = λ a. elim (Bool-cases (s.next_room == a)) [
    | inl new ↦ rw (new) tt
    | inr old ↦ rw (old) (AllGo-later s.next_room (s.room a).jobs (h.going a))
  ];
}

pub create_room-Sound :
    (id : ℕ) (name : Bytes) (s : Server)
    → Sound s
    → let (a, s') = create_room id name s in (a < s'.next_room) × Sound s'
unfolding create_room
create_room-Sound id name s h = elim (Option-cases (find_room id s.rooms)) [
  | inl missing ↦
      let e : create_room id name s ≡ (s.next_room, made id name s) =
        rw (create_room, missing) refl in
      rw (e) (omega arith, made-Sound id name s h)
  | inr (a, found) ↦
      let e : create_room id name s ≡ (a, s) = rw (create_room, found) refl in
      rw (e) ((h.listed id a found).0, h)
]

pub get_or_create_room-Sound :
    (id : ℕ) (name : Bytes) (s : Server)
    → Sound s
    → let (a, s') = get_or_create_room id name s in (a < s'.next_room) × Sound s'
unfolding get_or_create_room
get_or_create_room-Sound id name s h = elim (Option-cases (find_room id s.rooms)) [
  | inl missing ↦
      let e : get_or_create_room id name s ≡ create_room id name s =
        rw (get_or_create_room, missing) refl in
      rw (e) (create_room-Sound id name s h)
  | inr (a, found) ↦
      let e : get_or_create_room id name s ≡ (a, s) = rw (get_or_create_room, found) refl in
      rw (e) ((h.listed id a found).0, h)
]

-- The first job of a room is taken.
abbrev pub take_job : ℕ → List Job → Server → Server
take_job a rest s = record s { room = update s.room a (record (s.room a) { jobs = rest }) }

pub take_job-Sound :
    (a : ℕ) (job : Job) (rest : List Job) (s : Server)
    → (s.room a).jobs ≡ job ∷ rest
    → Sound s
    → (a < s.next_room) × Goes s.next_room job × Sound (take_job a rest s)
take_job-Sound a job rest s e h = (
  exists,
  here.0,
  record {
    placed = λ i b p. elim (Bool-cases (a == b)) [
      | inl same ↦ rw (same, (==_iff a b).0 same) (h.placed i b p)
      | inr away ↦ rw (away) (h.placed i b p)
    ];
    pointed = h.pointed;
    listed = λ id b p. elim (Bool-cases (a == b)) [
      | inl same ↦ rw (same, (==_iff a b).0 same) (h.listed id b p)
      | inr away ↦ rw (away) (h.listed id b p)
    ];
    idle = λ b p. elim (Bool-cases (a == b)) [
      | inl same ↦ absurd (omega (arith, (==_iff a b).0 same, p, exists))
      | inr away ↦ rw (away) (h.idle b p)
    ];
    going = λ b. elim (Bool-cases (a == b)) [
      | inl same ↦ rw (same) here.1
      | inr away ↦ rw (away) (h.going b)
    ];
  },
)
  where
    here : AllGo s.next_room (job ∷ rest)
    here = rw (e) at (h.going a)

    exists : a < s.next_room
    exists = elim (Bool-cases (ltb a s.next_room)) [
      | inl below ↦ ltb→lt a s.next_room below
      | inr not_below ↦ absurd (ground (arith, e, h.idle a (ground (arith, not_below))))
    ]
