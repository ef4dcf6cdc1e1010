-- ===== src/Rooms/Effects.antt =====
-- What each job of Source/ChatServer/Room/Room.cpp does to the members of the rooms, and what two
-- requests to enter a room do.
use iocp_multi_threading_cha.Prelude.{
  ℕ, ◌≡◌, ◌∙◌, refl, sym, ap, true, false, ◌||◌, none, some, List, [], ◌∷◌, ◌++◌, append-nil,
  append_assoc, ◌==◌, if◌then◌else◌, Bool-cases, inl, inr, arith,
}
use iocp_multi_threading_cha.Prelude.{update}
use iocp_multi_threading_cha.Protocol.{Message}
use iocp_multi_threading_cha.Rooms.{
  enter_job, ClientSession, Server, mem, insert, erase, post, post_all, broadcast, push_job, enter,
  is_at, leave, run_job,
}
use iocp_multi_threading_cha.Rooms.Members.{mem-insert, mem-erase}
use iocp_multi_threading_cha.Rooms.Handlers.{request_room}

-- What was sent is what had been sent, and the message once for each of the given sessions.
abbrev pub to_each : List ℕ → Message → List (ℕ × Message)
to_each [] p = []
to_each (i ∷ ids) p = (i, p) ∷ to_each ids p

pub post_all-sent :
    (ids : List ℕ) (p : Message) (s : Server)
    → post_all ids p s ≡ record s { sent = s.sent ++ to_each ids p }
unfolding post_all
post_all-sent [] p s = ap (λ l. record s { sent = l }) (sym (append-nil s.sent))
post_all-sent (i ∷ ids) p s =
    post_all-sent ids p (post i p s)
    ∙ ap (λ l. record s { sent = l }) (append_assoc s.sent ((i, p) ∷ []) (to_each ids p))

pub post_all-room : (ids : List ℕ) (p : Message) (s : Server) → (post_all ids p s).room ≡ s.room
post_all-room ids p s = ap (λ t. t.room) (post_all-sent ids p s)

pub post_all-client :
    (ids : List ℕ) (p : Message) (s : Server) → (post_all ids p s).client ≡ s.client
post_all-client ids p s = ap (λ t. t.client) (post_all-sent ids p s)

post_all-next_room :
    (ids : List ℕ) (p : Message) (s : Server) → (post_all ids p s).next_room ≡ s.next_room
post_all-next_room ids p s = ap (λ t. t.next_room) (post_all-sent ids p s)

post_all-rooms : (ids : List ℕ) (p : Message) (s : Server) → (post_all ids p s).rooms ≡ s.rooms
post_all-rooms ids p s = ap (λ t. t.rooms) (post_all-sent ids p s)

pub equal : (i : ℕ) → (i == i) ≡ true
equal i = ground arith

pub room-enter :
    (a i : ℕ) (s : Server)
    → (enter a i s).room
      ≡ update s.room a (record (s.room a) { members = insert i (s.room a).members })
unfolding enter broadcast
room-enter a i s = rw (enter, broadcast, post_all-room) refl

pub client-enter :
    (a i : ℕ) (s : Server)
    → (enter a i s).client ≡ update s.client i (record (s.client i) { room = some a })
unfolding enter broadcast
client-enter a i s = rw (enter, broadcast, post_all-client) refl

-- `Enter` makes the session a member of the room and its room the session's; the other members of
-- the room stay, and the other sessions and rooms are as before.
pub enter-room :
    (a i : ℕ) (s : Server)
    → let s' = enter a i s in
      ((j : ℕ) → mem j (s'.room a).members ≡ (mem j (s.room a).members || i == j))
      × ((b : ℕ) → (a == b) ≡ false → s'.room b ≡ s.room b)
      × ((s'.client i).room ≡ some a)
      × ((j : ℕ) → (i == j) ≡ false → s'.client j ≡ s.client j)
enter-room a i s = (
  (λ j.
      ap (λ r. mem j (r a).members) (room-enter a i s)
      ∙ rw (equal a) (mem-insert j i (s.room a).members)),
  (λ b h. ap (λ r. r b) (room-enter a i s) ∙ rw (h) refl),
  ap (λ c. (c i).room) (client-enter a i s) ∙ rw (equal i) refl,
  (λ j h. ap (λ c. c j) (client-enter a i s) ∙ rw (h) refl),
)

pub room-leave :
    (a i : ℕ) (s : Server)
    → (leave a i s).room
      ≡ update s.room a (record (s.room a) { members = erase i (s.room a).members })
unfolding leave broadcast
room-leave a i s = elim (Bool-cases (is_at (s.client i).room a)) [
  | inl at_room ↦ rw (leave, broadcast, post_all-room) rw (at_room) refl
  | inr elsewhere ↦ rw (leave, broadcast, post_all-room) rw (elsewhere) refl
]

pub client-leave :
    (a i : ℕ) (s : Server)
    → (leave a i s).client ≡ (
        if is_at (s.client i).room a
        then update s.client i (record (s.client i) { room = none })
        else s.client)
unfolding leave broadcast
client-leave a i s = elim (Bool-cases (is_at (s.client i).room a)) [
  | inl at_room ↦ rw (leave, broadcast, post_all-client) rw (at_room) refl
  | inr elsewhere ↦ rw (leave, broadcast, post_all-client) rw (elsewhere) refl
]

pub next_room-enter : (a i : ℕ) (s : Server) → (enter a i s).next_room ≡ s.next_room
unfolding enter broadcast
next_room-enter a i s = rw (enter, broadcast, post_all-next_room) refl

pub next_room-leave : (a i : ℕ) (s : Server) → (leave a i s).next_room ≡ s.next_room
unfolding leave broadcast
next_room-leave a i s = elim (Bool-cases (is_at (s.client i).room a)) [
  | inl at_room ↦ rw (leave, broadcast, post_all-next_room) rw (at_room) refl
  | inr elsewhere ↦ rw (leave, broadcast, post_all-next_room) rw (elsewhere) refl
]

pub rooms-enter : (a i : ℕ) (s : Server) → (enter a i s).rooms ≡ s.rooms
unfolding enter broadcast
rooms-enter a i s = rw (enter, broadcast, post_all-rooms) refl

pub rooms-leave : (a i : ℕ) (s : Server) → (leave a i s).rooms ≡ s.rooms
unfolding leave broadcast
rooms-leave a i s = elim (Bool-cases (is_at (s.client i).room a)) [
  | inl at_room ↦ rw (leave, broadcast, post_all-rooms) rw (at_room) refl
  | inr elsewhere ↦ rw (leave, broadcast, post_all-rooms) rw (elsewhere) refl
]

-- `Leave` takes the session, and no other, out of the room's members; the session points to this
-- room no more, and the other sessions and rooms are as before.
pub leave-room :
    (a i : ℕ) (s : Server)
    → let s' = leave a i s in
      ((j : ℕ) → mem j (s'.room a).members ≡ (if i == j then false else mem j (s.room a).members))
      × ((b : ℕ) → (a == b) ≡ false → s'.room b ≡ s.room b)
      × (is_at (s'.client i).room a ≡ false)
      × ((j : ℕ) → (i == j) ≡ false → s'.client j ≡ s.client j)
leave-room a i s = (
  (λ j.
      ap (λ r. mem j (r a).members) (room-leave a i s)
      ∙ rw (equal a) (mem-erase j i (s.room a).members)),
  (λ b h. ap (λ r. r b) (room-leave a i s) ∙ rw (h) refl),
  ap (λ c. is_at (c i).room a) (client-leave a i s) ∙ parted,
  (λ j h. ap (λ c. c j) (client-leave a i s) ∙ other j h),
)
  where
    here : ℕ → ClientSession
    here =
        if is_at (s.client i).room a
        then update s.client i (record (s.client i) { room = none })
        else s.client

    parted : is_at (here i).room a ≡ false
    parted = elim (Bool-cases (is_at (s.client i).room a)) [
      | inl at_room ↦ rw (here, at_room) rw (equal i) refl
      | inr elsewhere ↦ rw (here, elsewhere) elsewhere
    ]

    other : (j : ℕ) → (i == j) ≡ false → here j ≡ s.client j
    other j h = elim (Bool-cases (is_at (s.client i).room a)) [
      | inl at_room ↦ rw (here, at_room) rw (h) refl
      | inr elsewhere ↦ rw (here, elsewhere) refl
    ]

pub enter-there : (a i : ℕ) (s : Server) → mem i ((enter a i s).room a).members ≡ true
enter-there a i s = (enter-room a i s).0 i ∙ ground arith

pub request_room-outside :
    (a i : ℕ) (s : Server)
    → (s.client i).room ≡ none
    → request_room i a s ≡ push_job a (enter_job i) s
unfolding request_room
request_room-outside a i s h = rw (request_room, h) refl

-- The two jobs that let a session enter two rooms, one after the other.
enter-both :
    (a b i : ℕ) (s : Server)
    → (a == b) ≡ false
    → let entered = enter b i (enter a i s) in
      (mem i (entered.room a).members ≡ true)
      × (mem i (entered.room b).members ≡ true)
      × ((entered.client i).room ≡ some b)
enter-both a b i s apart = (
  ap (λ r. mem i r.members) ((enter-room b i (enter a i s)).1 a (ground (arith, apart)))
      ∙ enter-there a i s,
  enter-there b i (enter a i s),
  (enter-room b i (enter a i s)).2,
)

-- A session without a room that asks for two rooms before a job has run: both rooms are given the job to let
-- it enter. Once these have run, in either order, the session is a member of both rooms, and points to
-- the one whose job ran last.
pub request_room-twice :
    (a b i : ℕ) (s : Server)
    → (s.client i).room ≡ none
    → (a == b) ≡ false
    → let asked = request_room i b (request_room i a s) in
      let b_last = run_job b (enter_job i) (run_job a (enter_job i) asked) in
      let a_last = run_job a (enter_job i) (run_job b (enter_job i) asked) in
      ((asked.room a).jobs ≡ (s.room a).jobs ++ (enter_job i ∷ []))
      × ((asked.room b).jobs ≡ (s.room b).jobs ++ (enter_job i ∷ []))
      × ((mem i (b_last.room a).members ≡ true)
          × (mem i (b_last.room b).members ≡ true)
          × ((b_last.client i).room ≡ some b))
      × ((mem i (a_last.room b).members ≡ true)
          × (mem i (a_last.room a).members ≡ true)
          × ((a_last.client i).room ≡ some a))
unfolding run_job
request_room-twice a b i s outside apart = (
  ap (λ t. (t.room a).jobs) asked ∙ rw (apart', equal a) refl,
  ap (λ t. (t.room b).jobs) asked ∙ rw (equal b, apart) refl,
  enter-both a b i (request_room i b (request_room i a s)) apart,
  enter-both b a i (request_room i b (request_room i a s)) apart',
)
  where
    apart' : (b == a) ≡ false
    apart' = ground (arith, apart)

    asked :
        request_room i b (request_room i a s)
        ≡ push_job b (enter_job i) (push_job a (enter_job i) s)
    asked =
        ap (request_room i b) (request_room-outside a i s outside)
        ∙ request_room-outside b i (push_job a (enter_job i) s) outside
