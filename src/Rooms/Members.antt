-- ===== src/Rooms/Members.antt =====
-- Who is in a room: the sessions' `_room` and the rooms' `_members` under the jobs of
-- Source/ChatServer/Room/Room.cpp.
use mathlib.Core.Option.{some-injective}
use iocp_multi_threading_cha.Prelude.{
  ℕ, ◌≡◌, ◌∙◌, refl, true, false, ◌||◌, none, some, List, [], ◌∷◌, ◌++◌, ◌==◌, ==_iff,
  if◌then◌else◌, Bool-cases, inl, inr, arith,
}
use iocp_multi_threading_cha.Protocol.{Message}
use iocp_multi_threading_cha.Rooms.{
  Job, enter_job, leave_job, leave_and_enter_job, chat_job, Server, mem, insert, erase, set_room,
  set_members, post, post_all, broadcast, push_job, enter, is_at, leave, leave_and_enter,
  handle_chat, run_job,
}

mem-append : (x y : ℕ) (l : List ℕ) → mem x (l ++ (y ∷ [])) ≡ (mem x l || y == x)
mem-append x y [] = ground arith
mem-append x y (z ∷ l) = ground (arith, mem-append x y l)

pub mem-insert : (x y : ℕ) (l : List ℕ) → mem x (insert y l) ≡ (mem x l || y == x)
mem-insert x y l = elim (Bool-cases (mem y l)) [
  | inl there ↦ rw (there) (elim (Bool-cases (y == x)) [
    | inl same ↦ let e : y ≡ x = (==_iff y x).0 same in rw (same, ← e, there) refl
    | inr other ↦ ground (arith, other)
  ])
  | inr absent ↦ rw (absent) (mem-append x y l)
]

pub mem-erase : (x y : ℕ) (l : List ℕ) → mem x (erase y l) ≡ (if y == x then false else mem x l)
mem-erase x y [] = ground arith
mem-erase x y (z ∷ l) = ground (arith, mem-erase x y l)

-- A session's room has the session among its members.
abbrev pub Placed : Server → Type 0
Placed s = (i a : ℕ) → (s.client i).room ≡ some a → mem i (s.room a).members ≡ true

post_all-Placed : (ids : List ℕ) (p : Message) (s : Server) → Placed s → Placed (post_all ids p s)
unfolding post_all
post_all-Placed [] p s h = h
post_all-Placed (i ∷ ids) p s h = post_all-Placed ids p (post i p s) h

broadcast-Placed : (a : ℕ) (p : Message) (s : Server) → Placed s → Placed (broadcast a p s)
unfolding broadcast
broadcast-Placed a p s h = post_all-Placed (s.room a).members p s h

inside-Placed :
    (a i : ℕ) (s : Server)
    → Placed s
    → Placed (set_room i (some a) (set_members a (insert i (s.room a).members) s))
inside-Placed a i s h j b e = elim (Bool-cases (i == j)) [
  | inl same ↦
      let here : a ≡ b = some-injective a b (rw (same) at e) in
      let e' : i ≡ j = (==_iff i j).0 same in
      ground (arith, here, mem-insert j i (s.room a).members, e')
  | inr other ↦
      let there : mem j (s.room b).members ≡ true = h j b (rw (other) at e) in
      elim (Bool-cases (a == b)) [
        | inl here ↦
            let e' : a ≡ b = (==_iff a b).0 here in
            rw (here) (mem-insert j i (s.room a).members ∙ rw (e', there) refl)
        | inr away ↦ rw (away) there
      ]
]

enter-Placed : (a i : ℕ) (s : Server) → Placed s → Placed (enter a i s)
unfolding enter
enter-Placed a i s h = broadcast-Placed a _ _ (inside-Placed a i s h)

outside-Placed :
    (a i : ℕ) (s : Server)
    → Placed s
    → let outside = set_members a (erase i (s.room a).members) s in
      Placed (if is_at (s.client i).room a then set_room i none outside else outside)
outside-Placed a i s h = elim (Bool-cases (is_at (s.client i).room a)) [
  | inl at_room ↦ rw (at_room) (λ j b e. gone j b e)
  | inr elsewhere ↦ rw (elsewhere) (λ j b e. kept elsewhere j b e)
]
  where
    stays :
        (j b : ℕ)
        → (i == j) ≡ false
        → (s.client j).room ≡ some b
        → mem j
            (if a == b
              then record (s.room a) { members = erase i (s.room a).members }
              else s.room b).members
          ≡ true
    stays j b other e =
        let there : mem j (s.room b).members ≡ true = h j b e in
        elim (Bool-cases (a == b)) [
          | inl here ↦
              let e' : a ≡ b = (==_iff a b).0 here in
              rw (here) (mem-erase j i (s.room a).members ∙ rw (other, e', there) refl)
          | inr away ↦ rw (away) there
        ]

    gone :
        (j b : ℕ)
        → (if i == j then record (s.client i) { room = none } else s.client j).room ≡ some b
        → mem j
            (if a == b
              then record (s.room a) { members = erase i (s.room a).members }
              else s.room b).members
          ≡ true
    gone j b e = elim (Bool-cases (i == j)) [
      | inl same ↦ absurd (ground (arith, same, e))
      | inr other ↦ stays j b other (rw (other) at e)
    ]

    kept :
        is_at (s.client i).room a ≡ false
        → (j b : ℕ) → (s.client j).room ≡ some b
        → mem j
            (if a == b
              then record (s.room a) { members = erase i (s.room a).members }
              else s.room b).members
          ≡ true
    kept elsewhere j b e = elim (Bool-cases (i == j)) [
      | inl same ↦
          let e' : i ≡ j = (==_iff i j).0 same in
          let far : (b == a) ≡ false = rw (e', e) at elsewhere in
          let away : (a == b) ≡ false = ground (arith, far) in rw (away) (h j b e)
      | inr other ↦ stays j b other e
    ]

leave-Placed : (a i : ℕ) (s : Server) → Placed s → Placed (leave a i s)
unfolding leave
leave-Placed a i s h = broadcast-Placed a _ _ (outside-Placed a i s h)

push_job-Placed : (a : ℕ) (job : Job) (s : Server) → Placed s → Placed (push_job a job s)
push_job-Placed a job s h i b e = elim (Bool-cases (a == b)) [
  | inl here ↦ let e' : a ≡ b = (==_iff a b).0 here in rw (here, e') (h i b e)
  | inr away ↦ rw (away) (h i b e)
]

-- Every job of a room keeps this: the room that a session points to has the session among its
-- members.
pub run_job-Placed : (a : ℕ) (job : Job) (s : Server) → Placed s → Placed (run_job a job s)
unfolding run_job leave_and_enter handle_chat
run_job-Placed a (enter_job i) s h = enter-Placed a i s h
run_job-Placed a (leave_job i) s h = leave-Placed a i s h
run_job-Placed a (leave_and_enter_job i target) s h =
    push_job-Placed target (enter_job i) (leave a i s) (leave-Placed a i s h)
run_job-Placed a (chat_job i message) s h = broadcast-Placed a _ s h
