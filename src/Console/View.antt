-- ===== src/Console/View.antt =====
-- The room that the console client shows and the room that the server keeps for its session:
-- Source/ChatClient/Protocol/ClientPacketHandlerImpl.cpp and Source/ChatServer/Room/Room.cpp.
use iocp_multi_threading_cha.Prelude.{
  ℕ, ◌≡◌, ◌∙◌, inl, inr, refl, ap, Bool, true, false, none, some, List, [], ◌∷◌, ◌++◌, ◌==◌,
  if◌then◌else◌, Bool-cases,
}
use iocp_multi_threading_cha.Protocol.{
  Message, SChat, s_enter_room, s_leave_room, s_notice, s_room_chat,
}
use iocp_multi_threading_cha.Session.{Bytes}
use iocp_multi_threading_cha.Rooms.{
  Server, post, enter, leave, broadcast, is_at, insert, erase, set_room, set_members, member_names,
  opening, joined, left,
}
use iocp_multi_threading_cha.Rooms.Effects.{to_each, post_all-sent}
use iocp_multi_threading_cha.Console.{Console, handle}

-- What was sent to a session, in order.
unfoldable pub inbox : ℕ → List (ℕ × Message) → List Message
inbox j [] = []
inbox j ((i, p) ∷ l) = let rest = inbox j l in if i == j then p ∷ rest else rest

-- The client after it has handled some messages.
unfoldable pub receive_each : List Message → Console → Console
receive_each [] w = w
receive_each (p ∷ ps) w = receive_each ps (handle p w).1

-- The room that the client of a session takes itself to be in.
abbrev pub shown : Console → ℕ → List (ℕ × Message) → ℕ
shown w j sent = (receive_each (inbox j sent) w).server_session.current_room_id

inbox-append : (j : ℕ) (l m : List (ℕ × Message)) → inbox j (l ++ m) ≡ inbox j l ++ inbox j m
unfolding inbox
inbox-append j [] m = refl
inbox-append j ((i, p) ∷ l) m = elim (Bool-cases (i == j)) [
  | inl same ↦ rw (same) (ap (λ r. p ∷ r) (inbox-append j l m))
  | inr other ↦ rw (other) (inbox-append j l m)
]

receive_each-append :
    (l m : List Message) (w : Console) → receive_each (l ++ m) w ≡ receive_each m (receive_each l w)
unfolding receive_each
receive_each-append [] m w = refl
receive_each-append (p ∷ l) m w = receive_each-append l m (handle p w).1

pub shown-append :
    (w : Console) (j : ℕ) (l m : List (ℕ × Message))
    → shown w j (l ++ m) ≡ shown (receive_each (inbox j l) w) j m
shown-append w j l m =
    ap (λ ps. (receive_each ps w).server_session.current_room_id) (inbox-append j l m)
    ∙ ap (λ v. v.server_session.current_room_id) (receive_each-append (inbox j l) (inbox j m) w)

-- A message that says nothing of the client's room.
abbrev pub IsAside : Message → Type 0
IsAside p =
    (w : Console) → (handle p w).1.server_session.current_room_id ≡ w.server_session.current_room_id

pub shown-aside :
    (w : Console) (j : ℕ) (ids : List ℕ) (p : Message)
    → IsAside p
    → shown w j (to_each ids p) ≡ w.server_session.current_room_id
unfolding inbox receive_each
shown-aside w j [] p h = refl
shown-aside w j (i ∷ ids) p h = elim (Bool-cases (i == j)) [
  | inl same ↦ rw (shown, same) (shown-aside (handle p w).1 j ids p h ∙ h w)
  | inr other ↦ rw (shown, other) (shown-aside w j ids p h)
]

-- A message to one session, and then an aside to some.
shown-post_all :
    (w : Console) (j i : ℕ) (p q : Message) (ids : List ℕ) (l : List (ℕ × Message))
    → IsAside q
    → shown w j ((l ++ ((i, p) ∷ [])) ++ to_each ids q) ≡ (
        if i == j
        then (handle p (receive_each (inbox j l) w)).1.server_session.current_room_id
        else shown w j l)
unfolding inbox receive_each
shown-post_all w j i p q ids l h =
    shown-append w j (l ++ ((i, p) ∷ [])) (to_each ids q)
    ∙ shown-aside (receive_each (inbox j (l ++ ((i, p) ∷ []))) w) j ids q h
    ∙ shown-append w j l ((i, p) ∷ [])
    ∙ elim (Bool-cases (i == j)) [
      | inl same ↦ rw (shown, same) refl
      | inr other ↦ rw (shown, other) refl
    ]

IsAside-notice : (text : Bytes) → IsAside (s_notice text)
unfolding handle
IsAside-notice text w = refl

pub IsAside-chat : (p : SChat) → IsAside (s_room_chat p)
unfolding handle
IsAside-chat p w = refl

shown-broadcast :
    (w : Console) (a i j : ℕ) (p : Message) (text : Bytes) (s : Server)
    → shown w j (broadcast a (s_notice text) (post i p s)).sent ≡ (
        if i == j
        then (handle p (receive_each (inbox j s.sent) w)).1.server_session.current_room_id
        else shown w j s.sent)
unfolding broadcast
shown-broadcast w a i j p text s =
    ap (λ (t : Server). shown w j t.sent)
      (post_all-sent (s.room a).members (s_notice text) (post i p s))
    ∙ shown-post_all w j i p (s_notice text) (s.room a).members s.sent (IsAside-notice text)

pub shown-enter :
    (w : Console) (a i j : ℕ) (s : Server)
    → shown w j (enter a i s).sent ≡ (if i == j then (s.room a).room_id else shown w j s.sent)
unfolding enter handle
shown-enter w a i j s =
    shown-broadcast w a i j
      (s_enter_room (record {
        members = member_names inside (inside.room a).members;
        success = true;
        room_id = (s.room a).room_id;
        room_name = (s.room a).room_name;
      }))
      (opening ++ (s.client i).player_name ++ joined) inside
  where
    inside : Server
    inside = set_room i (some a) (set_members a (insert i (s.room a).members) s)

pub shown-leave :
    (w : Console) (a i j : ℕ) (s : Server)
    → shown w j (leave a i s).sent ≡ (if i == j then 0 else shown w j s.sent)
unfolding leave handle
shown-leave w a i j s = go (is_at (s.client i).room a)
  where
    outside : Server
    outside = set_members a (erase i (s.room a).members) s

    go :
        (b : Bool)
        → shown w j
            (broadcast a
              (s_notice (opening ++ (s.client i).player_name ++ left))
              (post i (s_leave_room true) (if b then set_room i none outside else outside))).sent
          ≡ (if i == j then 0 else shown w j s.sent)
    go true =
        shown-broadcast w a i j (s_leave_room true) (opening ++ (s.client i).player_name ++ left)
          (set_room i none outside)
    go false =
        shown-broadcast w a i j (s_leave_room true) (opening ++ (s.client i).player_name ++ left)
          outside
