-- ===== src/Console/Typed.antt =====
-- What the lines that a user types send: the commands of Source/ChatClient/Main.cpp.
use iocp_multi_threading_cha.Prelude.{
  ℕ, suc, ◌<◌, ◌≡◌, ◌∙◌, refl, true, false, Option, List, zero, append-nil, [], ◌∷◌, ◌++◌, ◌==◌,
  length, codes, positive, arith,
}
use iocp_multi_threading_cha.Console.Words.{word}
use iocp_multi_threading_cha.Decimal.{to_string, skip_space}
use iocp_multi_threading_cha.Protocol.{
  Message, c_login, c_room_list, c_enter_room, c_leave_room, c_room_chat, c_global_chat,
}
use iocp_multi_threading_cha.Session.{Bytes, Kernel}
use iocp_multi_threading_cha.Console.{
  Output, flood_test, flood_from, on_flood, Console, on_login, on_join, on_global, on_command,
  on_text, on_line, transmit,
}
use iocp_multi_threading_cha.Console.Reading.{
  no_space, visible, skip_space-visible, word-no_space, skip_space-no_space, not_empty,
  extract_int-space, skip_space-space, extract_int-to_string, extract_int-to_string_end,
}

-- What a user can ask for.
pub data Command : Type 0 where
  login : (name : Bytes) → Command
  list : Command
  join : (room_id : ℕ) (room_name : Bytes) → Command
  join_id : (room_id : ℕ) → Command
  flood : (count : ℕ) → Command
  leave : Command
  global : (message : Bytes) → Command
  say : (text : Bytes) → Command

abbrev pub typed : Command → Bytes
typed (login name) = codes "/login " ++ name
typed list = codes "/list"
typed (join id name) = codes "/join " ++ to_string id ++ (b' ' ∷ name)
typed (join_id id) = codes "/join " ++ to_string id
typed (flood n) = codes "/flood " ++ to_string n
typed leave = codes "/leave"
typed (global message) = codes "/global " ++ message
typed (say text) = text

-- The chats of `/flood` after the first `n`.
abbrev pub flooding : ℕ → ℕ → List Message
flooding n zero = []
flooding n (suc rounds) =
    c_room_chat (codes "Flooding packet #" ++ to_string (suc n)) ∷ flooding (suc n) rounds

-- The messages that a command stands for, in order.
abbrev pub messages : Command → List Message
messages (login name) = c_login name ∷ []
messages list = c_room_list ∷ []
messages (join id name) = c_enter_room (record { room_id = id; room_name = name }) ∷ []
messages (join_id id) = c_enter_room (record { room_id = id; room_name = [] }) ∷ []
messages (flood n) = flooding 0 n
messages leave = c_leave_room ∷ []
messages (global text) = c_global_chat text ∷ []
messages (say text) = c_room_chat text ∷ []

-- What a command prints at once: `/flood` says how many it sends.
abbrev pub announced : Command → List Output
announced (flood n) = flood_test n ∷ []
announced _ = []

module _ (k : Kernel) (make_send_buffer : Message → Option Bytes) where
  on_login-sent :
      (name : Bytes) (w : Console)
      → no_space name ≡ true
      → 0 < length name
      → on_login k make_send_buffer (32 ∷ name) w ≡ transmit k make_send_buffer (c_login name) w
  unfolding on_login skip_space
  on_login-sent [] w h i = absurd (omega arith)
  on_login-sent (c ∷ name) w h i =
      rw (skip_space-no_space (c ∷ name) h, word-no_space (c ∷ name) h, not_empty name) refl

  on_global-sent :
      (text : Bytes) (w : Console)
      → visible text ≡ true
      → on_global k make_send_buffer (32 ∷ text) w
        ≡ transmit k make_send_buffer (c_global_chat text) w
  unfolding on_global skip_space
  on_global-sent [] w h = absurd (ground (arith, h))
  on_global-sent (c ∷ text) w h = rw (skip_space-visible (c ∷ text) h, not_empty text) refl

  on_join-sent :
      (id : ℕ) (name : Bytes) (w : Console)
      → 0 < id
      → id < 2147483648
      → no_space name ≡ true
      → on_join k make_send_buffer (32 ∷ (to_string id ++ (32 ∷ name))) w
        ≡ transmit k make_send_buffer (c_enter_room (record { room_id = id; room_name = name })) w
  unfolding on_join
  on_join-sent id name w pos small h =
      rw
        (
          extract_int-space 0 (to_string id ++ (32 ∷ name)),
          extract_int-to_string 0 id name small,
          skip_space-space name h,
          word-no_space name h,
          is_positive,
        )
        refl
    where
      is_positive : positive id ≡ true
      is_positive = ground arith

  on_join-sent_id :
      (id : ℕ) (w : Console)
      → 0 < id
      → id < 2147483648
      → on_join k make_send_buffer (32 ∷ to_string id) w
        ≡ transmit k make_send_buffer (c_enter_room (record { room_id = id; room_name = [] })) w
  unfolding on_join skip_space word
  on_join-sent_id id w pos small =
      rw (extract_int-space 0 (to_string id), extract_int-to_string_end 0 id small, is_positive)
        refl
    where
      is_positive : positive id ≡ true
      is_positive = ground arith

  -- Messages sent one after the other.
  abbrev pub transmit_each : List Message → Console → Console
  transmit_each [] w = w
  transmit_each (p ∷ ps) w = transmit_each ps (transmit k make_send_buffer p w)

  flood_from-each :
      (rounds n : ℕ) (w : Console)
      → flood_from k make_send_buffer rounds n w ≡ transmit_each (flooding n rounds) w
  unfolding flood_from
  flood_from-each zero n w = refl
  flood_from-each (suc rounds) n w = flood_from-each rounds (suc n) _

  on_flood-sent :
      (n : ℕ) (w : Console)
      → 0 < n
      → n < 2147483648
      → on_flood k make_send_buffer (32 ∷ to_string n) w
        ≡ transmit_each (flooding 0 n) (record w { printed = w.printed ++ (flood_test n ∷ []) })
  unfolding on_flood
  on_flood-sent n w pos small =
      rw (extract_int-space 50 (to_string n), extract_int-to_string_end 50 n small, is_positive)
        (flood_from-each n 0 _)
    where
      is_positive : positive n ≡ true
      is_positive = ground arith

  -- What a line has to be.
  abbrev pub IsTyped : Command → Console → Type 0
  IsTyped (login name) w = (no_space name ≡ true) × (0 < length name)
  IsTyped list w = Unit
  IsTyped (join id name) w = (0 < id) × (id < 2147483648) × (no_space name ≡ true)
  IsTyped (join_id id) w = (0 < id) × (id < 2147483648)
  IsTyped (flood n) w = (0 < n) × (n < 2147483648)
  IsTyped leave w = Unit
  IsTyped (global text) w = visible text ≡ true
  IsTyped (say []) w = ⊥
  IsTyped (say (c ∷ text)) w =
      ((c == b'/') ≡ false) × (positive w.server_session.current_room_id ≡ true)

  on_line-connected :
      (c : ℕ) (s : Bytes) (w : Console)
      → w.server_session.session.connected ≡ true
      → on_line k make_send_buffer (c ∷ s) w ≡ on_text k make_send_buffer c s w
  unfolding on_line
  on_line-connected c s w on = rw (on) refl

  on_text-say :
      (c : ℕ) (s : Bytes) (w : Console)
      → (c == b'/') ≡ false
      → positive w.server_session.current_room_id ≡ true
      → on_text k make_send_buffer c s w ≡ transmit k make_send_buffer (c_room_chat (c ∷ s)) w
  unfolding on_text
  on_text-say c s w h i = rw (h, i) refl

  -- The line of every command of the console client for the server, typed while it is connected, sends exactly the messages
  -- that the command stands for, in order: one, or as many chats as `/flood` was given. For names without
  -- white space, `/join` with a name or without; numbers from 1 to 2 ^ 31 - 1; messages that do not start with white
  -- space; and a line of chat that does not start with '/' while the client is in a room. Nothing is printed at
  -- once but the announcement of a flood.
  pub on_line-typed :
      (c : Command) (w : Console)
      → w.server_session.session.connected ≡ true
      → IsTyped c w
      → on_line k make_send_buffer (typed c) w
        ≡ transmit_each (messages c) (record w { printed = w.printed ++ announced c })
  unfolding on_text on_command word skip_space
  on_line-typed (login name) w on (h, i) =
      rw (append-nil)
        (on_line-connected b'/' (codes "login " ++ name) w on ∙ on_login-sent name w h i)
  on_line-typed list w on h = rw (append-nil) (on_line-connected b'/' (codes "list") w on)
  on_line-typed (join id name) w on (h, i, j) = rw (append-nil) (
      on_line-connected b'/' (codes "join " ++ to_string id ++ (b' ' ∷ name)) w on
      ∙ on_join-sent id name w h i j)
  on_line-typed (join_id id) w on (h, i) =
      rw (append-nil)
        (on_line-connected b'/' (codes "join " ++ to_string id) w on ∙ on_join-sent_id id w h i)
  on_line-typed (flood n) w on (h, i) =
      on_line-connected b'/' (codes "flood " ++ to_string n) w on ∙ on_flood-sent n w h i
  on_line-typed leave w on h = rw (append-nil) (on_line-connected b'/' (codes "leave") w on)
  on_line-typed (global text) w on h =
      rw (append-nil)
        (on_line-connected b'/' (codes "global " ++ text) w on ∙ on_global-sent text w h)
  on_line-typed (say []) w on h = elim h [ ]
  on_line-typed (say (c ∷ text)) w on (h, i) =
      rw (append-nil) (on_line-connected c text w on ∙ on_text-say c text w h i)
