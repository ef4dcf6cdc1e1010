-- ===== src/Console.antt =====
-- The console client: the loop over the lines of Source/ChatClient/Main.cpp, the session of
-- Source/ChatClient/Session/ServerSession.h and ServerSession.cpp, and the handlers of
-- Source/ChatClient/Protocol/ClientPacketHandlerImpl.cpp. A line is what `std::getline` returned, so it
-- has no line feed; what the program prints is data. `MakeSendBuffer` is an argument.
pub mod Words
pub mod Reading
pub mod Typed
pub mod View
pub mod Agree
pub mod Runs
mod Tests
use iocp_multi_threading_cha.Prelude.{
  ℕ, zero, suc, ◌+◌, ◌%◌, Bool, true, false, not, Option, none, some, List, [], ◌∷◌, ◌++◌, ltb, leb,
  ◌==◌, if◌then◌else◌, length, codes, equal, positive,
}
use iocp_multi_threading_cha.Console.Words.{Extracted, word, extract_int}
use iocp_multi_threading_cha.Decimal.{to_string, skip_space}
use iocp_multi_threading_cha.Protocol.{
  RoomsInfo, SLogin, CEnterRoom, SEnterRoom, SChat, Message, c_login, s_login, c_heartbeat,
  c_room_list, s_room_list, c_enter_room, s_enter_room, c_leave_room, s_leave_room, c_room_chat,
  s_room_chat, c_global_chat, s_global_chat, s_notice,
}
use iocp_multi_threading_cha.Protocol.Handlers.{client_case, handle_packet}
use iocp_multi_threading_cha.Session.{Bytes, Session, Kernel, send}

-- What the program prints.
pub data Output : Type 0 where
  connected_to_server disconnected_from_server parse_failed not_connected help exiting : Output
  usage_login usage_join usage_global unknown_command no_room : Output
  flood_test : (count : ℕ) → Output
  login_success : SLogin → Output
  login_failed : (message : Bytes) → Output
  room_table : (rooms : List RoomsInfo) (total_user_count : ℕ) → Output
  room_joined : SEnterRoom → Output
  room_error : (room_id : ℕ) → Output
  room_left : (prev_room_id : ℕ) → Output
  room_line : (is_me : Bool) (room_id : ℕ) → SChat → Output
  global_line : (is_me : Bool) → SChat → Output
  notice : (message : Bytes) → Output

pub record ServerSession : Type 0 where
  pub player_name : Bytes
  pub is_logged_in : Bool
  pub current_room_id : ℕ
  pub session : Session

pub record Console : Type 0 where
  pub server_session : ServerSession
  pub is_running : Bool
  pub sent : List Message
  pub printed : List Output

abbrev pub print : Output → Console → Console
print o w = record w { printed = w.printed ++ (o ∷ []) }

abbrev pub set_session : ServerSession → Console → Console
set_session s w = record w { server_session = s }

-- `ServerSession::OnConnected` and `OnDisconnected`.
abbrev pub on_connected : Console → Console
on_connected w = print connected_to_server w

unfoldable pub on_disconnected : Console → Console
on_disconnected w =
    print disconnected_from_server
      (set_session (record w.server_session { is_logged_in = false; current_room_id = 0 }) w)

-- `Handle_S_LOGIN`.
abbrev pub handle_s_login : SLogin → Console → Console
handle_s_login p w =
    if p.success
    then print (login_success p)
        (set_session (record w.server_session { is_logged_in = true; player_name = p.name }) w)
    else print (login_failed p.message) w

-- `totalUserCount`, a sum of `int32`s.
unfoldable pub total_user_count : ℕ → List RoomsInfo → ℕ
total_user_count total [] = total
total_user_count total (room ∷ rooms) =
    total_user_count ((total + room.user_count) % 4294967296) rooms

-- `Handle_S_ROOM_LIST`.
abbrev pub handle_s_room_list : List RoomsInfo → Console → Console
handle_s_room_list rooms w = print (room_table rooms (total_user_count 0 rooms)) w

-- `Handle_S_ENTER_ROOM`.
abbrev pub handle_s_enter_room : SEnterRoom → Console → Console
handle_s_enter_room p w =
    if p.success
    then print (room_joined p)
        (set_session (record w.server_session { current_room_id = p.room_id }) w)
    else print (room_error p.room_id) w

-- `Handle_S_LEAVE_ROOM`.
abbrev pub handle_s_leave_room : Bool → Console → Console
handle_s_leave_room success w =
    if success
    then print (room_left w.server_session.current_room_id)
        (set_session (record w.server_session { current_room_id = 0 }) w)
    else w

-- The `Handle_*` functions of the client; the case left out, `Handle_S_HEARTBEAT`, only returns true.
unfoldable pub handle : Message → Console → Bool × Console
handle (s_login p) w = (true, handle_s_login p w)
handle (s_room_list rooms) w = (true, handle_s_room_list rooms w)
handle (s_enter_room p) w = (true, handle_s_enter_room p w)
handle (s_leave_room success) w = (true, handle_s_leave_room success w)
handle (s_room_chat p) w = (
  true,
  print
      (room_line (equal w.server_session.player_name p.sender_name) w.server_session.current_room_id
        p)
      w,
)
handle (s_global_chat p) w =
    (true, print (global_line (equal w.server_session.player_name p.sender_name) p) w)
handle (s_notice message) w = (true, print (notice message) w)
handle _ w = (true, w)

abbrev pub after_handle : Bool × Console → Console
after_handle (true, w) = w
after_handle (false, w) = print parse_failed w

-- `ServerSession::OnRecvPacket`.
unfoldable pub on_recv_packet : Bytes → Console → Console
unfolding handle
on_recv_packet buffer w = after_handle (handle_packet handle client_case buffer w)

module _ (k : Kernel) (make_send_buffer : Message → Option Bytes) where
  -- `serverSession->Send(pkt.MakeSendBuffer())`.
  abbrev pub transmit : Message → Console → Console
  transmit p w =
      let s = w.server_session in
      record (set_session (record s { session = (send k s.session (make_send_buffer p)).1 }) w) {
        sent = w.sent ++ (p ∷ []);
      }

  -- The branches of the commands that read arguments; `args` is what stands after the command.
  unfoldable pub on_login : Bytes → Console → Console
  unfolding word skip_space
  on_login args w =
      let name = (word (skip_space args)).0 in
      if length name == 0 then print usage_login w else transmit (c_login name) w

  -- `ss >> roomName` reads nothing once `ss >> roomId` has failed.
  unfoldable pub on_join : Bytes → Console → Console
  unfolding word skip_space extract_int
  on_join args w =
      let id = extract_int 0 args in
      let name = if id.failed then [] else (word (skip_space id.unread)).0 in
      if positive id.stored
      then transmit (c_enter_room (record { room_id = id.stored; room_name = name })) w
      else print usage_join w

  unfoldable pub on_global : Bytes → Console → Console
  unfolding skip_space
  on_global args w =
      let msg = skip_space args in
      if length msg == 0 then print usage_global w else transmit (c_global_chat msg) w

  -- The rounds of the loop of `/flood` from `n` on.
  unfoldable pub flood_from : ℕ → ℕ → Console → Console
  flood_from zero n w = w
  flood_from (suc rounds) n w =
      flood_from rounds (suc n)
        (transmit (c_room_chat (codes "Flooding packet #" ++ to_string (suc n))) w)

  unfoldable pub on_flood : Bytes → Console → Console
  unfolding extract_int flood_from
  on_flood args w =
      let count = (extract_int 50 args).stored in
      flood_from (if positive count then count else 0) 0 (print (flood_test count) w)

  -- A line that starts with '/'.
  unfoldable pub on_command : Bytes → Bytes → Console → Console
  unfolding on_login on_join on_global on_flood
  on_command cmd args w =
      if equal cmd (codes "/help")
      then print help w
      else if equal cmd (codes "/login")
      then on_login args w
      else if equal cmd (codes "/list")
      then transmit c_room_list w
      else if equal cmd (codes "/join")
      then on_join args w
      else if equal cmd (codes "/leave")
      then transmit c_leave_room w
      else if equal cmd (codes "/global")
      then on_global args w
      else if equal cmd (codes "/flood")
      then on_flood args w
      else if equal cmd (codes "/quit")
      then record (print exiting w) { is_running = false }
      else print unknown_command w

  -- A line of a connected client.
  unfoldable pub on_text : ℕ → Bytes → Console → Console
  unfolding on_command word skip_space
  on_text c s w =
      let (cmd, args) = word (skip_space (c ∷ s)) in
      if c == b'/'
      then on_command cmd args w
      else if positive w.server_session.current_room_id
      then transmit (c_room_chat (c ∷ s)) w
      else print no_room w

  -- A round of the input loop.
  unfoldable pub on_line : Bytes → Console → Console
  unfolding on_text
  on_line [] w = w
  on_line (c ∷ s) w =
      if not w.server_session.session.connected then print not_connected w else on_text c s w

  -- The input loop over lines that come one after the other.
  unfoldable pub read_lines : List Bytes → Console → Console
  unfolding on_line
  read_lines [] w = w
  read_lines (line ∷ lines) w =
      let rest = read_lines lines (on_line line w) in if w.is_running then rest else w

  -- A round of the heartbeat thread, with the value of `GetTickCount64()`.
  unfoldable pub on_heartbeat : ℕ → Console → Console
  on_heartbeat tick w =
      if w.server_session.session.connected then transmit (c_heartbeat tick) w else w
