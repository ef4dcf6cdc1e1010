-- ===== src/Service.antt =====
-- The life of a connection: `Session::Connect`, `ProcessConnect`, `ProcessDisconnect` and `Dispatch` of
-- Source/ServerEngine/Network/Session.cpp, the set of sessions of Service.h and Service.cpp, and
-- `IocpCore::Dispatch` of IocpCore.cpp. A session is a number. The application's hooks and the
-- answers of the system's calls are parameters.
pub mod Follows
pub mod Receiving
pub mod Registered
pub mod Steps
pub mod Closing
pub mod Census
pub mod Starting
mod Tests
use iocp_multi_threading_cha.Prelude.{
  ℕ, ℤ, pos, ◌+◌, ◌%◌, Bool, true, false, not, Option, none, some, List, [], ◌∷◌, ◌==◌,
  if◌then◌else◌, update, occurs, length,
}
use iocp_multi_threading_cha.Session.{
  Bytes, Session, Outcome, success, failed, Kernel, wsa_io_pending, disconnect, handle_error, send,
  process_send,
}
use iocp_multi_threading_cha.Session.Receive.{Live, register_recv, process_recv}

pub record Service (U : Type 0) : Type 0 where
  pub session : ℕ → Session
  pub sessions : List ℕ
  pub session_count : ℕ
  pub app : U

pub data EventType : Type 0 where
  connect_event : EventType
  disconnect_event : EventType
  accept_event : EventType
  recv_event : EventType
  send_event : EventType

-- What `BindAnyAddress`, `IocpCore::Register` and `ConnectEx` answer.
pub record Dial : Type 0 where
  pub bound : Bool
  pub registered : Bool
  pub connect_ex : Outcome

-- The end of `RegisterConnect`, on what `ConnectEx` returns.
unfoldable pub after_connect_ex : Kernel → Outcome → Session → Bool × Session
after_connect_ex k success s = (true, s)
after_connect_ex k (failed code) s =
    if code == wsa_io_pending
    then (true, s)
    else (false, record (handle_error k code s) { connect_owner = false })

-- `Session::Connect`, which is `RegisterConnect`.
unfoldable pub connect : Kernel → Dial → Session → Bool × Session
unfolding after_connect_ex
connect k dial s =
    if s.connected
    then (false, s)
    else if not dial.bound
    then (false, s)
    else if not dial.registered
    then (false, s)
    else after_connect_ex k dial.connect_ex (record s { connect_owner = true })

-- `erase` and `insert` of the set.
abbrev pub erase : ℕ → List ℕ → List ℕ
erase j [] = []
erase j (i ∷ is) = if i == j then is else i ∷ erase j is

abbrev pub insert : ℕ → List ℕ → List ℕ
insert j is = if occurs j is == 0 then j ∷ is else is

-- Whether the event of a session that completed has an owner, and the session without it.
abbrev pub owner : EventType → Session → Bool
owner connect_event s = s.connect_owner
owner disconnect_event s = s.disconnect_owner
owner accept_event s = false
owner recv_event s = s.recv_owner
owner send_event s = s.send_owner

abbrev pub drop_owner : EventType → Session → Session
drop_owner connect_event s = record s { connect_owner = false }
drop_owner disconnect_event s = record s { disconnect_owner = false }
drop_owner accept_event s = s
drop_owner recv_event s = record s { recv_owner = false }
drop_owner send_event s = record s { send_owner = false }

module _ {U : Type 0} where
  abbrev pub set_session : ℕ → Session → Service U → Service U
  set_session j s v = record v { session = update v.session j s }

  -- `Service::AddSession` and `ReleaseSession`; the count is an `int32`, modulo 2 ^ 32.
  unfoldable pub add_session : ℕ → Service U → Service U
  add_session j v = record v {
    session_count = (v.session_count + 1) % 4294967296;
    sessions = insert j v.sessions;
  }

  unfoldable pub release_session : ℕ → Service U → Service U
  release_session j v = record v {
    session_count = (v.session_count + 4294967295) % 4294967296;
    sessions = erase j v.sessions;
  }

  -- The loops of `Service::Broadcast` and `Service::Stop`.
  unfoldable pub send_each : Kernel → Bytes → List ℕ → Service U → Service U
  send_each k b [] v = v
  send_each k b (j ∷ js) v = send_each k b js (set_session j (send k (v.session j) (some b)).1 v)

  unfoldable pub disconnect_each : Kernel → List ℕ → Service U → Service U
  disconnect_each k [] v = v
  disconnect_each k (j ∷ js) v = disconnect_each k js (set_session j (disconnect k (v.session j)) v)

  -- `Service::Broadcast`.
  unfoldable pub broadcast : Kernel → Bytes → Service U → Service U
  unfolding send_each
  broadcast k b v = send_each k b v.sessions v

  -- `Service::Stop`.
  unfoldable pub stop : Kernel → Service U → Service U
  unfolding disconnect_each
  stop k v = record (disconnect_each k v.sessions v) { sessions = [] }

-- What the application does when a session has connected, has disconnected and has a packet. While a
-- packet is handled, the session it came from stands beside the service.
pub record Hooks (U : Type 0) : Type 0 where
  pub on_connected : ℕ → Service U → Service U
  pub on_disconnected : ℕ → Service U → Service U
  pub on_recv_packet : ℕ → Bytes → Live (Service U) → Live (Service U)

-- What `GetQueuedCompletionStatus` returns: a completion, with the event of a session if there is
-- one, or a failure with its code.
pub data Completion : Type 0 where
  completed : Option (ℕ × EventType) → ℤ → Completion
  broken : ℕ → Option (ℕ × EventType) → ℤ → Completion

abbrev pub wait_timeout : ℕ
wait_timeout = 258

module _ {U : Type 0} (hooks : Hooks U) (k : Kernel) where
  -- `Session::ProcessConnect`.
  unfoldable pub process_connect : ℕ → Service U → Service U
  unfolding add_session
  process_connect j v =
      let s = record (v.session j) { connect_owner = false; connected = true } in
      let added = add_session j (set_session j s v) in
      let told = hooks.on_connected j added in set_session j (register_recv k (told.session j)) told

  -- `Session::ProcessDisconnect`.
  unfoldable pub process_disconnect : ℕ → Service U → Service U
  unfolding release_session
  process_disconnect j v =
      let s = record (v.session j) { disconnect_owner = false } in
      release_session j (hooks.on_disconnected j (set_session j s v))

  -- `ProcessRecv` of session `j`.
  unfoldable pub recv_of : ℕ → ℤ → Service U → Service U
  recv_of j n v =
      let live =
        process_recv k (hooks.on_recv_packet j) (record { session = v.session j; app = v }) n in
      set_session j live.session live.app

  -- `ProcessSend` of session `j`; the kernel never sends a negative number of bytes.
  unfoldable pub send_of : ℕ → ℤ → Service U → Service U
  send_of j (pos n) v = set_session j (process_send k (v.session j) n).1 v
  send_of j _ v = v

  -- `Session::Dispatch`.
  unfoldable pub dispatch : ℕ → EventType → ℤ → Service U → Service U
  unfolding process_connect process_disconnect recv_of send_of
  dispatch j connect_event n v = process_connect j v
  dispatch j disconnect_event n v = process_disconnect j v
  dispatch j recv_event n v = recv_of j n v
  dispatch j send_event n v = send_of j n v
  dispatch j accept_event n v = v

  -- The part of `IocpCore::Dispatch` that both its branches repeat.
  unfoldable pub hand_on : Option (ℕ × EventType) → ℤ → Service U → Service U
  unfolding dispatch
  hand_on none n v = v
  hand_on (some (j, event)) n v =
      if owner event (v.session j)
      then dispatch j event n (set_session j (drop_owner event (v.session j)) v)
      else v

  -- `IocpCore::Dispatch`.
  unfoldable pub iocp_dispatch : Completion → Service U → Bool × Service U
  unfolding hand_on
  iocp_dispatch (completed event n) v = (true, hand_on event n v)
  iocp_dispatch (broken code event n) v =
      if code == wait_timeout then (false, v) else (false, hand_on event n v)
