-- ===== src/Listener.antt =====
-- The accept loop: Source/ServerEngine/Network/Listener.h and Listener.cpp. An accept event is a number,
-- and so is a session; `CreateSession` makes the sessions in their order. What the system's calls
-- answer are parameters: `accept_ex j` is the answer of `AcceptEx` for session `j`.
pub mod Posted
pub mod Starting
mod Tests
use iocp_multi_threading_cha.Prelude.{
  ℕ, zero, suc, ◌+◌, Bool, true, false, not, ◌&&◌, ◌||◌, Option, none, some, ◌==◌, if◌then◌else◌,
  update,
}
use iocp_multi_threading_cha.Session.{Outcome, success, failed, Kernel, wsa_io_pending}
use iocp_multi_threading_cha.Service.{Service, Hooks, process_connect, stop}

-- `posted e` is the session that accept event `e` waits for, while its `AcceptEx` runs.
pub record Listener (U : Type 0) : Type 0 where
  pub listening : Bool
  pub created : ℕ
  pub posted : ℕ → Option ℕ
  pub service : Service U

abbrev pub wsaeintr : ℕ
wsaeintr = 10004

abbrev pub wsaenotsock : ℕ
wsaenotsock = 10038

abbrev pub error_operation_aborted : ℕ
error_operation_aborted = 995

-- Whether `RegisterAccept` tries again after an error that is not `WSA_IO_PENDING`.
abbrev pub tries_again : ℕ → Bool
tries_again code =
    not (code == wsaeintr) && (not (code == wsaenotsock) && not (code == error_operation_aborted))

-- What the calls on an accepted socket answer.
pub record Accepted : Type 0 where
  pub updated : Bool  -- `SetUpdateAcceptSocket`
  pub named : Bool  -- `getpeername`
  pub registered : Bool  -- `IocpCore::Register`

-- What the calls of `StartAccept` before the first `RegisterAccept` answer.
pub record Opened : Type 0 where
  pub created : Bool
  pub reused : Bool
  pub lingering : Bool
  pub bound : Bool
  pub listens : Bool
  pub registered : Bool

abbrev pub accept_count : ℕ
accept_count = 16

module _ {U : Type 0} (accept_ex : ℕ → Outcome) where
  -- After `AcceptEx` for session `j`, with what a further `RegisterAccept` leaves.
  unfoldable pub after_accept_ex : Outcome → ℕ → ℕ → Listener U → Listener U → Listener U
  after_accept_ex success e j l again = record l { posted = update l.posted e (some j) }
  after_accept_ex (failed code) e j l again =
      if code == wsa_io_pending
      then record l { posted = update l.posted e (some j) }
      else if tries_again code && l.listening
      then again
      else l

  -- `Listener::RegisterAccept`, which calls itself, on fuel.
  unfoldable pub register_accept : ℕ → ℕ → Listener U → Listener U
  unfolding after_accept_ex
  register_accept zero e l = l
  register_accept (suc fuel) e l =
      let j = l.created in
      let l' = record l { created = suc j } in
      let again = register_accept fuel e l' in
      if not l.listening then l else after_accept_ex (accept_ex j) e j l' again

  -- The loop of `StartAccept` over events from `e` on.
  unfoldable pub register_all : ℕ → ℕ → ℕ → Listener U → Listener U
  unfolding register_accept
  register_all fuel zero e l = l
  register_all fuel (suc n) e l = register_all fuel n (suc e) (register_accept fuel e l)

  -- `Listener::StartAccept`, for a service that is there.
  unfoldable pub start_accept : ℕ → Opened → Listener U → Bool × Listener U
  unfolding register_all
  start_accept fuel opened l =
      if not opened.created
      then (false, l)
      else if not (
          opened.reused
          && (opened.lingering && (opened.bound && (opened.listens && opened.registered))))
      then (false, record l { listening = true })
      else (true, register_all fuel accept_count 0 (record l { listening = true }))

  -- `ServerService::Start`, for a service with or without a factory of sessions.
  unfoldable pub server_start : Bool → ℕ → Opened → Listener U → Bool × Listener U
  unfolding start_accept
  server_start has_factory fuel opened l =
      if not has_factory then (false, l) else start_accept fuel opened l

  -- `ServerService::Stop`.
  unfoldable pub server_stop : Kernel → Listener U → Listener U
  unfolding stop
  server_stop k l = record l { listening = false; service = stop k l.service }

  module _ (hooks : Hooks U) (k : Kernel) where
    -- `Listener::ProcessAccept` of event `e`, whose `AcceptEx` for session `j` has completed.
    unfoldable pub process_accept : ℕ → Accepted → ℕ → ℕ → Listener U → Listener U
    unfolding register_accept
    process_accept fuel answers e j l =
        if not l.listening
        then l
        else if answers.updated && (answers.named && answers.registered)
        then register_accept fuel e (record l { service = process_connect hooks k j l.service })
        else register_accept fuel e l

    -- A completion of event `e`, by what it waited for.
    unfoldable pub dispatch_to : ℕ → Accepted → ℕ → Option ℕ → Listener U → Listener U
    unfolding process_accept
    dispatch_to fuel answers e none l = l
    dispatch_to fuel answers e (some j) l =
        process_accept fuel answers e j (record l { posted = update l.posted e none })

    -- `Listener::Dispatch`.
    unfoldable pub dispatch : ℕ → Accepted → ℕ → Listener U → Listener U
    unfolding dispatch_to
    dispatch fuel answers e l = dispatch_to fuel answers e (l.posted e) l
