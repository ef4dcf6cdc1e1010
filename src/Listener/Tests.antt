-- ===== src/Listener/Tests.antt =====
-- A listener that starts, and an accept after which `AcceptEx` fails once, and witnesses.
use iocp_multi_threading_cha.Prelude.{
  ℕ, ◌+◌, ◌<◌, ◌≡◌, refl, true, false, some, none, [], ◌==◌, if◌then◌else◌, update, replicate,
  arith,
}
use iocp_multi_threading_cha.Session.{Session, Outcome, success, failed, Kernel}
use iocp_multi_threading_cha.Service.{Hooks, process_connect}
use iocp_multi_threading_cha.Listener.{Listener, Accepted, Opened, dispatch}
use iocp_multi_threading_cha.Listener.Posted.{retried, Posted, dispatch-Posted}

abbrev kernel : Kernel
kernel = record {
  wsa_send = λ _. success;
  wsa_recv = λ _ _. success;
  disconnect_ex = success;
  stack_spans = record {
    first = record { buf = 0; len = 0 };
    second = record { buf = 0; len = 0 };
  };
}

abbrev new_session : Session
new_session = record {
  connected = false;
  recv_buffer = record { buffer = replicate 8 0; capacity = 8; read_pos = 0; write_pos = 0 };
  send_queue = [];
  is_sending = false;
  send_offset = 0;
  send_buffers = [];
  connect_owner = false;
  disconnect_owner = false;
  recv_owner = false;
  send_owner = false;
}

abbrev hooks : Hooks ℕ
hooks = record { on_connected = λ j v. v; on_disconnected = λ j v. v; on_recv_packet = λ j b l. l }

abbrev closed : Listener ℕ
closed = record {
  listening = false;
  created = 0;
  posted = λ e. none;
  service = record { session = λ j. new_session; sessions = []; session_count = 0; app = 0 };
}

abbrev opened : Opened
opened = record {
  created = true;
  reused = true;
  lingering = true;
  bound = true;
  listens = true;
  registered = true;
}

abbrev pending : ℕ → Outcome
pending j = failed 997

-- Event 0 waits with session 0; the call for session 1 fails for want of buffers, that for 2 starts.
abbrev waits : Listener ℕ
waits = record closed { listening = true; created = 1; posted = update closed.posted 0 (some 0) }

abbrev once_full : ℕ → Outcome
once_full j = if j == 1 then failed 10055 else success

abbrev good : Accepted
good = record { updated = true; named = true; registered = true }

fails_once : (m : ℕ) → m < 1 → retried (once_full (1 + m)) ≡ true
fails_once m h = ground (arith, h)

dispatch-Posted_example :
    Posted once_full 0 2
      (record waits { service = process_connect hooks kernel 0 waits.service })
      (dispatch once_full hooks kernel 5 good 0 waits)
dispatch-Posted_example =
    dispatch-Posted once_full hooks kernel 1 5 0 0 good waits refl refl fails_once refl
      (omega arith)
