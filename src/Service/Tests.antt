-- ===== src/Service/Tests.antt =====
-- A service whose application does nothing, with a client session that dials and a server session that
-- is accepted, and witnesses.
use iocp_multi_threading_cha.Prelude.{ℕ, pos, ◌≡◌, refl, true, false, some, [], replicate}
use iocp_multi_threading_cha.Session.{Session, success, failed, Kernel, disconnect}
use iocp_multi_threading_cha.Session.Receive.{register_recv, after_wsa_recv}
use iocp_multi_threading_cha.Service.{
  Service, Hooks, connect, after_connect_ex, set_session, process_connect, iocp_dispatch, completed,
  connect_event, add_session, hand_on, dispatch,
}
use iocp_multi_threading_cha.Service.Follows.{Follows-refl}
use iocp_multi_threading_cha.Service.Registered.{Steady-refl, Registered, WellBehaved}
use iocp_multi_threading_cha.Service.Steps.{
  Fresh, dials, accepts, completes, Reach, here, next, Reach-Registered,
}
use iocp_multi_threading_cha.Service.Closing.{Leaked, failed_disconnect-Leaked}
use iocp_multi_threading_cha.Ring.{write_span, write_head, write_tail}
use iocp_multi_threading_cha.Service.Census.{Tallies, ccu-length}
use iocp_multi_threading_cha.Stats.{
  ServerStats, init, on_session_connected, on_session_disconnected, on_packet_received,
}
use iocp_multi_threading_cha.Prelude.{length, ◌%◌}

abbrev kernel : Kernel
kernel = record {
  wsa_send = λ _. success;
  wsa_recv = λ _ _. success;
  disconnect_ex = failed 997;
  stack_spans = record {
    first = record { buf = 0; len = 0 };
    second = record { buf = 0; len = 0 };
  };
}

abbrev new_session : Session
new_session = record {
  connected = false;
  recv_buffer = record { buffer = replicate 8 0; capacity = 8; read_pos = 0; write_pos = 0 };
  send_queue = [];
  is_sending = false;
  send_offset = 0;
  send_buffers = [];
  connect_owner = false;
  disconnect_owner = false;
  recv_owner = false;
  send_owner = false;
}

abbrev new_service : Service ℕ
new_service = record { session = λ j. new_session; sessions = []; session_count = 0; app = 0 }

abbrev silent : Hooks ℕ
silent = record { on_connected = λ j v. v; on_disconnected = λ j v. v; on_recv_packet = λ j b l. l }

silent-WellBehaved : WellBehaved silent
silent-WellBehaved = record {
  on_connected = λ j v. Steady-refl v;
  on_disconnected = λ j v. Steady-refl v;
  on_recv_packet = λ j b l. record { own = Follows-refl l.session; rest = Steady-refl l.app };
}

new_service-Fresh : Fresh new_service
new_service-Fresh = record { quiet = λ j. (refl, refl); none_listed = refl; none_counted = refl }

abbrev dialled : Service ℕ
dialled =
    set_session 1
      (connect kernel (record { bound = true; registered = true; connect_ex = failed 997 })
        new_session).1
      new_service

dialled-Reach : Reach silent new_service dialled
dialled-Reach = next here (dials kernel _ 1 refl refl)

-- Session 1 dials, session 2 is accepted, the dial succeeds, and session 2 disconnects.
abbrev busy : Service ℕ
busy =
    (iocp_dispatch silent kernel (completed (some (1, connect_event)) (pos 0))
      (process_connect silent kernel 2 dialled)).1

busy-Reach : Reach silent new_service busy
unfolding connect after_connect_ex
busy-Reach =
    next (next dialled-Reach (accepts kernel 2 refl refl))
      (completes kernel (completed (some (1, connect_event)) (pos 0)) refl)

busy-Registered : Registered busy
busy-Registered =
    Reach-Registered silent silent-WellBehaved new_service busy new_service-Fresh busy-Reach

Reach-Registered_example : Registered busy
Reach-Registered_example =
    Reach-Registered silent silent-WellBehaved new_service busy new_service-Fresh busy-Reach

dialled-Registered : Registered dialled
dialled-Registered =
    Reach-Registered silent silent-WellBehaved new_service dialled new_service-Fresh dialled-Reach

is_dialling : (dialled.session 1).connect_owner ≡ true
unfolding connect after_connect_ex
is_dialling = refl

-- `DisconnectEx` fails with WSAENOTCONN.
abbrev no_disconnect : Kernel
no_disconnect = record kernel { disconnect_ex = failed 10057 }

is_connected : (busy.session 2).connected ≡ true
unfolding connect after_connect_ex process_connect iocp_dispatch add_session hand_on dispatch
    register_recv after_wsa_recv write_span write_head write_tail
is_connected = refl

failed_disconnect-Leaked_example :
    Leaked silent 2 (set_session 2 (disconnect no_disconnect (busy.session 2)) busy)
failed_disconnect-Leaked_example =
    failed_disconnect-Leaked silent no_disconnect 2 10057 busy busy-Registered is_connected refl
      refl

-- The hooks of the chat server, as far as they count.
abbrev counting : Hooks ServerStats
counting = record {
  on_connected = λ j v. record v { app = on_session_connected v.app };
  on_disconnected = λ j v. record v { app = on_session_disconnected v.app };
  on_recv_packet =
      λ j b l. record l { app = record l.app { app = on_packet_received (length b) l.app.app } };
}

abbrev counted_service : Service ServerStats
counted_service = record {
  session = λ j. new_session;
  sessions = [];
  session_count = 0;
  app = init 0;
}

counting-WellBehaved : WellBehaved counting
counting-WellBehaved = record {
  on_connected =
      λ j v. record { each = λ i. Follows-refl (v.session i); listed = refl; counted = refl };
  on_disconnected =
      λ j v. record { each = λ i. Follows-refl (v.session i); listed = refl; counted = refl };
  on_recv_packet = λ j b l. record {
    own = Follows-refl l.session;
    rest = record { each = λ i. Follows-refl (l.app.session i); listed = refl; counted = refl };
  };
}

counting-Tallies : Tallies counting (λ s. s.current_ccu)
counting-Tallies = record { up = λ j v. refl; down = λ j v. refl; same = λ j b l. refl }

counted_service-Fresh : Fresh counted_service
counted_service-Fresh = record {
  quiet = λ j. (refl, refl);
  none_listed = refl;
  none_counted = refl;
}

abbrev one_user : Service ServerStats
one_user = process_connect counting kernel 3 counted_service

ccu-length_example : one_user.app.current_ccu ≡ length one_user.sessions % 4294967296
ccu-length_example =
    ccu-length counting (λ s. s.current_ccu) counting-WellBehaved counting-Tallies counted_service
      one_user counted_service-Fresh refl (next here (accepts kernel 3 refl refl))
