-- ===== src/Abuse/Heartbeat.antt =====
-- `AbuseMonitor::CheckHeartbeatTimeouts` and `GetRecentLogs` of
-- Source/ChatServer/Service/AbuseMonitor.cpp.
use iocp_multi_threading_cha.Prelude.{
  ℕ, suc, ltb, ◌&&◌, ◌+◌, ◌%◌, ◌≡◌, ◌∙◌, refl, ap, inl, inr, Bool, List, [], ◌∷◌, ◌++◌, map,
  append_assoc, append-nil, if◌then◌else◌, length, Bool-cases, arith,
}
use iocp_multi_threading_cha.Session.{Kernel, disconnect}
use iocp_multi_threading_cha.Abuse.{
  heartbeat_timeout, AbuseLogEntry, AbuseMonitor, Clock, unauth, any_ip, or_else, report_abuse,
  Client, narrow, timed_out, check_heartbeat_timeouts,
}

-- A client is overdue at `now`: it is connected, it has been heard of, and its last heartbeat is more than the time-out
-- ago.
abbrev pub overdue : ℕ → ℕ → Client → Bool
overdue now timeout_ms c =
    c.session.connected
    && (ltb 0 c.last_heartbeat_tick && ltb (c.last_heartbeat_tick + timeout_ms) now)

timed_out-overdue :
    (k : Kernel) (now timeout_ms : ℕ) (c : Client)
    → timed_out k now timeout_ms c ≡ overdue now timeout_ms c
timed_out-overdue k now timeout_ms c = ground arith

module _ (k : Kernel) (now timeout_ms : ℕ) where
  -- A client after the check, and the entry of one that is overdue.
  abbrev pub checked : Client → Client
  checked c = if overdue now timeout_ms c then record c { session = disconnect k c.session } else c

  abbrev pub late_entry : Clock → Client → AbuseLogEntry
  late_entry clock c = record {
    session_id = c.session_id;
    player_name = unauth;
    ip_address = or_else (narrow c.ip_address) any_ip;
    port = c.port;
    reason = heartbeat_timeout;
    timestamp = clock.tick;
    time_str = clock.time_str;
  }

  abbrev pub late_entries : (ℕ → Clock) → List Client → List AbuseLogEntry
  late_entries clock [] = []
  late_entries clock (c ∷ cs) =
      let rest = late_entries (λ i. clock (suc i)) cs in
      if overdue now timeout_ms c then late_entry (clock 0) c ∷ rest else rest

  -- The check disconnects exactly the connected clients whose last heartbeat is not 0 and more than the
  -- time-out before `now`, and changes no other; it logs each of these once, in their order, behind the log
  -- so far, with what the clock then shows, and every such entry has the name (Unauth), whoever is logged in; both
  -- abuse counters rise by their number, modulo 2 ^ 32.
  pub check_heartbeat_timeouts-late :
      (clock : ℕ → Clock) (cs : List Client) (m : AbuseMonitor)
      → let (cs', m') = check_heartbeat_timeouts k now timeout_ms clock cs m in
        (cs' ≡ map checked cs)
        × (m'.logs ≡ m.logs ++ late_entries clock cs)
        × (m'.abuse_count % 4294967296
            ≡ (m.abuse_count + length (late_entries clock cs)) % 4294967296)
        × (m'.stats.total_abuse_disconnects % 4294967296
            ≡ (m.stats.total_abuse_disconnects + length (late_entries clock cs)) % 4294967296)
  unfolding check_heartbeat_timeouts report_abuse
  check_heartbeat_timeouts-late clock [] m = (refl, rw (append-nil) refl, omega arith, omega arith)
  check_heartbeat_timeouts-late clock (c ∷ cs) m = elim (Bool-cases (overdue now timeout_ms c)) [
    | inl e ↦
        let t = timed_out-overdue k now timeout_ms c ∙ e in
        let (same, logs, count, stats) =
          check_heartbeat_timeouts-late (λ i. clock (suc i)) cs
            (report_abuse (clock 0) c.session_id [] (narrow c.ip_address) c.port heartbeat_timeout
              m) in
        (
          rw (t, e) (ap (λ l. record c { session = disconnect k c.session } ∷ l) same),
          rw (t, e)
              (logs
                ∙ append_assoc m.logs (late_entry (clock 0) c ∷ [])
                    (late_entries (λ i. clock (suc i)) cs)),
          rw (t, e) (omega (arith, count)),
          rw (t, e) (omega (arith, stats)),
        )
    | inr e ↦
        let t = timed_out-overdue k now timeout_ms c ∙ e in
        let (same, logs, count, stats) = check_heartbeat_timeouts-late (λ i. clock (suc i)) cs m in
        (rw (t, e) (ap (λ l. c ∷ l) same), rw (t, e) logs, rw (t, e) count, rw (t, e) stats)
  ]
