-- ===== src/Abuse/Flood.antt =====
-- The guard of `ClientSession::OnRecvPacket` in Source/ChatServer/Session/ClientSession.cpp over a run of
-- packets: how many reach `HandlePacket`, and how often a flood is reported.
use iocp_multi_threading_cha.Prelude.{
  ℕ, suc, ◌+◌, ◌*◌, ◌≤◌, ◌≡◌, ◌∙◌, refl, inl, inr, Bool, true, false, not, List, [], ◌∷◌, ◌++◌,
  one_if, length, Bool-cases, arith,
}
use iocp_multi_threading_cha.Session.{Bytes, Kernel}
use iocp_multi_threading_cha.Stats.{on_packet_received}
use iocp_multi_threading_cha.TokenBucket.{TokenBucket, consume, consume_each}
use iocp_multi_threading_cha.TokenBucket.Limit.{All, budget, consume_each-limit}
use iocp_multi_threading_cha.Abuse.{
  packet_flooding, AbuseLogEntry, Clock, report_abuse, Env, punish, after_handle, after_consume,
  on_recv_packet, recv_each,
}

abbrev is_flood : AbuseLogEntry → Bool
is_flood entry = elim entry.reason [ packet_flooding ↦ true | _ ↦ false ]

-- The reports of floods in a log.
abbrev pub floods : List AbuseLogEntry → ℕ
floods [] = 0
floods (entry ∷ logs) = one_if (is_flood entry) + floods logs

floods-append : (l m : List AbuseLogEntry) → floods (l ++ m) ≡ floods l + floods m
floods-append [] m = omega arith
floods-append (entry ∷ l) m = omega (arith, floods-append l m)

abbrev pub ticks : List (Clock × Bytes) → List ℕ
ticks [] = []
ticks ((clock, packet) ∷ rest) = clock.tick ∷ ticks rest

module _ {A : Type 0} (calls : A → ℕ) (handle_packet : Bytes → Env A → Bool × Env A) where
  -- A handler that `calls` counts, and that leaves the guard to `OnRecvPacket`.
  pub record Counted : Type 0 where
    pub counts : (b : Bytes) (e : Env A) → calls (handle_packet b e).1.app ≡ suc (calls e.app)
    pub same_bucket :
        (b : Bytes) (e : Env A) → (handle_packet b e).1.client.rate_limiter ≡ e.client.rate_limiter
    pub same_flag :
        (b : Bytes) (e : Env A)
        → (handle_packet b e).1.client.is_abuse_reported ≡ e.client.is_abuse_reported
    pub no_flood :
        (b : Bytes) (e : Env A) → floods (handle_packet b e).1.monitor.logs ≡ floods e.monitor.logs

  -- One packet: the call if the bucket passes it, else the report if there was none.
  record Guarded (passed : Bool) (bucket : TokenBucket) (e e' : Env A) : Type 0 where
    called : calls e'.app ≡ one_if passed + calls e.app
    bucket_left : e'.client.rate_limiter ≡ bucket
    reports :
        floods e'.monitor.logs + one_if (not e'.client.is_abuse_reported)
        ≡ floods e.monitor.logs + one_if (not e.client.is_abuse_reported)

  module _ (k : Kernel) (h : Counted) where
    punish-flood :
        (clock : Clock) (bucket : TokenBucket) (e : Env A)
        → Guarded false bucket e (
            punish k handle_packet clock packet_flooding
              (not e.client.is_abuse_reported)
              (record e {
                client = record e.client { rate_limiter = bucket; is_abuse_reported = true };
              }))
    unfolding report_abuse
    punish-flood clock bucket e = record {
      called = omega arith;
      bucket_left = refl;
      reports = elim (Bool-cases e.client.is_abuse_reported) [
        | inl old ↦ rw (old) (omega arith)
        | inr first ↦ rw (first, floods-append) (omega arith)
      ];
    }

    after_handle-Guarded :
        (clock : Clock) (packet : Bytes) (bucket : TokenBucket) (e : Env A)
        → e.client.rate_limiter ≡ bucket
        → Guarded true bucket e (after_handle k handle_packet clock (handle_packet packet e))
    unfolding after_handle report_abuse
    after_handle-Guarded clock packet bucket e b =
        go (handle_packet packet e) (h.counts packet e) (h.same_bucket packet e ∙ b)
          (h.same_flag packet e) (h.no_flood packet e)
      where
        go :
            (out : Bool × Env A)
            → calls out.1.app ≡ suc (calls e.app)
            → out.1.client.rate_limiter ≡ bucket
            → out.1.client.is_abuse_reported ≡ e.client.is_abuse_reported
            → floods out.1.monitor.logs ≡ floods e.monitor.logs
            → Guarded true bucket e (after_handle k handle_packet clock out)
        go (true, out) c b f l = record {
          called = omega (arith, c);
          bucket_left = b;
          reports = rw (f, l) refl;
        }
        go (false, out) c b f l = record {
          called = omega (arith, c);
          bucket_left = b;
          reports = rw (floods-append, f, l) (omega arith);
        }

    on_recv_packet-Guarded :
        (clock : Clock) (packet : Bytes) (e : Env A)
        → Guarded
            (consume e.client.rate_limiter 1 clock.tick).0
            (consume e.client.rate_limiter 1 clock.tick).1
            e
            (on_recv_packet k handle_packet clock packet e)
    unfolding on_recv_packet after_consume
    on_recv_packet-Guarded clock packet e = go (consume e.client.rate_limiter 1 clock.tick)
      where
        counted : Env A
        counted = record e {
          monitor = record e.monitor { stats = on_packet_received (length packet) e.monitor.stats };
        }

        go :
            (c : Bool × TokenBucket)
            → Guarded c.0 c.1 e (after_consume k handle_packet clock packet c counted)
        go (false, b) =
            let g = punish-flood clock b counted in
            record { called = g.called; bucket_left = g.bucket_left; reports = g.reports }
        go (true, b) =
            let g =
              after_handle-Guarded clock packet b
                (record counted {
                  client = record e.client { rate_limiter = b; last_heartbeat_tick = clock.tick };
                })
                refl in
            record { called = g.called; bucket_left = g.bucket_left; reports = g.reports }

    pub recv_each-sums :
        (packets : List (Clock × Bytes)) (e : Env A)
        → let e' = recv_each k handle_packet packets e in
          (calls e'.app ≡ (consume_each e.client.rate_limiter (ticks packets)).0 + calls e.app)
          × (floods e'.monitor.logs + one_if (not e'.client.is_abuse_reported)
              ≡ floods e.monitor.logs + one_if (not e.client.is_abuse_reported))
    unfolding recv_each consume_each
    recv_each-sums [] e = (omega arith, refl)
    recv_each-sums ((clock, packet) ∷ rest) e =
        let first = on_recv_packet-Guarded clock packet e in
        let (c, r) = recv_each-sums rest (on_recv_packet k handle_packet clock packet e) in
        let c' = rw (first.bucket_left) at c in
        (ground (arith, c', first.called), r ∙ first.reports)

    -- The packets of a client that reach the handler, in any run up to a time, are at most the tokens at
    -- the start and those earned since; and the run reports a flood once at most, and not if one was
    -- reported before.
    pub recv_each-limit :
        (packets : List (Clock × Bytes)) (end : ℕ) (e : Env A)
        → All (ticks packets) end
        → e.client.rate_limiter.last_refill_tick ≤ end
        → let e' = recv_each k handle_packet packets e in
          (1000 * calls e'.app ≤ 1000 * calls e.app + budget e.client.rate_limiter end)
          × (floods e'.monitor.logs
              ≤ floods e.monitor.logs + one_if (not e.client.is_abuse_reported))
    recv_each-limit packets end e times l =
        let (c, r) = recv_each-sums packets e in
        let limit = consume_each-limit e.client.rate_limiter (ticks packets) end times l in
        (omega (arith, c, limit), ground (arith, r))
