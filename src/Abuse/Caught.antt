-- ===== src/Abuse/Caught.antt =====
-- A client that floods, before the guard of `ClientSession::OnRecvPacket` in
-- Source/ChatServer/Session/ClientSession.cpp.
use iocp_multi_threading_cha.Prelude.{
  ℕ, ◌+◌, ◌*◌, ◌≤◌, ◌<◌, ◌≡◌, ◌∙◌, ◌⊎◌, refl, inl, inr, Bool, true, false, List, [], ◌∷◌, length,
  Bool-cases, arith,
}
use iocp_multi_threading_cha.Session.{Bytes, Kernel}
use iocp_multi_threading_cha.Session.Partial.{connected-disconnect}
use iocp_multi_threading_cha.Stats.{on_packet_received}
use iocp_multi_threading_cha.TokenBucket.{TokenBucket, consume, consume_each}
use iocp_multi_threading_cha.TokenBucket.Limit.{All, budget, consume_each-limit}
use iocp_multi_threading_cha.Abuse.{
  Clock, report_abuse, Env, after_handle, after_consume, on_recv_packet, recv_each,
}
use iocp_multi_threading_cha.Abuse.Flood.{floods, ticks, Counted, recv_each-sums}

module _ {A : Type 0} where
  -- The flood is noted, and the connection closed.
  pub record Caught (e : Env A) : Type 0 where
    pub reported : e.client.is_abuse_reported ≡ true
    pub closed : e.client.session.connected ≡ false

  -- A handler that leaves the guard's fields alone and connects nothing.
  pub record Keeps (handle_packet : Bytes → Env A → Bool × Env A) : Type 0 where
    pub same_bucket :
        (b : Bytes) (e : Env A) → (handle_packet b e).1.client.rate_limiter ≡ e.client.rate_limiter
    pub stays : (b : Bytes) (e : Env A) → Caught e → Caught (handle_packet b e).1

  module _ (k : Kernel) (handle_packet : Bytes → Env A → Bool × Env A)
      (h : Keeps handle_packet) where
    after_handle-keeps :
        (clock : Clock) (out : Bool × Env A)
        → ((after_handle k handle_packet clock out).client.rate_limiter ≡ out.1.client.rate_limiter)
          × (Caught out.1 → Caught (after_handle k handle_packet clock out))
    unfolding after_handle
    after_handle-keeps clock (true, e) = (refl, λ c. c)
    after_handle-keeps clock (false, e) = (
      refl,
      λ c. record { reported = c.reported; closed = connected-disconnect k e.client.session },
    )

    -- A packet that the bucket refuses closes the connection; one that it passes opens none.
    after_consume-Caught :
        (clock : Clock) (packet : Bytes) (c : Bool × TokenBucket) (e : Env A)
        → let e' = after_consume k handle_packet clock packet c e in
          (e'.client.rate_limiter ≡ c.1) × (c.0 ≡ false → Caught e') × (Caught e → Caught e')
    unfolding after_consume report_abuse
    after_consume-Caught clock packet (false, b) e = (
      refl,
      (λ _. record { reported = refl; closed = connected-disconnect k e.client.session }),
      (λ _. record { reported = refl; closed = connected-disconnect k e.client.session }),
    )
    after_consume-Caught clock packet (true, b) e =
        let given : Env A = record e {
          client = record e.client { rate_limiter = b; last_heartbeat_tick = clock.tick };
        } in
        let (bucket, keeps) = after_handle-keeps clock (handle_packet packet given) in
        (
          bucket ∙ h.same_bucket packet given,
          (λ f. absurd (ground (arith, f))),
          (λ c. keeps (h.stays packet given (record { reported = c.reported; closed = c.closed }))),
        )

    on_recv_packet-Caught :
        (clock : Clock) (packet : Bytes) (e : Env A)
        → let e' = on_recv_packet k handle_packet clock packet e in
          let (passed, b) = consume e.client.rate_limiter 1 clock.tick in
          (e'.client.rate_limiter ≡ b) × (passed ≡ false → Caught e') × (Caught e → Caught e')
    unfolding on_recv_packet
    on_recv_packet-Caught clock packet e =
        let (bucket, refused, keeps) =
          after_consume-Caught clock packet (consume e.client.rate_limiter 1 clock.tick) (record e {
            monitor = record e.monitor {
              stats = on_packet_received (length packet) e.monitor.stats;
            };
          }) in
        (bucket, refused, (λ c. keeps (record { reported = c.reported; closed = c.closed })))

    recv_each-stays :
        (packets : List (Clock × Bytes)) (e : Env A)
        → Caught e
        → Caught (recv_each k handle_packet packets e)
    unfolding recv_each
    recv_each-stays [] e c = c
    recv_each-stays ((clock, packet) ∷ rest) e c =
        recv_each-stays rest _ ((on_recv_packet-Caught clock packet e).2 c)

    Caught-or_passed :
        (packets : List (Clock × Bytes)) (e : Env A)
        → Caught (recv_each k handle_packet packets e)
          ⊎ ((consume_each e.client.rate_limiter (ticks packets)).0 ≡ length packets)
    unfolding recv_each consume_each
    Caught-or_passed [] e = inr refl
    Caught-or_passed ((clock, packet) ∷ rest) e =
        let (bucket, refused, keeps) = on_recv_packet-Caught clock packet e in
        elim (Bool-cases (consume e.client.rate_limiter 1 clock.tick).0) [
          | inr stop ↦ inl (recv_each-stays rest _ (refused stop))
          | inl pass ↦
              elim (Caught-or_passed rest (on_recv_packet k handle_packet clock packet e)) [
                | inl c ↦ inl c
                | inr all ↦ inr (rw (pass) (ground (arith, rw (bucket) at all)))
              ]
        ]

    -- A client of whom no flood was reported, and that sends more packets up to a time than it had tokens
    -- at the start and earned since, is disconnected, and the flood is reported once; the handlers
    -- leave the fields of the guard alone and connect nothing.
    pub recv_each-Caught :
        (calls : A → ℕ) (packets : List (Clock × Bytes)) (end : ℕ) (e : Env A)
        → Counted calls handle_packet
        → All (ticks packets) end
        → e.client.rate_limiter.last_refill_tick ≤ end
        → e.client.is_abuse_reported ≡ false
        → budget e.client.rate_limiter end < 1000 * length packets
        → let e' = recv_each k handle_packet packets e in
          Caught e' × (floods e'.monitor.logs ≡ floods e.monitor.logs + 1)
    recv_each-Caught calls packets end e counted times l fresh many =
        elim (Caught-or_passed packets e) [
          | inl c ↦ (
            c,
            ground (
              arith,
              (recv_each-sums calls handle_packet k counted packets e).1,
              c.reported,
              fresh,
            ),
          )
          | inr all ↦ absurd (
              omega
                (arith, all, consume_each-limit e.client.rate_limiter (ticks packets) end times l))
        ]
