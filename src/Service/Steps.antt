-- ===== src/Service/Steps.antt =====
-- The steps of the service and its threads: dialling, accepting, sending, disconnecting and handing on
-- completions. Session.cpp, Service.cpp and IocpCore.cpp of Source/ServerEngine/Network.
use iocp_multi_threading_cha.Prelude.{
  ℕ, ℤ, pos, negsuc, ◌≡◌, refl, inl, inr, true, false, ◌&&◌, Option, none, some, [], ◌==◌,
  Bool-cases, arith,
}
use iocp_multi_threading_cha.Session.{Bytes, Session, Kernel, disconnect, handle_error, send}
use iocp_multi_threading_cha.Service.{
  Service, EventType, connect_event, disconnect_event, accept_event, recv_event, send_event, Dial,
  after_connect_ex, connect, drop_owner, set_session, Hooks, Completion, completed, broken,
  wait_timeout, process_connect, process_disconnect, recv_of, send_of, dispatch, hand_on,
  iocp_dispatch,
}
use iocp_multi_threading_cha.Service.Follows.{
  starts, is_up, keeps, disconnect-Follows, send-Follows, process_send-Follows,
  register_recv-Follows,
}
use iocp_multi_threading_cha.Service.Receiving.{process_recv-Goes}
use iocp_multi_threading_cha.Service.Registered.{
  Steady, Steady-refl, Steady-trans, Steady-Registered, back-Steady, set-Steady, Registered,
  WellBehaved, Down, added-Registered, released-Registered, dropped-Registered,
}

module _ {U : Type 0} (hooks : Hooks U) (good : WellBehaved hooks) (k : Kernel)
    (ok : starts k.disconnect_ex ≡ true) where
  process_connect-Registered :
      (j : ℕ) (v : Service U)
      → Registered v
      → is_up (v.session j) ≡ false
      → Registered (process_connect hooks k j v)
  unfolding process_connect
  process_connect-Registered j v r down =
      let told = good.on_connected j _ in
      Steady-Registered _ _
        (Steady-trans _ _ _ told (set-Steady j _ _ (register_recv-Follows k ok _)))
        (added-Registered j v r down)

  recv_of-Registered :
      (j : ℕ) (n : ℤ) (v : Service U) → Registered v → Registered (recv_of hooks k j n v)
  unfolding recv_of
  recv_of-Registered j n v r =
      let goes =
        process_recv-Goes Steady Steady-refl Steady-trans (hooks.on_recv_packet j)
          (good.on_recv_packet j) k ok (record { session = v.session j; app = v }) n in
      Steady-Registered _ _ (back-Steady j _ v _ goes.own goes.rest) r

  send_of-Registered :
      (j : ℕ) (n : ℤ) (v : Service U) → Registered v → Registered (send_of hooks k j n v)
  unfolding send_of
  send_of-Registered j (pos n) v r =
      Steady-Registered _ _ (set-Steady j _ v (process_send-Follows k ok (v.session j) n)) r
  send_of-Registered j (negsuc n) v r = r

  process_disconnect-Registered :
      (j : ℕ) (v : Service U)
      → Registered v
      → (v.session j).disconnect_owner ≡ true
      → Registered (
          process_disconnect hooks k j
            (set_session j (drop_owner disconnect_event (v.session j)) v))
  unfolding process_disconnect
  process_disconnect-Registered j v r closing =
      released-Registered j v _ _ r (ground (arith, closing)) gone (good.on_disconnected j _)
    where
      without : Service U
      without = set_session j (drop_owner disconnect_event (v.session j)) v

      gone :
          Down j v (set_session j (record (without.session j) { disconnect_owner = false }) without)
      gone = record {
        down = (ground (arith, r.apart j, closing), ground arith);
        others = λ i e. rw (e) refl;
        same = (refl, refl);
      }

  hand_on-Registered :
      (event : Option (ℕ × EventType)) (n : ℤ) (v : Service U)
      → Registered v
      → Registered (hand_on hooks k event n v)
  unfolding hand_on dispatch
  hand_on-Registered none n v r = r
  hand_on-Registered (some (j, connect_event)) n v r =
      elim (Bool-cases (v.session j).connect_owner) [
        | inl e ↦ simp (e) (
            process_connect-Registered j _ (dropped-Registered j v r)
              (ground (arith, r.dialling j e)))
        | inr e ↦ rw (e) r
      ]
  hand_on-Registered (some (j, disconnect_event)) n v r =
      elim (Bool-cases (v.session j).disconnect_owner) [
        | inl e ↦ simp (e) (process_disconnect-Registered j v r e)
        | inr e ↦ rw (e) r
      ]
  hand_on-Registered (some (j, accept_event)) n v r = r
  hand_on-Registered (some (j, recv_event)) n v r = elim (Bool-cases (v.session j).recv_owner) [
    | inl e ↦ simp (e) (
        recv_of-Registered j n _
          (Steady-Registered _ _ (set-Steady j _ v (keeps refl refl refl)) r))
    | inr e ↦ rw (e) r
  ]
  hand_on-Registered (some (j, send_event)) n v r = elim (Bool-cases (v.session j).send_owner) [
    | inl e ↦ simp (e) (
        send_of-Registered j n _
          (Steady-Registered _ _ (set-Steady j _ v (keeps refl refl refl)) r))
    | inr e ↦ rw (e) r
  ]

module _ (k : Kernel) where
  connect-same :
      (dial : Dial) (s : Session)
      → s.connected ≡ false
      → ((connect k dial s).1.connected ≡ false)
        × ((connect k dial s).1.disconnect_owner ≡ s.disconnect_owner)
  unfolding connect after_connect_ex handle_error disconnect
  connect-same dial s e = (ground (arith, e), ground (arith, e))

module _ {U : Type 0} where
  dialled-Registered :
      (j : ℕ) (s : Session) (v : Service U)
      → Registered v
      → is_up (v.session j) ≡ false
      → (s.connected ≡ false) × (s.disconnect_owner ≡ (v.session j).disconnect_owner)
      → Registered (set_session j s v)
  dialled-Registered j s v r down (c, d) = record {
    listed = λ i. ground (arith, r.listed i, r.listed j, down, c, d);
    apart = λ i. ground (arith, r.apart i, down, c, d);
    dialling = λ i h. ground (arith, r.dialling i, h, c, d, down);
    count = r.count;
  }

  -- Before the first connection.
  pub record Fresh (v : Service U) : Type 0 where
    pub quiet :
        (j : ℕ)
        → (is_up (v.session j) ≡ false)
          × ((v.session j).connected && (v.session j).disconnect_owner ≡ false)
    pub none_listed : v.sessions ≡ []
    pub none_counted : v.session_count ≡ 0

  pub Fresh-Registered : (v : Service U) → Fresh v → Registered v
  Fresh-Registered v f = record {
    listed = λ j. rw (f.none_listed, (f.quiet j).0) refl;
    apart = λ j. (f.quiet j).1;
    dialling = λ j h. (f.quiet j).0;
    count = rw (f.none_listed, f.none_counted) refl;
  }

  -- One step of a thread. `Connect` is called, and `ProcessAccept` calls `ProcessConnect`, on a
  -- session that is not up.
  pub data Step (hooks : Hooks U) (v : Service U) : Service U → Type 0 where
    dials :
        (k : Kernel) (dial : Dial) (j : ℕ)
        → starts k.disconnect_ex ≡ true
        → is_up (v.session j) ≡ false
        → Step hooks v (set_session j (connect k dial (v.session j)).1 v)
    accepts :
        (k : Kernel) (j : ℕ)
        → starts k.disconnect_ex ≡ true
        → is_up (v.session j) ≡ false
        → Step hooks v (process_connect hooks k j v)
    sends :
        (k : Kernel) (j : ℕ) (b : Option Bytes)
        → starts k.disconnect_ex ≡ true
        → Step hooks v (set_session j (send k (v.session j) b).1 v)
    closes :
        (k : Kernel) (j : ℕ)
        → starts k.disconnect_ex ≡ true
        → Step hooks v (set_session j (disconnect k (v.session j)) v)
    completes :
        (k : Kernel) (c : Completion)
        → starts k.disconnect_ex ≡ true
        → Step hooks v (iocp_dispatch hooks k c v).1

  pub data Reach (hooks : Hooks U) (v : Service U) : Service U → Type 0 where
    here : Reach hooks v v
    next : {u w : Service U} → Reach hooks v u → Step hooks u w → Reach hooks v w

module _ {U : Type 0} (hooks : Hooks U) (good : WellBehaved hooks) where
  step-Registered : {v w : Service U} → Step hooks v w → Registered v → Registered w
  unfolding iocp_dispatch
  step-Registered {v} (dials k dial j ok down) r =
      dialled-Registered j _ v r down (connect-same k dial (v.session j) (ground (arith, down)))
  step-Registered {v} (accepts k j ok down) r =
      process_connect-Registered hooks good k ok j v r down
  step-Registered {v} (sends k j b ok) r =
      Steady-Registered _ _ (set-Steady j _ v (send-Follows k ok (v.session j) b)) r
  step-Registered {v} (closes k j ok) r =
      Steady-Registered _ _ (set-Steady j _ v (disconnect-Follows k ok (v.session j))) r
  step-Registered {v} (completes k (completed event n) ok) r =
      hand_on-Registered hooks good k ok event n v r
  step-Registered {v} (completes k (broken code event n) ok) r =
      elim (Bool-cases (code == wait_timeout)) [
        | inl e ↦ rw (e) r
        | inr e ↦ rw (e) (hand_on-Registered hooks good k ok event n v r)
      ]

  -- From the start, in whatever order threads dial, accept, send, disconnect and hand on completions,
  -- failed ones too, where every `DisconnectEx` starts and the hooks only send and disconnect: the
  -- set of the service holds a session exactly once while it is connected or its disconnect is
  -- pending, and not otherwise, no session is both, and the session count is the size of the set,
  -- modulo 2 ^ 32.
  pub Reach-Registered : (v w : Service U) → Fresh v → Reach hooks v w → Registered w
  Reach-Registered v _ f here = Fresh-Registered v f
  Reach-Registered v w f (next {u} r s) = step-Registered s (Reach-Registered v u f r)
