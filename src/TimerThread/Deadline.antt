-- ===== src/TimerThread/Deadline.antt =====
-- When the timer thread of Source/ChatServer/Main.cpp disconnects a client that has gone silent.
use mathlib.Core.Option.{some-injective}
use iocp_multi_threading_cha.Prelude.{
  ℕ, zero, suc, ◌+◌, ◌≤◌, ◌<◌, ◌≡◌, ◌∙◌, inl, inr, refl, ap, sym, Bool, true, false, some, List, [],
  ◌∷◌, map, leb, ltb, if◌then◌else◌, get_elem?, Bool-cases, ltb→lt, arith,
}
use iocp_multi_threading_cha.Session.{Kernel, disconnect}
use iocp_multi_threading_cha.Session.Partial.{connected-disconnect}
use iocp_multi_threading_cha.Stats.{sub_64}
use iocp_multi_threading_cha.Timer.{distribute}
use iocp_multi_threading_cha.Timer.Heap.{PriorityQueue}
use iocp_multi_threading_cha.Timer.Item.{tick_of}
use iocp_multi_threading_cha.Abuse.{Clock, Client}
use iocp_multi_threading_cha.Abuse.Heartbeat.{checked, overdue, check_heartbeat_timeouts-late}
use iocp_multi_threading_cha.TimerThread.{time_out_ms, TimerThread, check_each_second, on_round}

get_elem?-map :
    {A : Type 0} {B : Type 0} (f : A → B) (xs : List A) (i : ℕ) (a : A)
    → get_elem? xs i ≡ some a
    → get_elem? (map f xs) i ≡ some (f a)
get_elem?-map f [] i a h = absurd (ground (arith, h))
get_elem?-map f (x ∷ xs) zero a h = cc h
get_elem?-map f (x ∷ xs) (suc i) a h = get_elem?-map f xs i a h

-- A client of which nothing was heard: connected, while there was no check after its time-out; or not
-- connected, and a clock has shown a time after it.
pub data Fate (c : Client) (last_check tick : ℕ) (c' : Client) : Type 0 where
  alive :
      c'.session.connected ≡ true
      → c'.last_heartbeat_tick ≡ c.last_heartbeat_tick
      → last_check ≤ c.last_heartbeat_tick + time_out_ms
      → Fate c last_check tick c'
  gone :
      c'.session.connected ≡ false
      → c.last_heartbeat_tick + time_out_ms < tick
      → Fate c last_check tick c'

later-Fate :
    (c c' : Client) (last_check tick tick' : ℕ)
    → tick ≤ tick'
    → Fate c last_check tick c'
    → Fate c last_check tick' c'
later-Fate c c' last_check tick tick' t (alive on same early) = alive on same early
later-Fate c c' last_check tick tick' t (gone off past) = gone off (omega (arith, past, t))

Fate-ends :
    (c c' : Client) (last_check now tick : ℕ)
    → now < last_check + 1000
    → Fate c last_check tick c'
    → (c.last_heartbeat_tick + 16000 ≤ now → c'.session.connected ≡ false)
      × (tick ≤ c.last_heartbeat_tick + 15000 → c'.session.connected ≡ true)
Fate-ends c c' last_check now tick h (alive on same early) =
    ((λ l. absurd (omega (arith, l, early, h))), (λ _. on))
Fate-ends c c' last_check now tick h (gone off past) =
    ((λ _. off), (λ soon. absurd (omega (arith, soon, past))))

-- What threads other than the timer thread do to the client: anything but hear of it, disconnect it or connect it.
pub record Unheard (c c' : Client) : Type 0 where
  pub same_connected : c'.session.connected ≡ c.session.connected
  pub same_heartbeat : c'.last_heartbeat_tick ≡ c.last_heartbeat_tick

Unheard-Fate :
    (c d d' : Client) (last_check tick : ℕ)
    → Unheard d d'
    → Fate c last_check tick d
    → Fate c last_check tick d'
Unheard-Fate c d d' last_check tick u (alive on same early) =
    alive (u.same_connected ∙ on) (u.same_heartbeat ∙ same) early
Unheard-Fate c d d' last_check tick u (gone off past) = gone (u.same_connected ∙ off) past

module _ (k : Kernel) where
  checked-off :
      (tick : ℕ) (c : Client) → c.session.connected ≡ false → checked k tick time_out_ms c ≡ c
  checked-off tick c h = rw (h) refl

  -- A connected client that was heard of is overdue exactly after its time-out.
  overdue-after :
      (tick : ℕ) (c c' : Client)
      → c'.session.connected ≡ true
      → c'.last_heartbeat_tick ≡ c.last_heartbeat_tick
      → 0 < c.last_heartbeat_tick
      → overdue tick time_out_ms c' ≡ ltb (c.last_heartbeat_tick + time_out_ms) tick
  overdue-after tick c c' on same pos = rw (on, same) (ground (arith, pos))

  checked-Fate :
      (c c' : Client) (last_check tick now tick' : ℕ)
      → 0 < c.last_heartbeat_tick
      → tick ≤ now
      → now ≤ tick'
      → Fate c last_check tick c'
      → Fate c now tick' (checked k tick' time_out_ms c')
  checked-Fate c c' last_check tick now tick' pos t u (alive on same early) =
      elim (Bool-cases (ltb (c.last_heartbeat_tick + time_out_ms) tick')) [
        | inl past ↦
            let e : checked k tick' time_out_ms c'
                ≡ record c' { session = disconnect k c'.session } =
              ap (λ b. if b then record c' { session = disconnect k c'.session } else c')
                (overdue-after tick' c c' on same pos ∙ past) in
            rw (e) (gone (connected-disconnect k c'.session) (ltb→lt _ _ past))
        | inr not_yet ↦
            let e : checked k tick' time_out_ms c' ≡ c' =
              ap (λ b. if b then record c' { session = disconnect k c'.session } else c')
                (overdue-after tick' c c' on same pos ∙ not_yet) in
            rw (e) (alive on same (ground (arith, not_yet, u)))
      ]
  checked-Fate c c' last_check tick now tick' pos t u (gone off past) =
      rw (checked-off tick' c' off) (gone off (omega (arith, past, t, u)))

module _ {J : Type 0} (pq : PriorityQueue (tick_of {J = J})) (k : Kernel) (exists : ℕ → Bool) where
  -- Rounds of the thread, and between them whatever the other threads do, except that none hears of the client
  -- that stands at an index, disconnects it or connects it; packets may be sent to it. `now` and `tick` are what the clock showed last, to the
  -- thread and to the check.
  pub data Watched (s₀ : TimerThread pq) (i₀ now₀ : ℕ) : TimerThread pq → ℕ → ℕ → ℕ → Type 0 where
    begins :
        s₀.last_check_tick ≤ now₀
        → now₀ < s₀.last_check_tick + 1000
        → Watched s₀ i₀ now₀ s₀ i₀ now₀ now₀
    round :
        (s : TimerThread pq) (i now tick now' tick' : ℕ) (clock : ℕ → Clock)
        → Watched s₀ i₀ now₀ s i now tick
        → tick ≤ now'
        → now' ≤ tick'
        → now' < 18446744073709551616
        → Watched s₀ i₀ now₀ (on_round pq k exists now' tick' clock s) i now' tick'
    others :
        (s s' : TimerThread pq) (i i' now tick : ℕ) (d d' : Client)
        → Watched s₀ i₀ now₀ s i now tick
        → s'.last_check_tick ≡ s.last_check_tick
        → get_elem? s.clients i ≡ some d
        → get_elem? s'.clients i' ≡ some d'
        → Unheard d d'
        → Watched s₀ i₀ now₀ s' i' now tick

  -- What holds of the client between two rounds.
  record Tracked (c : Client) (s : TimerThread pq) (i now tick : ℕ) : Type 0 where
    client : Client
    stands : get_elem? s.clients i ≡ some client
    fate : Fate c s.last_check_tick tick client
    checked_lately : now < s.last_check_tick + 1000
    after_check : s.last_check_tick ≤ now
    in_order : now ≤ tick

  check_each_second-Tracked :
      (c : Client) (s : TimerThread pq) (i now tick now' tick' : ℕ) (clock : ℕ → Clock)
      → 0 < c.last_heartbeat_tick
      → tick ≤ now'
      → now' ≤ tick'
      → now' < 18446744073709551616
      → Tracked c s i now tick
      → Tracked c (check_each_second pq k exists now' tick' clock s) i now' tick'
  unfolding check_each_second
  check_each_second-Tracked c s i now tick now' tick' clock pos t u small h =
      elim (Bool-cases (leb 1000 (sub_64 now' s.last_check_tick))) [
        | inl due ↦
            rw (check_each_second, due)
              (record {
                client = checked k tick' time_out_ms h.client;
                stands =
                    ap (λ cs. get_elem? cs i)
                      (check_heartbeat_timeouts-late k tick' time_out_ms clock s.clients
                        s.monitor).0
                    ∙ get_elem?-map (checked k tick' time_out_ms) s.clients i h.client h.stands;
                fate = checked-Fate k c h.client s.last_check_tick tick now' tick' pos t u h.fate;
                checked_lately = omega arith;
                after_check = omega arith;
                in_order = u;
              })
        | inr early ↦
            rw (check_each_second, early)
              (record {
                client = h.client;
                stands = h.stands;
                fate =
                    later-Fate c h.client s.last_check_tick tick tick' (omega (arith, t, u)) h.fate;
                checked_lately = ground (arith, early, h.after_check, h.in_order, t, small);
                after_check = omega (arith, h.after_check, h.in_order, t);
                in_order = u;
              })
      ]

  Watched-Tracked :
      (c : Client) (s₀ : TimerThread pq) (i₀ now₀ : ℕ) (s : TimerThread pq) (i now tick : ℕ)
      → c.session.connected ≡ true
      → 0 < c.last_heartbeat_tick
      → get_elem? s₀.clients i₀ ≡ some c
      → now₀ ≤ c.last_heartbeat_tick + time_out_ms
      → Watched s₀ i₀ now₀ s i now tick
      → Tracked c s i now tick
  unfolding on_round
  Watched-Tracked c s₀ i₀ now₀ _ _ _ _ on pos at_start early (begins e f) = record {
    client = c;
    stands = at_start;
    fate = alive on refl (omega (arith, e, early));
    checked_lately = f;
    after_check = e;
    in_order = omega arith;
  }
  Watched-Tracked c s₀ i₀ now₀ _ i _ _ on pos at_start early
        (round s _ now tick now' tick' clock w t u small) =
      let h = Watched-Tracked c s₀ i₀ now₀ s i now tick on pos at_start early w in
      let (timer, queues) = distribute pq exists now' s.timer s.queues in
      check_each_second-Tracked c (record s { timer = timer; queues = queues }) i now tick now'
        tick' clock pos t u small
        (record {
          client = h.client;
          stands = h.stands;
          fate = h.fate;
          checked_lately = h.checked_lately;
          after_check = h.after_check;
          in_order = h.in_order;
        })
  Watched-Tracked c s₀ i₀ now₀ _ _ now tick on pos at_start early
        (others s s' i i' _ _ d d' w same here there kept) =
      let h = Watched-Tracked c s₀ i₀ now₀ s i now tick on pos at_start early w in
      record {
        client = d';
        stands = there;
        fate = rw (same) (
            Unheard-Fate c d d' s.last_check_tick tick kept
              (rw (sym (some-injective h.client d (sym h.stands ∙ here))) h.fate));
        checked_lately = omega (arith, same, h.checked_lately);
        after_check = omega (arith, same, h.after_check);
        in_order = h.in_order;
      }

  -- A connected client that was heard of, and of which nothing more is heard while the thread makes its rounds.
  -- Between the rounds the others may do anything, packets sent to it included, but they do not disconnect or
  -- connect it. Once the thread has begun a round 16 seconds or more after the last heartbeat, the
  -- client is disconnected; and as long as no clock has shown a time more than 15 seconds after it,
  -- the client is connected.
  pub on_round-deadline :
      (c : Client) (s₀ : TimerThread pq) (i₀ now₀ : ℕ) (s : TimerThread pq) (i now tick : ℕ)
      → c.session.connected ≡ true
      → 0 < c.last_heartbeat_tick
      → get_elem? s₀.clients i₀ ≡ some c
      → now₀ ≤ c.last_heartbeat_tick + time_out_ms
      → Watched s₀ i₀ now₀ s i now tick
      → (c' : Client) × (get_elem? s.clients i ≡ some c')
        × (c.last_heartbeat_tick + 16000 ≤ now → c'.session.connected ≡ false)
        × (tick ≤ c.last_heartbeat_tick + 15000 → c'.session.connected ≡ true)
  on_round-deadline c s₀ i₀ now₀ s i now tick on pos at_start early w =
      let h = Watched-Tracked c s₀ i₀ now₀ s i now tick on pos at_start early w in
      let f = Fate-ends c h.client s.last_check_tick now tick h.checked_lately h.fate in
      (h.client, h.stands, f.0, f.1)
