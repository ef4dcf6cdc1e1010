-- ===== src/Service/Registered.antt =====
-- Which sessions `_sessions` of Source/ServerEngine/Network/Service.h holds, through `ProcessConnect` and
-- `ProcessDisconnect` of Session.cpp and `IocpCore::Dispatch`.
use iocp_multi_threading_cha.Prelude.{
  ℕ, ◌+◌, ◌-◌, ◌%◌, ◌<◌, ◌≡◌, ◌∙◌, refl, sym, ap, inl, inr, true, false, ◌&&◌, List, [], ◌∷◌, ◌==◌,
  if◌then◌else◌, one_if, occurs, length, Bool-cases, arith,
}
use iocp_multi_threading_cha.Session.{Bytes, Session}
use iocp_multi_threading_cha.Session.Receive.{Live}
use iocp_multi_threading_cha.Service.{
  Service, erase, set_session, add_session, release_session, Hooks,
}
use iocp_multi_threading_cha.Service.Follows.{is_up, Follows, Follows-refl, Follows-trans}
use iocp_multi_threading_cha.Service.Receiving.{Goes}

module _ {U : Type 0} where
  -- Every session goes on as `Follows` says, and the set and its count stay.
  pub record Steady (v v' : Service U) : Type 0 where
    pub each : (i : ℕ) → Follows (v.session i) (v'.session i)
    pub listed : v'.sessions ≡ v.sessions
    pub counted : v'.session_count ≡ v.session_count

  pub Steady-refl : (v : Service U) → Steady v v
  Steady-refl v = record { each = λ i. Follows-refl (v.session i); listed = refl; counted = refl }

  pub Steady-trans : (u v w : Service U) → Steady u v → Steady v w → Steady u w
  Steady-trans u v w f g = record {
    each = λ i. Follows-trans (f.each i) (g.each i);
    listed = g.listed ∙ f.listed;
    counted = g.counted ∙ f.counted;
  }

  pub back-Steady :
      (j : ℕ) (s : Session) (v w : Service U)
      → Follows (v.session j) s
      → Steady v w
      → Steady v (set_session j s w)
  back-Steady j s v w f g = record { each = each; listed = g.listed; counted = g.counted }
    where
      each : (i : ℕ) → Follows (v.session i) ((set_session j s w).session i)
      each i = elim (Bool-cases (j == i)) [
        | inl same ↦ let e : j ≡ i = ground (arith, same) in rw (same, ← e) f
        | inr other ↦ rw (other) (g.each i)
      ]

  pub set-Steady :
      (j : ℕ) (s : Session) (v : Service U) → Follows (v.session j) s → Steady v (set_session j s v)
  set-Steady j s v f = back-Steady j s v v f (Steady-refl v)

  -- The set holds a session once while it is up and not otherwise; no session is connected and
  -- disconnecting at once, or up and connecting; and the count is the size of the set.
  pub record Registered (v : Service U) : Type 0 where
    pub listed : (j : ℕ) → occurs j v.sessions ≡ one_if (is_up (v.session j))
    pub apart : (j : ℕ) → (v.session j).connected && (v.session j).disconnect_owner ≡ false
    pub dialling : (j : ℕ) → (v.session j).connect_owner ≡ true → is_up (v.session j) ≡ false
    pub count : v.session_count ≡ length v.sessions % 4294967296

  pub Steady-Registered : (v v' : Service U) → Steady v v' → Registered v → Registered v'
  Steady-Registered v v' f r = record {
    listed = λ j. ap (occurs j) f.listed ∙ r.listed j ∙ ap one_if (sym (f.each j).up);
    apart = λ j. (f.each j).apart (r.apart j);
    dialling = λ j h. (f.each j).up ∙ r.dialling j (sym (f.each j).dialling ∙ h);
    count = f.counted ∙ r.count ∙ ap (λ l. length l % 4294967296) (sym f.listed);
  }

occurs-erase :
    (i j : ℕ) (is : List ℕ)
    → occurs i (erase j is) ≡ (if j == i then occurs i is - 1 else occurs i is)
occurs-erase i j [] = ground arith
occurs-erase i j (x ∷ is) = ground (arith, occurs-erase i j is)

length-erase : (j : ℕ) (is : List ℕ) → 0 < occurs j is → length (erase j is) + 1 ≡ length is
length-erase j [] h = absurd (omega arith)
length-erase j (x ∷ is) h = elim (Bool-cases (x == j)) [
  | inl e ↦ ground (arith, e)
  | inr e ↦ ground (arith, e, length-erase j is (ground (arith, e)))
]

module _ {U : Type 0} (hooks : Hooks U) where
  -- The hooks call `Send` and `Disconnect` at most.
  pub record WellBehaved : Type 0 where
    pub on_connected : (j : ℕ) (v : Service U) → Steady v (hooks.on_connected j v)
    pub on_disconnected : (j : ℕ) (v : Service U) → Steady v (hooks.on_disconnected j v)
    pub on_recv_packet :
        (j : ℕ) (b : Bytes) (l : Live (Service U)) → Goes Steady l (hooks.on_recv_packet j b l)

module _ {U : Type 0} where
  pub added-Registered :
      (j : ℕ) (v : Service U)
      → Registered v
      → is_up (v.session j) ≡ false
      → Registered (
          add_session j
            (set_session j (record (v.session j) { connect_owner = false; connected = true }) v))
  unfolding add_session
  added-Registered j v r down = record {
    listed = λ i. ground (arith, r.listed i, r.listed j, down);
    apart = λ i. ground (arith, r.apart i, down);
    dialling = λ i h. ground (arith, r.dialling i, h);
    count = ground (arith, r.count, r.listed j, down);
  }

  -- A service in which only session `j` differs, and is not up.
  pub record Down (j : ℕ) (v u : Service U) : Type 0 where
    pub down : ((u.session j).connected ≡ false) × ((u.session j).disconnect_owner ≡ false)
    pub others : (i : ℕ) → (j == i) ≡ false → u.session i ≡ v.session i
    pub same : (u.sessions ≡ v.sessions) × (u.session_count ≡ v.session_count)

  pub released-Registered :
      (j : ℕ) (v u w : Service U)
      → Registered v
      → is_up (v.session j) ≡ true
      → Down j v u
      → Steady u w
      → Registered (release_session j w)
  unfolding release_session
  released-Registered j v u w r up d f = record {
    listed = λ i. elim (Bool-cases (j == i)) [
      | inl e ↦
          let e' : j ≡ i = ground (arith, e) in
          rw
            (
              occurs-erase i j w.sessions,
              f.listed,
              d.same.0,
              e,
              ← e',
              r.listed j,
              up,
              (f.each j).up,
              d.down.0,
              d.down.1,
            )
            refl
      | inr e ↦
          rw
            (
              occurs-erase i j w.sessions,
              f.listed,
              d.same.0,
              e,
              r.listed i,
              (f.each i).up,
              d.others i e,
            )
            refl
    ];
    apart = λ i. elim (Bool-cases (j == i)) [
      | inl e ↦
          let e' : j ≡ i = ground (arith, e) in rw (← e') ((f.each j).apart (rw (d.down.0) refl))
      | inr e ↦ (f.each i).apart (rw (d.others i e) (r.apart i))
    ];
    dialling = λ i h. elim (Bool-cases (j == i)) [
      | inl e ↦
          let e' : j ≡ i = ground (arith, e) in rw (← e', (f.each j).up, d.down.0, d.down.1) refl
      | inr e ↦
          (f.each i).up
          ∙ rw (d.others i e) (r.dialling i (rw (← d.others i e) (sym (f.each i).dialling ∙ h)))
    ];
    count =
        rw (f.counted, f.listed, d.same.0, d.same.1)
          (omega (arith, r.count, length-erase j v.sessions (ground (arith, r.listed j, up))));
  }

  pub dropped-Registered :
      (j : ℕ) (v : Service U)
      → Registered v
      → Registered (set_session j (record (v.session j) { connect_owner = false }) v)
  dropped-Registered j v r = record {
    listed = λ i. ground (arith, r.listed i);
    apart = λ i. ground (arith, r.apart i);
    dialling = λ i h. ground (arith, r.dialling i, h);
    count = r.count;
  }
