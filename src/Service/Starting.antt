-- ===== src/Service/Starting.antt =====
-- `Service::CreateSession` and `ClientService::Start` of Source/ServerEngine/Network/Service.cpp. The
-- factory's sessions are numbered in the order it makes them.
use iocp_multi_threading_cha.Prelude.{
  ℕ, zero, suc, ◌+◌, ◌≤◌, ◌<◌, ◌≡◌, ◌∙◌, ◌⊎◌, inl, inr, refl, ap, Bool, true, false, Option, none,
  some, ◌==◌, Bool-cases, ==_iff, sym, arith, if◌then◌else◌, positive,
}
use iocp_multi_threading_cha.Session.{Session, Kernel}
use iocp_multi_threading_cha.Service.{Service, Dial, connect, set_session}

-- What `Start` returns, with the number of sessions made and the service.
pub record Started (U : Type 0) : Type 0 where
  pub result : Bool
  pub created : ℕ
  pub service : Service U

same : (j : ℕ) → (j == j) ≡ true
same j = ground arith

module _ {U : Type 0} (k : Kernel) (dial : ℕ → Dial) where
  -- `Service::CreateSession`.
  unfoldable pub create_session : (ℕ → Session) → ℕ → Service U → Service U
  create_session factory j v = set_session j (factory j) v

  -- The loop of `ClientService::Start`, `n` rounds of it.
  unfoldable pub start_from : (ℕ → Session) → ℕ → ℕ → Service U → Started U
  unfolding create_session connect
  start_from factory zero j v = record { result = true; created = j; service = v }
  start_from factory (suc n) j v =
      let v' = create_session factory j v in
      let (connecting, s) = connect k (dial j) (v'.session j) in
      let v'' = set_session j s v' in
      let rest = start_from factory n (suc j) v'' in
      if connecting then rest else record { result = false; created = suc j; service = v'' }

  -- `ClientService::Start`, with `_maxSessionCount` as its 32 bits.
  unfoldable pub start : Option (ℕ → Session) → ℕ → ℕ → Service U → Started U
  unfolding start_from
  start none max_session_count j v = record { result = false; created = j; service = v }
  start (some factory) max_session_count j v =
      start_from factory (if positive max_session_count then max_session_count else 0) j v

  -- The sessions from `j` up to those made are what `Connect` left of them, all but the last one's began, and
  -- the last one's too if `Start` returns true, which then made `n`; no other session changed.
  pub record Dialled (factory : ℕ → Session) (n j : ℕ) (v : Service U) (out : Started U)
      : Type 0 where
    pub low : j ≤ out.created
    pub high : out.created ≤ j + n
    pub made :
        (i : ℕ)
        → j ≤ i
        → i < out.created
        → out.service.session i ≡ (connect k (dial i) (factory i)).1
    pub others : (i : ℕ) → (i < j) ⊎ (out.created ≤ i) → out.service.session i ≡ v.session i
    pub began : (i : ℕ) → j ≤ i → suc i < out.created → (connect k (dial i) (factory i)).0 ≡ true
    pub succeeded :
        out.result ≡ true
        → (out.created ≡ j + n)
          × ((i : ℕ) → j ≤ i → i < out.created → (connect k (dial i) (factory i)).0 ≡ true)
    pub failed :
        out.result ≡ false
        → (i : ℕ) × (out.created ≡ suc i) × ((connect k (dial i) (factory i)).0 ≡ false)

  -- The service after the round that makes session `j`.
  abbrev after : (ℕ → Session) → ℕ → Service U → Service U
  after factory j v = set_session j (connect k (dial j) (factory j)).1 (set_session j (factory j) v)

  start_from-step :
      (factory : ℕ → Session) (n j : ℕ) (v : Service U)
      → start_from factory (suc n) j v ≡ (
          if (connect k (dial j) (factory j)).0
          then start_from factory n (suc j) (after factory j v)
          else record { result = false; created = suc j; service = after factory j v })
  unfolding start_from create_session
  start_from-step factory n j v = rw (start_from, create_session, same j) refl

  after-at :
      (factory : ℕ → Session) (j : ℕ) (v : Service U)
      → (after factory j v).session j ≡ (connect k (dial j) (factory j)).1
  after-at factory j v = rw (same j) refl

  after-other :
      (factory : ℕ → Session) (j i : ℕ) (v : Service U)
      → (j == i) ≡ false
      → (after factory j v).session i ≡ v.session i
  after-other factory j i v h = rw (h) refl

  stopped-Dialled :
      (factory : ℕ → Session) (n j : ℕ) (v : Service U)
      → (connect k (dial j) (factory j)).0 ≡ false
      → Dialled factory
          (suc n)
          j
          v
          (record { result = false; created = suc j; service = after factory j v })
  stopped-Dialled factory n j v stop = record {
    low = omega arith;
    high = omega arith;
    made = λ i l h.
        let e : j ≡ i = omega (arith, l, h) in
        ap (λ x. (after factory j v).session x) (sym e)
        ∙ after-at factory j v
        ∙ ap (λ x. (connect k (dial x) (factory x)).1) e;
    others = λ i o.
        after-other factory j i v
          (elim o [ inl below ↦ ground (arith, below) | inr above ↦ ground (arith, above) ]);
    began = λ i l h. absurd (omega (arith, l, h));
    succeeded = λ r. absurd (ground (arith, r));
    failed = λ r. (j, refl, stop);
  }

  next-Dialled :
      (factory : ℕ → Session) (n j : ℕ) (v : Service U) (out : Started U)
      → (connect k (dial j) (factory j)).0 ≡ true
      → Dialled factory n (suc j) (after factory j v) out
      → Dialled factory (suc n) j v out
  next-Dialled factory n j v out go d = record {
    low = omega (arith, d.low);
    high = omega (arith, d.high);
    made = λ i l h. elim (Bool-cases (j == i)) [
      | inl here ↦
          let e : j ≡ i = (==_iff j i).0 here in
          ap (λ x. out.service.session x) (sym e)
          ∙ d.others j (inl (omega arith))
          ∙ after-at factory j v
          ∙ ap (λ x. (connect k (dial x) (factory x)).1) e
      | inr there ↦ d.made i (ground (arith, there, l)) h
    ];
    others = λ i o. elim o [
      | inl below ↦
          d.others i (inl (omega (arith, below)))
          ∙ after-other factory j i v (ground (arith, below))
      | inr above ↦
          d.others i (inr above) ∙ after-other factory j i v (ground (arith, above, d.low))
    ];
    began = λ i l h. elim (Bool-cases (j == i)) [
      | inl here ↦ ap (λ x. (connect k (dial x) (factory x)).0) (sym ((==_iff j i).0 here)) ∙ go
      | inr there ↦ d.began i (ground (arith, there, l)) h
    ];
    succeeded = λ r.
        let (all, each) = d.succeeded r in
        (
          omega (arith, all),
          (λ i l h. elim (Bool-cases (j == i)) [
            | inl here ↦
                ap (λ x. (connect k (dial x) (factory x)).0) (sym ((==_iff j i).0 here)) ∙ go
            | inr there ↦ each i (ground (arith, there, l)) h
          ]),
        );
    failed = d.failed;
  }

  -- `ClientService::Start` makes sessions until a `Connect` fails or there are as many as it is for; it returns
  -- true exactly if none failed, and the sessions are what `Connect` left of them.
  pub start_from-Dialled :
      (factory : ℕ → Session) (n j : ℕ) (v : Service U)
      → Dialled factory n j v (start_from factory n j v)
  unfolding start_from
  start_from-Dialled factory zero j v = record {
    low = omega arith;
    high = omega arith;
    made = λ i l h. absurd (omega (arith, l, h));
    others = λ i o. refl;
    began = λ i l h. absurd (omega (arith, l, h));
    succeeded = λ r. (omega arith, λ i l h. absurd (omega (arith, l, h)));
    failed = λ r. absurd (ground (arith, r));
  }
  start_from-Dialled factory (suc n) j v = elim (Bool-cases (connect k (dial j) (factory j)).0) [
    | inl go ↦
        let e : start_from factory (suc n) j v ≡ start_from factory n (suc j) (after factory j v) =
          start_from-step factory n j v ∙ rw (go) refl in
        rw (e) (
          next-Dialled factory n j v _ go
            (start_from-Dialled factory n (suc j) (after factory j v)))
    | inr stop ↦
        let e : start_from factory (suc n) j v
            ≡ record { result = false; created = suc j; service = after factory j v } =
          start_from-step factory n j v ∙ rw (stop) refl in
        rw (e) (stopped-Dialled factory n j v stop)
  ]
