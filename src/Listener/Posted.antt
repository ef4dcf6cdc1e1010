-- ===== src/Listener/Posted.antt =====
-- That every accept event of Source/ServerEngine/Network/Listener.cpp is posted again.
use iocp_multi_threading_cha.Prelude.{
  ℕ, zero, suc, ◌+◌, ◌<◌, ◌≡◌, ◌∙◌, refl, sym, ap, Bool, true, false, not, ◌&&◌, none, some, Bool,
  ◌==◌, if◌then◌else◌, update, arith,
}
use iocp_multi_threading_cha.Session.{Outcome, success, failed, Kernel, wsa_io_pending}
use iocp_multi_threading_cha.Service.{Service, Hooks, process_connect}
use iocp_multi_threading_cha.Service.Follows.{starts}
use iocp_multi_threading_cha.Listener.{
  Listener, tries_again, Accepted, after_accept_ex, register_accept, process_accept, dispatch_to,
  dispatch,
}

-- An `AcceptEx` that fails in a way that `RegisterAccept` tries again.
abbrev pub retried : Outcome → Bool
retried success = false
retried (failed code) = not (code == wsa_io_pending) && tries_again code

module _ {U : Type 0} (accept_ex : ℕ → Outcome) where
  -- Event `e` is posted with session `j`, the next session is `j + 1`, and the rest is as in `l`.
  pub record Posted (e j : ℕ) (l l' : Listener U) : Type 0 where
    pub event : l'.posted e ≡ some j
    pub others : (e' : ℕ) → (e == e') ≡ false → l'.posted e' ≡ l.posted e'
    pub fresh : l'.created ≡ suc j
    pub open_still : l'.listening ≡ true
    pub same_service : l'.service ≡ l.service

  after-starts :
      (o : Outcome) (e j : ℕ) (l again : Listener U)
      → starts o ≡ true
      → after_accept_ex accept_ex o e j l again ≡ record l { posted = update l.posted e (some j) }
  unfolding after_accept_ex
  after-starts success e j l again h = refl
  after-starts (failed code) e j l again h = rw (h) refl

  after-retried :
      (o : Outcome) (e j : ℕ) (l again : Listener U)
      → retried o ≡ true
      → l.listening ≡ true
      → after_accept_ex accept_ex o e j l again ≡ again
  unfolding after_accept_ex
  after-retried success e j l again h on = absurd (ground (arith, h))
  after-retried (failed code) e j l again h on = ground (arith, h, on)

  bumped : Listener U → Listener U
  bumped l = record l { created = suc l.created }

  register_accept-step :
      (fuel e : ℕ) (l : Listener U)
      → l.listening ≡ true
      → register_accept accept_ex (suc fuel) e l
        ≡ after_accept_ex accept_ex
            (accept_ex l.created)
            e
            l.created
            (bumped l)
            (register_accept accept_ex fuel e (bumped l))
  unfolding register_accept bumped
  register_accept-step fuel e l on = simp (on) refl

  Posted-first :
      (e j : ℕ) (l : Listener U)
      → l.listening ≡ true
      → l.created ≡ j
      → Posted e j l (record (bumped l) { posted = update l.posted e (some l.created) })
  unfolding bumped
  Posted-first e j l on c = record {
    event = ground (arith, c);
    others = λ e' h. rw (h) refl;
    fresh = ap suc c;
    open_still = on;
    same_service = refl;
  }

  Posted-later :
      (e i j : ℕ) (l l' : Listener U) → i ≡ j → Posted e i (bumped l) l' → Posted e j l l'
  unfolding bumped
  Posted-later e i j l l' same p = record {
    event = p.event ∙ ap some same;
    others = p.others;
    fresh = p.fresh ∙ ap suc same;
    open_still = p.open_still;
    same_service = p.same_service;
  }

  pub register_accept-Posted :
      (n fuel e : ℕ) (l : Listener U)
      → l.listening ≡ true
      → ((m : ℕ) → m < n → retried (accept_ex (l.created + m)) ≡ true)
      → starts (accept_ex (l.created + n)) ≡ true
      → n < fuel
      → Posted e (l.created + n) l (register_accept accept_ex fuel e l)
  unfolding bumped
  register_accept-Posted n zero e l on fails works more = absurd (omega arith)
  register_accept-Posted zero (suc fuel) e l on fails works more =
      let zero_more : l.created + 0 ≡ l.created = omega arith in
      rw
        (
          register_accept-step fuel e l on,
          after-starts (accept_ex l.created) e l.created (bumped l)
              (register_accept accept_ex fuel e (bumped l)) (rw (zero_more) at works),
        )
        (Posted-first e (l.created + 0) l on (omega arith))
  register_accept-Posted (suc n) (suc fuel) e l on fails works more =
      let one_less : (m : ℕ) → l.created + suc m ≡ suc l.created + m = λ m. omega arith in
      let zero_more : l.created + 0 ≡ l.created = omega arith in
      let next =
        register_accept-Posted n fuel e (bumped l) on
          (λ m h. rw (← one_less m) (fails (suc m) (omega (arith, h)))) (rw (← one_less n) works)
          (omega (arith, more)) in
      rw
        (
          register_accept-step fuel e l on,
          after-retried (accept_ex l.created) e l.created (bumped l)
              (register_accept accept_ex fuel e (bumped l))
              (ap (λ c. retried (accept_ex c)) (sym zero_more) ∙ fails 0 (omega arith)) on,
        )
        (Posted-later e (suc l.created + n) (l.created + suc n) l _ (omega arith) next)

  module _ (hooks : Hooks U) (k : Kernel) where
    -- Whether the calls on the accepted socket succeed.
    abbrev pub passes : Accepted → Bool
    passes a = a.updated && (a.named && a.registered)

    -- The listener that `RegisterAccept` gets after the completion.
    abbrev taken : ℕ → Service U → Listener U → Listener U
    taken e v l = record l { posted = update l.posted e none; service = v }

    dispatch-process :
        (fuel e j : ℕ) (a : Accepted) (l : Listener U)
        → l.posted e ≡ some j
        → dispatch accept_ex hooks k fuel a e l
          ≡ process_accept accept_ex hooks k fuel a e j (taken e l.service l)
    unfolding dispatch dispatch_to
    dispatch-process fuel e j a l waits = ap (λ o. dispatch_to accept_ex hooks k fuel a e o l) waits

    process-register :
        (fuel e j : ℕ) (a : Accepted) (l : Listener U)
        → l.listening ≡ true
        → process_accept accept_ex hooks k fuel a e j l
          ≡ register_accept accept_ex fuel e (record l {
            service = if passes a then process_connect hooks k j l.service else l.service;
          })
    unfolding process_accept
    process-register fuel e j a l on = go l.listening (passes a) on
      where
        go :
            (b c : Bool)
            → b ≡ true
            → (if not b
                then l
                else if c
                then register_accept accept_ex fuel e
                    (record l { service = process_connect hooks k j l.service })
                else register_accept accept_ex fuel e l)
              ≡ register_accept accept_ex fuel e (record l {
                service = if c then process_connect hooks k j l.service else l.service;
              })
        go true true h = refl
        go true false h = refl
        go false c h = absurd (ground (arith, h))

    Posted-taken :
        (e j : ℕ) (v : Service U) (l l' : Listener U)
        → Posted e j (taken e v l) l'
        → Posted e j (record l { service = v }) l'
    Posted-taken e j v l l' p = record {
      event = p.event;
      others = λ e' h. p.others e' h ∙ rw (h) refl;
      fresh = p.fresh;
      open_still = p.open_still;
      same_service = p.same_service;
    }

    -- A completion of an accept event of an open listener, after which `n` calls of `AcceptEx` fail in a
    -- way that is tried again and the next one starts: the event is posted again, with a new session,
    -- and no other event changes; the session that was accepted has been connected if the calls on its
    -- socket succeed, and else the service is as before. Fuel above `n` is enough.
    pub dispatch-Posted :
        (n fuel e j : ℕ) (a : Accepted) (l : Listener U)
        → l.listening ≡ true
        → l.posted e ≡ some j
        → ((m : ℕ) → m < n → retried (accept_ex (l.created + m)) ≡ true)
        → starts (accept_ex (l.created + n)) ≡ true
        → n < fuel
        → Posted e
            (l.created + n)
            (record l {
              service = if passes a then process_connect hooks k j l.service else l.service;
            })
            (dispatch accept_ex hooks k fuel a e l)
    dispatch-Posted n fuel e j a l on waits fails works more =
        let v = if passes a then process_connect hooks k j l.service else l.service in
        rw
          (
            dispatch-process fuel e j a l waits,
            process-register fuel e j a (taken e l.service l) on,
          )
          (Posted-taken e (l.created + n) v l _
            (register_accept-Posted n fuel e (taken e v l) on fails works more))
