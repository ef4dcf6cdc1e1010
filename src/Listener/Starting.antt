-- ===== src/Listener/Starting.antt =====
-- The accept events that `Listener::StartAccept` of Source/ServerEngine/Network/Listener.cpp posts.
use iocp_multi_threading_cha.Prelude.{
  ℕ, zero, suc, ◌+◌, ◌-◌, ◌<◌, ◌≡◌, refl, inl, inr, Bool, true, false, not, ◌&&◌, some, Bool, leb,
  ltb, ◌==◌, if◌then◌else◌, Bool-cases, arith,
}
use iocp_multi_threading_cha.Session.{Outcome}
use iocp_multi_threading_cha.Service.Follows.{starts}
use iocp_multi_threading_cha.Listener.{
  Listener, Opened, accept_count, register_accept, register_all, start_accept,
}
use iocp_multi_threading_cha.Listener.Posted.{register_accept-Posted}

module _ {U : Type 0} (accept_ex : ℕ → Outcome) where
  register_all-posted :
      (fuel n from e : ℕ) (l : Listener U)
      → l.listening ≡ true
      → ((j : ℕ) → starts (accept_ex j) ≡ true)
      → 0 < fuel
      → (register_all accept_ex fuel n from l).posted e
        ≡ (if leb from e && ltb e (from + n) then some (l.created + (e - from)) else l.posted e)
  unfolding register_all
  register_all-posted fuel zero from e l on works more = ground arith
  register_all-posted fuel (suc n) from e l on works more =
      let p =
        register_accept-Posted accept_ex 0 fuel from l on (λ m h. absurd (omega (arith, h)))
          (works (l.created + 0)) more in
      let rest =
        register_all-posted fuel n (suc from) e (register_accept accept_ex fuel from l) p.open_still
          works more in
      elim (Bool-cases (from == e)) [
        | inl same ↦
            let e' : from ≡ e = ground (arith, same) in ground (arith, rest, p.event, e', same)
        | inr other ↦ ground (arith, rest, p.fresh, p.others e other, other)
      ]

  opened_all :
      (fuel : ℕ) (o : Opened) (l : Listener U)
      → o.created && (o.reused && (o.lingering && (o.bound && (o.listens && o.registered)))) ≡ true
      → start_accept accept_ex fuel o l
        ≡ (true, register_all accept_ex fuel accept_count 0 (record l { listening = true }))
  unfolding start_accept
  opened_all fuel o l =
      go o.created (o.reused && (o.lingering && (o.bound && (o.listens && o.registered))))
    where
      branch : Bool → Bool → Bool × Listener U
      branch b c =
          if not b
          then (false, l)
          else if not c
          then (false, record l { listening = true })
          else (true, register_all accept_ex fuel accept_count 0 (record l { listening = true }))

      go : (b c : Bool) → b && c ≡ true → branch b c ≡ branch true true
      go true true h = refl
      go true false h = absurd (ground (arith, h))
      go false c h = absurd (ground (arith, h))

  -- `StartAccept`, where every call before the first accept succeeds and every `AcceptEx` starts, posts
  -- the sixteen accept events, each with a session of its own, in order.
  pub start_accept-posted :
      (fuel : ℕ) (o : Opened) (l : Listener U)
      → 0 < fuel
      → o.created && (o.reused && (o.lingering && (o.bound && (o.listens && o.registered)))) ≡ true
      → ((j : ℕ) → starts (accept_ex j) ≡ true)
      → ((start_accept accept_ex fuel o l).0 ≡ true)
        × ((e : ℕ)
            → (start_accept accept_ex fuel o l).1.posted e
              ≡ (if ltb e 16 then some (l.created + e) else l.posted e))
  start_accept-posted fuel o l more opened works = rw (opened_all fuel o l opened) (refl, events)
    where
      events :
          (e : ℕ)
          → (register_all accept_ex fuel accept_count 0 (record l { listening = true })).posted e
            ≡ (if ltb e 16 then some (l.created + e) else l.posted e)
      events e =
          ground
            (arith, register_all-posted fuel 16 0 e (record l { listening = true }) refl works more)
