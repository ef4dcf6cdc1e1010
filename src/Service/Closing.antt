-- ===== src/Service/Closing.antt =====
-- `Service::Stop` of Source/ServerEngine/Network/Service.cpp, and a `ConnectEx` that fails, in
-- `IocpCore::Dispatch` of IocpCore.cpp and `ProcessConnect` of Session.cpp.
use iocp_multi_threading_cha.Prelude.{
  ℕ, ℤ, ◌≡◌, ◌∙◌, ◌<◌, ◌⊎◌, refl, ap, inl, inr, true, false, ◌==◌, some, List, [], ◌∷◌, one_if,
  occurs, Bool-cases, arith,
}
use iocp_multi_threading_cha.Session.{
  Session, Kernel, wsa_io_pending, disconnect, register_disconnect, failed,
}
use iocp_multi_threading_cha.Service.{
  Service, Hooks, connect_event, disconnect_event, drop_owner, disconnect_each, stop, set_session,
  add_session, process_connect, dispatch, hand_on, iocp_dispatch, broken, wait_timeout,
}
use iocp_multi_threading_cha.Service.Follows.{is_up}
use iocp_multi_threading_cha.Service.Registered.{Registered, WellBehaved}

disconnect-off : (k : Kernel) (s : Session) → (disconnect k s).connected ≡ false
unfolding disconnect register_disconnect
disconnect-off k s = ground arith

module _ {U : Type 0} (k : Kernel) where
  disconnect_each-off :
      (js : List ℕ) (j : ℕ) (v : Service U)
      → ((v.session j).connected ≡ false) ⊎ (0 < occurs j js)
      → ((disconnect_each k js v).session j).connected ≡ false
  unfolding disconnect_each
  disconnect_each-off [] j v (inl e) = e
  disconnect_each-off [] j v (inr h) = absurd (omega arith)
  disconnect_each-off (i ∷ js) j v h =
      disconnect_each-off js j (set_session i (disconnect k (v.session i)) v)
        (elim (Bool-cases (i == j)) [
          | inl e ↦ inl (rw (e) (disconnect-off k (v.session i)))
          | inr e ↦ elim h [
            | inl off ↦ inl (rw (e) off)
            | inr later ↦ inr (ground (arith, e, later))
          ]
        ])

  -- `Stop` of a service that holds every session that is up disconnects every session and empties
  -- the set.
  pub stop-quiet :
      (v : Service U)
      → Registered v
      → ((stop k v).sessions ≡ []) × ((j : ℕ) → ((stop k v).session j).connected ≡ false)
  unfolding stop
  stop-quiet v r = (refl, quiet)
    where
      quiet : (j : ℕ) → ((disconnect_each k v.sessions v).session j).connected ≡ false
      quiet j = elim (Bool-cases (v.session j).connected) [
        | inl e ↦ disconnect_each-off v.sessions j v (inr (ground (arith, r.listed j, e)))
        | inr e ↦ disconnect_each-off v.sessions j v (inl e)
      ]

module _ {U : Type 0} (hooks : Hooks U) (good : WellBehaved hooks) (k : Kernel) where
  process_connect-listed :
      (j : ℕ) (v : Service U)
      → occurs j v.sessions ≡ 0
      → occurs j (process_connect hooks k j v).sessions ≡ 1
  unfolding process_connect add_session
  process_connect-listed j v none_yet =
      rw ((good.on_connected j _).listed) (ground (arith, none_yet))

  -- A connect that failed is handled as one that succeeded: the completion, with whatever error code
  -- but the time-out, puts the session into the set of the service.
  pub failed_connect-listed :
      (j code : ℕ) (n : ℤ) (v : Service U)
      → Registered v
      → (v.session j).connect_owner ≡ true
      → (code == wait_timeout) ≡ false
      → occurs j (iocp_dispatch hooks k (broken code (some (j, connect_event)) n) v).1.sessions ≡ 1
  unfolding iocp_dispatch hand_on dispatch
  failed_connect-listed j code n v r dialling error =
      simp (error, dialling)
        (process_connect-listed j (set_session j (drop_owner connect_event (v.session j)) v)
          (r.listed j ∙ ap one_if (r.dialling j dialling)))

-- A session that the failed call leaves.
failed-off :
    (k : Kernel) (code : ℕ) (s : Session)
    → s.connected ≡ true
    → k.disconnect_ex ≡ failed code
    → (code == wsa_io_pending) ≡ false
    → ((disconnect k s).connected ≡ false) × ((disconnect k s).disconnect_owner ≡ false)
unfolding disconnect register_disconnect
failed-off k code s connected fails error =
    (ground (arith, connected), ground (arith, connected, fails, error))

off-disconnect : (k : Kernel) (s : Session) → s.connected ≡ false → disconnect k s ≡ s
unfolding disconnect
off-disconnect k s e = simp (e) refl

==-refl : (j : ℕ) → (j == j) ≡ true
==-refl j = ground arith

module _ {U : Type 0} (hooks : Hooks U) where
  -- What a `Disconnect` leaves whose `DisconnectEx` fails at once.
  pub record Leaked (j : ℕ) (w : Service U) : Type 0 where
    pub off : is_up (w.session j) ≡ false
    pub still_listed : occurs j w.sessions ≡ 1
    pub no_retry : (k : Kernel) → disconnect k (w.session j) ≡ w.session j
    pub no_completion : (k : Kernel) (n : ℤ) → hand_on hooks k (some (j, disconnect_event)) n w ≡ w

  -- A `Disconnect` of a connected session whose `DisconnectEx` fails at once leaves the session in the
  -- set of the service and not connected: no later `Disconnect` does anything to it, and no
  -- completion of a disconnect reaches `ProcessDisconnect`, which would take it out.
  pub failed_disconnect-Leaked :
      (k : Kernel) (j code : ℕ) (v : Service U)
      → Registered v
      → (v.session j).connected ≡ true
      → k.disconnect_ex ≡ failed code
      → (code == wsa_io_pending) ≡ false
      → Leaked j (set_session j (disconnect k (v.session j)) v)
  unfolding hand_on
  failed_disconnect-Leaked k j code v r connected fails error = record {
    off = rw (==-refl j, off.0, off.1) refl;
    still_listed = r.listed j ∙ rw (connected) refl;
    no_retry = λ k'. rw (==-refl j) (off-disconnect k' _ off.0);
    no_completion = λ k' n. rw (==-refl j, off.1) refl;
  }
    where
      off :
          ((disconnect k (v.session j)).connected ≡ false)
          × ((disconnect k (v.session j)).disconnect_owner ≡ false)
      off = failed-off k code (v.session j) connected fails error
