-- ===== src/Service/Census.antt =====
-- The number of connected users: the hooks `ClientSession::OnConnected` and `OnDisconnected` of
-- Source/ChatServer/Session/ClientSession.cpp, which count in ServerStats, under `Session` and `Service`
-- of Source/ServerEngine/Network.
use iocp_multi_threading_cha.Prelude.{
  ℕ, ℤ, pos, negsuc, ◌+◌, ◌%◌, ◌≡◌, ◌∙◌, refl, sym, ap, inl, inr, true, ◌==◌, Option, none, some,
  length, Bool-cases,
}
use iocp_multi_threading_cha.Session.{Bytes, Kernel}
use iocp_multi_threading_cha.Session.Receive.{Live}
use iocp_multi_threading_cha.Service.{
  Service, EventType, connect_event, disconnect_event, accept_event, recv_event, send_event, owner,
  add_session, release_session, Hooks, completed, broken, wait_timeout, process_connect,
  process_disconnect, recv_of, send_of, dispatch, hand_on, iocp_dispatch,
}
use iocp_multi_threading_cha.Service.Follows.{starts}
use iocp_multi_threading_cha.Service.Receiving.{Goes, process_recv-Goes}
use iocp_multi_threading_cha.Service.Registered.{WellBehaved}
use iocp_multi_threading_cha.Service.Steps.{
  Fresh, Step, dials, accepts, sends, closes, completes, Reach, here, next, Reach-Registered,
}

module _ {U : Type 0} (hooks : Hooks U) (ccu : U → ℕ) where
  -- The hooks count sessions up and down, modulo 2 ^ 32, and packets leave the count.
  pub record Tallies : Type 0 where
    pub up :
        (j : ℕ) (v : Service U) → ccu (hooks.on_connected j v).app ≡ (ccu v.app + 1) % 4294967296
    pub down :
        (j : ℕ) (v : Service U)
        → ccu (hooks.on_disconnected j v).app ≡ (ccu v.app + 4294967295) % 4294967296
    pub same :
        (j : ℕ) (b : Bytes) (l : Live (Service U))
        → ccu (hooks.on_recv_packet j b l).app.app ≡ ccu l.app.app

  -- What the count and the count of the service keep to.
  record Level (v w : Service U) : Type 0 where
    ccu_same : ccu w.app ≡ ccu v.app
    count_same : w.session_count ≡ v.session_count

  Level-refl : (v : Service U) → Level v v
  Level-refl v = record { ccu_same = refl; count_same = refl }

  Level-trans : (u v w : Service U) → Level u v → Level v w → Level u w
  Level-trans u v w f g = record {
    ccu_same = g.ccu_same ∙ f.ccu_same;
    count_same = g.count_same ∙ f.count_same;
  }

  module _ (good : WellBehaved hooks) (t : Tallies) where
    recv_packet-Level :
        (j : ℕ) (b : Bytes) (l : Live (Service U)) → Goes Level l (hooks.on_recv_packet j b l)
    recv_packet-Level j b l =
        let g = good.on_recv_packet j b l in
        record {
          own = g.own;
          rest = record { ccu_same = t.same j b l; count_same = g.rest.counted };
        }

    module _ (k : Kernel) (ok : starts k.disconnect_ex ≡ true) where
      process_connect-census :
          (j : ℕ) (v : Service U)
          → ccu v.app ≡ v.session_count
          → ccu (process_connect hooks k j v).app ≡ (process_connect hooks k j v).session_count
      unfolding process_connect add_session
      process_connect-census j v e =
          t.up j _ ∙ ap (λ n. (n + 1) % 4294967296) e ∙ sym (good.on_connected j _).counted

      process_disconnect-census :
          (j : ℕ) (v : Service U)
          → ccu v.app ≡ v.session_count
          → ccu (process_disconnect hooks k j v).app
            ≡ (process_disconnect hooks k j v).session_count
      unfolding process_disconnect release_session
      process_disconnect-census j v e =
          t.down j _
          ∙ ap (λ n. (n + 4294967295) % 4294967296) (e ∙ sym (good.on_disconnected j _).counted)

      recv_of-census :
          (j : ℕ) (n : ℤ) (v : Service U)
          → ccu v.app ≡ v.session_count
          → ccu (recv_of hooks k j n v).app ≡ (recv_of hooks k j n v).session_count
      unfolding recv_of
      recv_of-census j n v e =
          let g =
            process_recv-Goes Level Level-refl Level-trans (hooks.on_recv_packet j)
              (recv_packet-Level j) k ok (record { session = v.session j; app = v }) n in
          g.rest.ccu_same ∙ e ∙ sym g.rest.count_same

      dispatch-census :
          (j : ℕ) (event : EventType) (n : ℤ) (v : Service U)
          → ccu v.app ≡ v.session_count
          → ccu (dispatch hooks k j event n v).app ≡ (dispatch hooks k j event n v).session_count
      unfolding dispatch send_of
      dispatch-census j connect_event n v e = process_connect-census j v e
      dispatch-census j disconnect_event n v e = process_disconnect-census j v e
      dispatch-census j accept_event n v e = e
      dispatch-census j recv_event n v e = recv_of-census j n v e
      dispatch-census j send_event (pos n) v e = e
      dispatch-census j send_event (negsuc n) v e = e

      hand_on-census :
          (event : Option (ℕ × EventType)) (n : ℤ) (v : Service U)
          → ccu v.app ≡ v.session_count
          → ccu (hand_on hooks k event n v).app ≡ (hand_on hooks k event n v).session_count
      unfolding hand_on
      hand_on-census none n v e = e
      hand_on-census (some (j, event)) n v e = elim (Bool-cases (owner event (v.session j))) [
        | inl owned ↦ rw (owned) (dispatch-census j event n _ e)
        | inr free ↦ rw (free) e
      ]

    Step-census :
        {v w : Service U}
        → Step hooks v w
        → ccu v.app ≡ v.session_count
        → ccu w.app ≡ w.session_count
    unfolding iocp_dispatch
    Step-census (dials k dial j ok down) e = e
    Step-census {v} (accepts k j ok down) e = process_connect-census k ok j v e
    Step-census (sends k j b ok) e = e
    Step-census (closes k j ok) e = e
    Step-census {v} (completes k (completed event n) ok) e = hand_on-census k ok event n v e
    Step-census {v} (completes k (broken code event n) ok) e =
        elim (Bool-cases (code == wait_timeout)) [
          | inl timeout ↦ rw (timeout) e
          | inr other ↦ rw (other) (hand_on-census k ok event n v e)
        ]

    Reach-census :
        (v w : Service U) → Fresh v → ccu v.app ≡ 0 → Reach hooks v w → ccu w.app ≡ w.session_count
    Reach-census v _ f e here = e ∙ sym f.none_counted
    Reach-census v w f e (next {u} r s) = Step-census s (Reach-census v u f e r)

    -- From a fresh service, in whatever order threads dial, accept, send, disconnect and hand on
    -- completions, where every `DisconnectEx` starts and the hooks count a session up when it
    -- connects and down when it disconnects: the count of users is the number of the sessions in
    -- the set of the service, modulo 2 ^ 32.
    pub ccu-length :
        (v w : Service U)
        → Fresh v
        → ccu v.app ≡ 0
        → Reach hooks v w
        → ccu w.app ≡ length w.sessions % 4294967296
    ccu-length v w f e r = Reach-census v w f e r ∙ (Reach-Registered hooks good v w f r).count
