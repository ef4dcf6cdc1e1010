-- ===== src/Service/Receiving.antt =====
-- `ProcessRecv` of Source/ServerEngine/Network/Session.cpp with `PacketSession::OnRecv`: what it does to
-- the connection and to the rest of the application, for a handler of packets that is well-behaved.
use iocp_multi_threading_cha.Prelude.{
  ℕ, ℤ, zero, suc, ◌≡◌, refl, inl, inr, true, false, ltb, take, length, Bool-cases,
}
use iocp_multi_threading_cha.Ring.{RingBuffer, move_write_pos}
use iocp_multi_threading_cha.Session.{Bytes, Kernel}
use iocp_multi_threading_cha.Session.Packets.{on_recv_from, on_recv, header_size, read_header}
use iocp_multi_threading_cha.Session.Receive.{
  Live, is_zero, with_ring, disconnected, consume_processed, deliver, received, process_recv,
}
use iocp_multi_threading_cha.Service.Follows.{
  starts, Follows, Follows-refl, Follows-trans, keeps, disconnect-Follows, register_recv-Follows,
}

-- The session goes on as `Follows` says, and the rest as `Q` says.
pub record Goes {U : Type 0} (Q : U → U → Type 0) (l l' : Live U) : Type 0 where
  pub own : Follows l.session l'.session
  pub rest : Q l.app l'.app

module _ {U : Type 0} (Q : U → U → Type 0) (Q-refl : (u : U) → Q u u)
    (Q-trans : (u v w : U) → Q u v → Q v w → Q u w) (h : Bytes → Live U → Live U)
    (good : (b : Bytes) (l : Live U) → Goes Q l (h b l)) where
  Goes-refl : (l : Live U) → Goes Q l l
  Goes-refl l = record { own = Follows-refl l.session; rest = Q-refl l.app }

  Goes-trans : {l m n : Live U} → Goes Q l m → Goes Q m n → Goes Q l n
  Goes-trans f g = record { own = Follows-trans f.own g.own; rest = Q-trans _ _ _ f.rest g.rest }

  on_recv_from-Goes :
      (fuel : ℕ) (rest : Bytes) (processed : ℕ) (l : Live U)
      → Goes Q l (on_recv_from h fuel rest processed l).1
  unfolding on_recv_from
  on_recv_from-Goes zero rest processed l = Goes-refl l
  on_recv_from-Goes (suc fuel) rest processed l =
      elim (Bool-cases (ltb (length rest) header_size)) [
        | inl e ↦ rw (e) (Goes-refl l)
        | inr e ↦ elim (Bool-cases (ltb (read_header rest).size header_size)) [
          | inl e' ↦ rw (e, e') (Goes-refl l)
          | inr e' ↦ elim (Bool-cases (ltb (length rest) (read_header rest).size)) [
            | inl e'' ↦ rw (e, e', e'') (Goes-refl l)
            | inr e'' ↦
                rw (e, e', e'')
                  (Goes-trans (good (take (read_header rest).size rest) l)
                    (on_recv_from-Goes fuel _ _ _))
          ]
        ]
      ]

  module _ (k : Kernel) (ok : starts k.disconnect_ex ≡ true) where
    disconnected-Goes : (l : Live U) → Goes Q l (disconnected k h l)
    disconnected-Goes l = record { own = disconnect-Follows k ok l.session; rest = Q-refl l.app }

    deliver-Goes : (l : Live U) (b : Bytes) (n : ℕ) → Goes Q l (deliver k h l b n)
    unfolding deliver on_recv
    deliver-Goes l b n =
        let first = on_recv_from-Goes (suc (length b)) b 0 l in
        elim (Bool-cases
          (consume_processed (on_recv h b l).1.session.recv_buffer n (on_recv h b l).0).0) [
            | inl e ↦ rw (e) (
                Goes-trans first (record {
                  own = Follows-trans (keeps refl refl refl) (register_recv-Follows k ok _);
                  rest = Q-refl _;
                }))
            | inr e ↦ rw (e) (Goes-trans first (disconnected-Goes _))
          ]

    pub process_recv-Goes : (l : Live U) (n : ℤ) → Goes Q l (process_recv k h l n)
    unfolding process_recv received
    process_recv-Goes l n = elim (Bool-cases (is_zero n)) [
      | inl e ↦ rw (e) (begun (disconnected-Goes _))
      | inr e ↦ elim (Bool-cases (move_write_pos l.session.recv_buffer n).0) [
        | inl e' ↦ rw (e, e') (begun (ringed (deliver-Goes _ _ _)))
        | inr e' ↦ rw (e, e') (begun (disconnected-Goes _))
      ]
    ]
      where
        begun :
            {m : Live U}
            → Goes Q (record l { session = record l.session { recv_owner = false } }) m
            → Goes Q l m
        begun g = Goes-trans (record { own = keeps refl refl refl; rest = Q-refl l.app }) g

        ringed : {l m : Live U} {r : RingBuffer} → Goes Q (with_ring l r) m → Goes Q l m
        ringed g = Goes-trans (record { own = keeps refl refl refl; rest = Q-refl _ }) g
