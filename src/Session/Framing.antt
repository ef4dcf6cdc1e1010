-- ===== src/Session/Framing.antt =====
-- What `PacketSession::OnRecv` does to a stream of packets.
use mathlib.Core.List.{flatten}
use iocp_multi_threading_cha.Prelude.{
  ℕ, zero, suc, ◌+◌, ◌≤◌, ◌<◌, ◌≡◌, ◌⊎◌, inl, inr, refl, sym, ap, ◌∙◌, pos, negsuc, false, List, [],
  ◌∷◌, ◌++◌, append_assoc, ltb, length, length-append, length-drop, take, drop, dec_lt,
  take-append-drop, length-take, length-drop, arith,
}
use iocp_multi_threading_cha.Session.{Bytes}
use iocp_multi_threading_cha.Session.Packets.{header_size, read_header, on_recv_from, on_recv}

-- A whole packet: its header states its length.
pub record IsPacket (p : Bytes) : Type 0 where
  pub long : header_size ≤ length p
  pub stated : (read_header p).size ≡ length p

abbrev pub All : List Bytes → Type 0
All [] = Unit
All (p ∷ ps) = IsPacket p × All ps

-- The start of a packet that has not arrived whole.
abbrev pub Incomplete : Bytes → Type 0
Incomplete rest =
    (length rest < header_size)
    ⊎ (header_size ≤ (read_header rest).size) × (length rest < (read_header rest).size)

-- A header that states less than its own size.
abbrev pub Malformed : Bytes → Type 0
Malformed rest = (header_size ≤ length rest) × ((read_header rest).size < header_size)

take-append : (p rest : Bytes) → take (length p) (p ++ rest) ≡ p
take-append [] rest = refl
take-append (b ∷ p) rest = ap (λ l. b ∷ l) (take-append p rest)

pub drop-append : (p rest : Bytes) → drop (length p) (p ++ rest) ≡ rest
drop-append [] rest = refl
drop-append (b ∷ p) rest = drop-append p rest

size-append :
    (p rest : Bytes) → 2 ≤ length p → (read_header (p ++ rest)).size ≡ (read_header p).size
size-append [] rest h = absurd (omega arith)
size-append (a ∷ []) rest h = absurd (omega arith)
size-append (a ∷ b ∷ p) rest h = refl

first-IsPacket :
    (buffer : Bytes)
    → header_size ≤ (read_header buffer).size
    → (read_header buffer).size ≤ length buffer
    → IsPacket (take (read_header buffer).size buffer)
first-IsPacket buffer fair whole = record {
  long = omega (arith, size);
  stated =
      sym (size-append packet rest (omega (arith, size)))
      ∙ ap (λ l. (read_header l).size) (take-append-drop (read_header buffer).size buffer)
      ∙ sym size;
}
  where
    packet : Bytes
    packet = take (read_header buffer).size buffer

    rest : Bytes
    rest = drop (read_header buffer).size buffer

    size : length packet ≡ (read_header buffer).size
    size = omega (arith, length-take (read_header buffer).size buffer)

-- Every buffer is whole packets, then part of one or a malformed header.
split-buffer :
    (fuel : ℕ) (buffer : Bytes)
    → length buffer < fuel
    → (ps : List Bytes) × (rest : Bytes) × (flatten ps ++ rest ≡ buffer)
      × All ps
      × (Incomplete rest ⊎ Malformed rest)
unfolding flatten
split-buffer zero buffer h = absurd (omega arith)
split-buffer (suc f) buffer h = elim (dec_lt (length buffer) header_size) [
  | yes short ↦ ([], buffer, refl, tt, inl (inl short))
  | no long ↦ elim (dec_lt (read_header buffer).size header_size) [
    | yes small ↦ ([], buffer, refl, tt, inr (omega arith, small))
    | no fair ↦ elim (dec_lt (length buffer) (read_header buffer).size) [
      | yes partial ↦ ([], buffer, refl, tt, inl (inr (omega arith, partial)))
      | no whole ↦
          let (ps, rest, e, ks, stop) =
            split-buffer f (drop (read_header buffer).size buffer)
              (omega (arith, length-drop (read_header buffer).size buffer)) in
          (
            take (read_header buffer).size buffer ∷ ps,
            rest,
            append_assoc (take (read_header buffer).size buffer) (flatten ps) rest
                ∙ ap (λ l. take (read_header buffer).size buffer ++ l) e
                ∙ take-append-drop (read_header buffer).size buffer,
            (first-IsPacket buffer (omega arith) (omega arith), ks),
            stop,
          )
    ]
  ]
]

module _ {S : Type 0} (handle : Bytes → S → S) where
  abbrev pub handle_all : List Bytes → S → S
  handle_all [] s = s
  handle_all (p ∷ ps) s = handle_all ps (handle p s)

  -- One whole packet at the front is handled.
  on_recv-packet :
      (fuel : ℕ) (p rest : Bytes) (processed : ℕ) (s : S)
      → IsPacket p
      → on_recv_from handle (suc fuel) (p ++ rest) processed s
        ≡ on_recv_from handle fuel rest (processed + length p) (handle p s)
  unfolding on_recv_from
  on_recv-packet fuel p rest processed s k =
      rw (size, fits, sized, there, take-append p rest, drop-append p rest)
    where
      size : (read_header (p ++ rest)).size ≡ length p
      size = size-append p rest (omega arith) ∙ k.stated

      fits : ltb (length (p ++ rest)) header_size ≡ false
      fits = ground (arith, length-append p rest)

      sized : ltb (length p) header_size ≡ false
      sized = ground arith

      there : ltb (length (p ++ rest)) (length p) ≡ false
      there = ground (arith, length-append p rest)

  on_recv-stop :
      (fuel : ℕ) (rest : Bytes) (processed : ℕ) (s : S)
      → Incomplete rest
      → on_recv_from handle (suc fuel) rest processed s ≡ (pos processed, s)
  unfolding on_recv_from
  on_recv-stop fuel rest processed s h = ground arith

  on_recv-Malformed :
      (fuel : ℕ) (rest : Bytes) (processed : ℕ) (s : S)
      → Malformed rest
      → on_recv_from handle (suc fuel) rest processed s ≡ (negsuc 0, s)
  unfolding on_recv_from
  on_recv-Malformed fuel rest processed s h = ground arith

  on_recv-packets :
      (fuel : ℕ) (ps : List Bytes) (rest : Bytes) (processed : ℕ) (s : S)
      → All ps
      → length (flatten ps ++ rest) < fuel
      → (g : ℕ) × (on_recv_from handle fuel (flatten ps ++ rest) processed s
          ≡ on_recv_from handle (suc g) rest (processed + length (flatten ps)) (handle_all ps s))
  unfolding flatten
  on_recv-packets zero ps rest processed s k h = absurd (omega arith)
  on_recv-packets (suc f) [] rest processed s k h =
      (f, ap (λ n. on_recv_from handle (suc f) rest n s) (omega arith))
  on_recv-packets (suc f) (p ∷ ps) rest processed s (k, ks) h =
      let (g, e) = on_recv-packets f ps rest (processed + length p) (handle p s) ks (
        omega (
          arith,
          k.long,
          length-append p (flatten ps ++ rest),
          ap length (append_assoc p (flatten ps) rest),
        )) in
      (
        g,
        ap (λ l. on_recv_from handle (suc f) l processed s) (append_assoc p (flatten ps) rest)
            ∙ on_recv-packet f p (flatten ps ++ rest) processed s k
            ∙ e
            ∙ ap (λ n. on_recv_from handle (suc g) rest n (handle_all ps (handle p s)))
                (omega (arith, length-append p (flatten ps))),
      )

  -- A buffer that holds whole packets and then part of one: each packet is handled once, in order,
  -- and exactly their bytes are consumed. The loop ends.
  pub on_recv-frames :
      (ps : List Bytes) (rest : Bytes) (s : S)
      → All ps
      → Incomplete rest
      → on_recv handle (flatten ps ++ rest) s ≡ (pos (length (flatten ps)), handle_all ps s)
  unfolding on_recv
  on_recv-frames ps rest s k stop =
      let (g, e) =
        on_recv-packets (suc (length (flatten ps ++ rest))) ps rest 0 s k (omega arith) in
      e
      ∙ on_recv-stop g rest (0 + length (flatten ps)) (handle_all ps s) stop
      ∙ ap (λ n. (pos n, handle_all ps s)) (omega arith)

  -- A header that states less than its own size is an error, -1; the packets before it are handled.
  pub on_recv-rejects :
      (ps : List Bytes) (rest : Bytes) (s : S)
      → All ps
      → Malformed rest
      → on_recv handle (flatten ps ++ rest) s ≡ (negsuc 0, handle_all ps s)
  unfolding on_recv
  on_recv-rejects ps rest s k bad =
      let (g, e) =
        on_recv-packets (suc (length (flatten ps ++ rest))) ps rest 0 s k (omega arith) in
      e ∙ on_recv-Malformed g rest (0 + length (flatten ps)) (handle_all ps s) bad

  -- The two cases above are all: every buffer is whole packets followed by part of one or by a
  -- malformed header, and `OnRecv` handles these packets in order and ends.
  pub on_recv-total :
      (buffer : Bytes) (s : S)
      → (ps : List Bytes) × (rest : Bytes) × (flatten ps ++ rest ≡ buffer)
        × All ps
        × (Incomplete rest
              × (on_recv handle buffer s ≡ (pos (length (flatten ps)), handle_all ps s))
            ⊎ Malformed rest × (on_recv handle buffer s ≡ (negsuc 0, handle_all ps s)))
  on_recv-total buffer s =
      let (ps, rest, e, ks, stop) = split-buffer (suc (length buffer)) buffer (omega arith) in
      (ps, rest, e, ks, ending ps rest e ks stop)
    where
      ending :
          (ps : List Bytes) (rest : Bytes)
          → flatten ps ++ rest ≡ buffer
          → All ps
          → Incomplete rest ⊎ Malformed rest
          → Incomplete rest
              × (on_recv handle buffer s ≡ (pos (length (flatten ps)), handle_all ps s))
            ⊎ Malformed rest × (on_recv handle buffer s ≡ (negsuc 0, handle_all ps s))
      ending ps rest e ks (inl h) = inl (h, rw (← e) (on_recv-frames ps rest s ks h))
      ending ps rest e ks (inr h) = inr (h, rw (← e) (on_recv-rejects ps rest s ks h))
