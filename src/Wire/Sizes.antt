-- ===== src/Wire/Sizes.antt =====
-- How many bytes the fields of a message take, and when they fit into a packet.
use iocp_multi_threading_cha.Prelude.{
  ℕ, zero, suc, ◌+◌, ◌-◌, ◌%◌, ◌/◌, true, ◌≤◌, ◌<◌, ◌≡◌, ◌∙◌, ◌⊎◌, inl, inr, refl, ap, none, some,
  [], ◌∷◌, ◌++◌, ltb, if◌then◌else◌, length, length-append, drop, take-all, Bool-cases, arith,
}
use iocp_multi_threading_cha.Session.{Bytes}
use iocp_multi_threading_cha.Wire.{
  BufferWriter, Write, ◌>=>◌, little_endian, write_bytes, write_word, write_string,
}
use iocp_multi_threading_cha.Wire.Chunks.{max_packet_size, header_bytes, written_packet}

-- `put` writes `n` bytes if they fit, and else fails.
pub record Exact (put : Write) (n : ℕ) : Type 0 where
  pub sizes :
      (w : BufferWriter)
      → length w.written ≤ w.size
      → ((put w ≡ none) × (w.size < length w.written + n))
        ⊎ ((w' : BufferWriter) × (put w ≡ some w')
            × (length w'.written ≡ length w.written + n)
            × (w'.size ≡ w.size)
            × (length w'.written ≤ w.size))

pub Exact-bytes : (src : Bytes) → Exact (write_bytes src) (length src)
unfolding write_bytes
Exact-bytes src = record {
  sizes = λ w h. elim (Bool-cases (ltb (w.size - length w.written) (length src))) [
    | inl full ↦ inl (rw (full) refl, ground (arith, full, h))
    | inr room ↦ inr (
      record w { written = w.written ++ src },
      rw (room) refl,
      length-append w.written src,
      refl,
      ground (arith, length-append w.written src, room, h),
    )
  ];
}

pub Exact-then :
    {put next : Write} {m n : ℕ} → Exact put m → Exact next n → Exact (put >=> next) (m + n)
Exact-then {put} {next} {m} {n} p q = record {
  sizes = λ w h. elim (p.sizes w h) [
    | inl (e, small) ↦ inl (rw (◌>=>◌, e) refl, omega arith)
    | inr (v, e, long, same, fits) ↦ elim (q.sizes v (omega (arith, fits, same))) [
      | inl (e', small) ↦ inl (rw (◌>=>◌, e) e', omega (arith, small, long, same))
      | inr (v', e', long', same', fits') ↦ inr (
        v',
        rw (◌>=>◌, e) e',
        omega (arith, long, long'),
        same' ∙ same,
        omega (arith, fits', same),
      )
    ]
  ];
}

pub Exact-done : Exact (λ w. some w) 0
Exact-done = record { sizes = λ w h. inr (w, refl, omega arith, refl, h) }

length-little_endian : (k v : ℕ) → length (little_endian k v) ≡ k
length-little_endian zero v = refl
length-little_endian (suc k) v = ap suc (length-little_endian k (v / 256))

pub Exact-word : (width v : ℕ) → Exact (write_word width v) width
unfolding write_word
Exact-word width v = rw (length-little_endian width v) at (Exact-bytes (little_endian width v))

pub Exact-string : (str : Bytes) → length str < 65536 → Exact (write_string str) (2 + length str)
unfolding write_string
Exact-string str h =
    rw (same, take-all (length str) str (omega arith))
      (Exact-then (Exact-word 2 (length str)) (text str))
  where
    same : length str % 65536 ≡ length str
    same = omega arith

    text :
        (str : Bytes)
        → Exact (if ltb 0 (length str) then write_bytes str else (λ w. some w)) (length str)
    text [] = Exact-done
    text (b ∷ str) =
        let some_bytes : ltb 0 (suc (length str)) ≡ true = ground arith in
        rw (some_bytes) (Exact-bytes (b ∷ str))

-- Fields of `n` bytes fit into a packet exactly if there is room for them after the header.
pub written_packet-fits :
    (id : ℕ) (body : Write) (n : ℕ)
    → Exact body n
    → (max_packet_size < 4 + n → written_packet id body ≡ none)
      × (4 + n ≤ max_packet_size → (bytes : Bytes) × (written_packet id body ≡ some bytes))
unfolding written_packet
written_packet-fits id body n p =
    elim (whole.sizes (record { written = []; size = max_packet_size }) (omega arith)) [
      | inl (e, small) ↦ ((λ h. rw (written_packet, e) refl), (λ h. absurd (omega arith)))
      | inr (v, e, long, same, fits) ↦ (
        (λ h. absurd (omega arith)),
        (λ h. (
          header_bytes (record { size = length v.written % 65536; id = id }) ++ drop 4 v.written,
          rw (written_packet, e) refl,
        )),
      )
    ]
  where
    whole : Exact (write_bytes (header_bytes (record { size = 0; id = id })) >=> body) (4 + n)
    whole = Exact-then (Exact-bytes (header_bytes (record { size = 0; id = id }))) p
