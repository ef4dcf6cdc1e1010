-- ===== src/Ring/Spans.antt =====
-- The spans that `GetWriteSpan` and `GetReadSpan` hand to the kernel: scatter-gather I/O without a
-- copy does what `Write` and `Peek` do.
use iocp_multi_threading_cha.Prelude.{
  ℕ, zero, suc, [], ◌+◌, ◌-◌, ◌%◌, ◌≤◌, ◌<◌, ◌≡◌, refl, ◌∙◌, ℤ, pos, negsuc, true, false, List,
  ◌++◌, length, min, take, drop, blit, take-all, drop-all, length-drop, blit-nil, mod-wrap, leb,
  ◌==◌, if◌then◌else◌, Bool-cases, inl, inr, arith,
}
use iocp_multi_threading_cha.Ring.{
  RingBuffer, SpanPair, limit, data_size, free_size, write, move_write_pos, write_span, read_span,
  write_head, write_tail, write_direct,
}
use iocp_multi_threading_cha.Ring.Bounds.{IsValid}
use iocp_multi_threading_cha.Ring.Contents.{contents, copied-eq-take}

-- `WSARecv` fills the spans in order with the bytes that arrived.
abbrev pub scatter : List ℕ → ℕ × SpanPair → List ℕ → List ℕ
scatter buffer (zero, out) bytes = buffer
scatter buffer (suc zero, out) bytes = blit buffer out.first.buf bytes
scatter buffer (suc (suc k), out) bytes =
    blit (blit buffer out.first.buf (take out.first.len bytes)) out.second.buf
      (drop out.first.len bytes)

-- `WSASend` sends the spans in order.
abbrev pub gather : List ℕ → ℕ × SpanPair → List ℕ
gather buffer (zero, out) = []
gather buffer (suc zero, out) = take out.first.len (drop out.first.buf buffer)
gather buffer (suc (suc k), out) =
    take out.first.len (drop out.first.buf buffer)
    ++ take out.second.len (drop out.second.buf buffer)

-- The bytes that the spans have room for.
abbrev pub span_total : ℕ × SpanPair → ℕ
span_total (zero, out) = 0
span_total (suc zero, out) = out.first.len
span_total (suc (suc k), out) = out.first.len + out.second.len

-- `n` bytes from `at` on, split at the end of the buffer.
abbrev split : ℕ → SpanPair → ℕ → ℕ → ℕ × SpanPair
split cap out at n =
    if n == 0
    then (0, out)
    else if leb (at + n) cap
    then (1, record out { first = record { buf = at; len = n } })
    else (
      2,
      record {
        first = record { buf = at; len = cap - at };
        second = record { buf = 0; len = n - (cap - at) };
      },
    )

limit-le : (n : ℕ) (max_bytes : ℤ) → limit n max_bytes ≤ n
limit-le n (negsuc _) = omega arith
limit-le n (pos m) = ground arith

module _ {r : RingBuffer} (out : SpanPair) (v : IsValid r) (n : ℕ) (p : 0 < n)
    (f : n ≤ free_size r) where
  write_direct-split :
      r.write_pos < r.read_pos → write_direct r out n ≡ split r.capacity out r.write_pos n
  unfolding write_direct free_size
  write_direct-split h = ground arith

  tail_free : ℕ
  tail_free =
      min (if r.read_pos == 0 then r.capacity - r.write_pos - 1 else r.capacity - r.write_pos) n

  tail_free-eq :
      r.read_pos ≤ r.write_pos
      → tail_free ≡ (if leb (r.write_pos + n) r.capacity then n else r.capacity - r.write_pos)
  unfolding tail_free free_size
  tail_free-eq h = ground arith

  write_tail-split :
      r.read_pos ≤ r.write_pos
      → write_head r (write_tail r out tail_free n) ≡ split r.capacity out r.write_pos n
  unfolding write_tail write_head free_size
  write_tail-split h = elim (Bool-cases (leb (r.write_pos + n) r.capacity)) [
    | inl e ↦ let t : tail_free ≡ n = tail_free-eq h ∙ rw e in rw t (ground arith)
    | inr e ↦
        let t : tail_free ≡ r.capacity - r.write_pos = tail_free-eq h ∙ rw e in rw t (ground arith)
  ]

write_span-split :
    {r : RingBuffer} (out : SpanPair) (max_bytes : ℤ)
    → IsValid r
    → write_span r out max_bytes ≡ split r.capacity out r.write_pos (limit (free_size r) max_bytes)
unfolding write_span tail_free
write_span-split {r} out max_bytes v = ground (
  arith,
  limit-le (free_size r) max_bytes,
  write_direct-split out v (limit (free_size r) max_bytes),
  write_tail-split out v (limit (free_size r) max_bytes),
)

read_span-split :
    {r : RingBuffer} (out : SpanPair) (max_bytes : ℤ)
    → IsValid r
    → read_span r out max_bytes ≡ split r.capacity out r.read_pos (limit (data_size r) max_bytes)
unfolding read_span
read_span-split {r} out max_bytes v = ground (arith, limit-le (data_size r) max_bytes)

split-total : (cap : ℕ) (out : SpanPair) (at n : ℕ) → span_total (split cap out at n) ≡ n
split-total cap out at n = elim (Bool-cases (n == 0)) [
  | inl e ↦ rw e (ground arith)
  | inr e ↦ elim (Bool-cases (leb (at + n) cap)) [
    | inl fits ↦ rw (e, fits)
    | inr far ↦ rw (e, far) (ground arith)
  ]
]

-- The spans of `GetWriteSpan` have room for exactly the free bytes, or for `maxBytes` where that is
-- positive and less.
pub write_span-total :
    {r : RingBuffer} (out : SpanPair) (max_bytes : ℤ)
    → IsValid r
    → span_total (write_span r out max_bytes) ≡ limit (free_size r) max_bytes
write_span-total {r} out max_bytes v =
    rw (write_span-split out max_bytes v) (split-total r.capacity out r.write_pos _)

-- With a free byte there is a span.
pub count-write_span :
    {r : RingBuffer} (out : SpanPair)
    → IsValid r
    → 0 < free_size r
    → ((write_span r out (pos 0)).0 == 0) ≡ false
count-write_span {r} out v h = rw (write_span-split out (pos 0) v) (ground arith)

-- Filling the spans is one `memcpy`, or the two of `Write`.
scatter-split :
    (buffer : List ℕ) (cap : ℕ) (out : SpanPair) (at n : ℕ) (bytes : List ℕ)
    → 0 < length bytes
    → length bytes ≤ n
    → scatter buffer (split cap out at n) bytes ≡ (
        if leb (at + length bytes) cap
        then blit buffer at bytes
        else blit (blit buffer at (take (cap - at) bytes)) 0 (drop (cap - at) bytes))
scatter-split buffer cap out at n bytes p l = elim (Bool-cases (leb (at + n) cap)) [
  | inl fits ↦
      let some' : (n == 0) ≡ false = ground arith in
      let short : leb (at + length bytes) cap ≡ true = ground arith in rw (some', fits, short)
  | inr far ↦
      let some' : (n == 0) ≡ false = ground arith in
      rw (some', far)
        (elim (Bool-cases (leb (at + length bytes) cap)) [
          | inl short ↦
              rw
                (
                  short,
                  take-all (cap - at) bytes (ground arith),
                  drop-all (cap - at) bytes (ground arith),
                )
                (blit-nil _ 0)
          | inr long ↦ rw long
        ])
]

module _ {r : RingBuffer} (bytes : List ℕ) (v : IsValid r) (p : 0 < length bytes)
    (f : length bytes ≤ free_size r) where
  abbrev n : ℕ
  n = length bytes

  move_write_pos-fits :
      (b : List ℕ)
      → move_write_pos (record r { buffer = b }) (pos n)
        ≡ (true, record r { buffer = b; write_pos = (r.write_pos + n) % r.capacity })
  unfolding move_write_pos free_size
  move_write_pos-fits b = ground arith

  write-fits : write r bytes (pos n) ≡ (
    true,
    record r {
      buffer =
          if leb (r.write_pos + n) r.capacity
          then blit r.buffer r.write_pos bytes
          else blit
              (blit r.buffer r.write_pos (take (r.capacity - r.write_pos) bytes))
              0
              (drop (r.capacity - r.write_pos) bytes);
      write_pos = (r.write_pos + n) % r.capacity;
    },
  )
  unfolding write free_size
  write-fits = ground (
    arith,
    take-all n bytes,
    take-all (n - (r.capacity - r.write_pos)) (drop (r.capacity - r.write_pos) bytes),
    length-drop (r.capacity - r.write_pos) bytes,
    mod-wrap (r.write_pos + n) r.capacity,
  )

-- Bytes that arrive in the spans of `GetWriteSpan`, followed by `MoveWritePos`, leave the ring as
-- `Write` of those bytes leaves it, and both succeed.
pub scatter-eq-write :
    {r : RingBuffer} (out : SpanPair) (max_bytes : ℤ) (bytes : List ℕ)
    → IsValid r
    → 0 < length bytes
    → length bytes ≤ span_total (write_span r out max_bytes)
    → let (done, r') =
        move_write_pos
          (record r { buffer = scatter r.buffer (write_span r out max_bytes) bytes })
          (pos (length bytes)) in
      (done ≡ true) × ((done, r') ≡ write r bytes (pos (length bytes)))
scatter-eq-write {r} out max_bytes bytes v p f =
    let fits : length bytes ≤ limit (free_size r) max_bytes =
      omega (arith, f, write_span-total out max_bytes v) in
    let free : length bytes ≤ free_size r = omega (arith, limit-le (free_size r) max_bytes) in
    rw
      (
        write_span-split out max_bytes v,
        scatter-split r.buffer r.capacity out r.write_pos (limit (free_size r) max_bytes) bytes p
            fits,
        move_write_pos-fits bytes v p free,
        write-fits bytes v p free,
      )
      (refl, refl)

-- The spans of `GetReadSpan` hold the oldest bytes of the ring in order, all of them or `maxBytes`
-- where that is positive and less.
pub gather-take :
    {r : RingBuffer} (out : SpanPair) (max_bytes : ℤ)
    → IsValid r
    → gather r.buffer (read_span r out max_bytes)
      ≡ take (limit (data_size r) max_bytes) (contents r)
gather-take {r} out max_bytes v =
    rw (read_span-split out max_bytes v, ← copied-eq-take m v (limit-le (data_size r) max_bytes))
      (elim (Bool-cases (m == 0)) [
        | inl none ↦
            let e : m ≡ 0 = ground arith in
            let first : leb (r.read_pos + 0) r.capacity ≡ true = ground arith in rw (e, first)
        | inr more ↦ elim (Bool-cases (leb (r.read_pos + m) r.capacity)) [
          | inl fits ↦ rw (more, fits)
          | inr far ↦ rw (more, far)
        ]
      ])
  where
    m : ℕ
    m = limit (data_size r) max_bytes
