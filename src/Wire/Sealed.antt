-- ===== src/Wire/Sealed.antt =====
-- What `MakeSendBuffer` leaves in a send buffer, and when it succeeds.
use mathlib.Core.Option.{some-injective}
use iocp_multi_threading_cha.Prelude.{
  ℕ, ◌+◌, ◌-◌, ◌%◌, ◌≤◌, ◌≡◌, ◌∙◌, ◌⊎◌, inl, inr, refl, sym, ap, true, false, Option, none, some,
  List, [], ◌∷◌, ◌++◌, ltb, length, drop, take-all, dec_lt, arith,
}
use iocp_multi_threading_cha.Session.{Bytes}
use iocp_multi_threading_cha.Wire.{BufferWriter, Read, Write, write_bytes}
use iocp_multi_threading_cha.Wire.Round.{Round}
use iocp_multi_threading_cha.Wire.Chunks.{
  SendBufferChunk, SendBufferManager, crash, returns, chunk_size, header_bytes, written_packet,
  close_packet, close_buffer, open_buffer, open_in, chunk_open, pop_reset, make_send_buffer,
  max_packet_size,
}

-- No send buffer of the thread is open.
abbrev pub IsReady : SendBufferManager → Type 0
IsReady m = elim m.chunk [ none ↦ Unit | some c ↦ (c.opened ≡ false) × (c.used_size ≤ chunk_size) ]

-- A send buffer of the thread was not closed.
abbrev pub IsStuck : SendBufferManager → Type 0
IsStuck m = elim m.chunk [ none ↦ ⊥ | some c ↦ c.opened ≡ true ]

-- A finished packet: a header that states its length, and then bytes from which `get` reads `a`.
pub record Sealed {A : Type 0} (id : ℕ) (get : Read A) (a : A) (bytes : Bytes) : Type 0 where
  pub body : Bytes
  pub parts : bytes ≡ header_bytes (record { size = length bytes; id = id }) ++ body
  pub short : length bytes ≤ max_packet_size
  pub reads :
      (post : Bytes)
      → get (record { unread = body ++ post; is_valid = true })
        ≡ (some a, record { unread = post; is_valid = true })

module _ {A : Type 0} (id : ℕ) (body : Write) (get : Read A) (a : A) where
  written_from :
      (o : Option BufferWriter) (bytes : Bytes)
      → Round body get a
      → body
          (record { written = header_bytes (record { size = 0; id = id }); size = max_packet_size })
        ≡ o
      → elim o [
        | none ↦ none
        | some w ↦
            some (
              header_bytes (record { size = length w.written % 65536; id = id })
              ++ drop 4 w.written)
      ]
        ≡ some bytes
      → Sealed id get a bytes
  written_from none bytes r e h = absurd (ground (arith, h))
  written_from (some w) bytes r e h =
      let (x, we, short, back) =
        r.reads
          (record { written = header_bytes (record { size = 0; id = id }); size = max_packet_size })
          w e (omega arith) in
      let all : w.written ≡ header_bytes (record { size = 0; id = id }) ++ x =
        ap (λ v. v.written) we in
      let size : length w.written ≡ 4 + length x = omega (arith, ap length all) in
      let wrap : length w.written % 65536 ≡ 4 + length x = omega (arith, size, short) in
      let packet : bytes ≡ header_bytes (record { size = 4 + length x; id = id }) ++ x =
        sym (some-injective _ _ h)
        ∙ ap (λ l. header_bytes (record { size = length w.written % 65536; id = id }) ++ drop 4 l)
            all
        ∙ ap (λ v. header_bytes (record { size = v; id = id }) ++ x) wrap in
      let total : length bytes ≡ 4 + length x = omega (arith, ap length packet) in
      record {
        body = x;
        parts = packet ∙ ap (λ n. header_bytes (record { size = n; id = id }) ++ x) (sym total);
        short = omega (arith, total, size, short);
        reads = back;
      }

  pub written_packet-Sealed :
      (bytes : Bytes)
      → Round body get a
      → written_packet id body ≡ some bytes
      → Sealed id get a bytes
  unfolding written_packet write_bytes
  written_packet-Sealed bytes r h =
      written_from
        (body (record {
          written = header_bytes (record { size = 0; id = id });
          size = max_packet_size;
        }))
        bytes r refl h

-- The fields fit, and the finished packet takes its place in the chunk.
abbrev pub Delivered : ℕ → Write → SendBufferManager → Type 0
Delivered id body m =
    (bytes : Bytes) × (m' : SendBufferManager) × (make_send_buffer id body m
      ≡ returns (some bytes) m')
    × (written_packet id body ≡ some bytes)
    × IsReady m'

-- The fields do not fit: a null pointer is returned, and the chunk stays open.
abbrev pub Lost : ℕ → Write → SendBufferManager → Type 0
Lost id body m =
    (m' : SendBufferManager) × (make_send_buffer id body m ≡ returns none m')
    × (written_packet id body ≡ none)
    × IsStuck m'

-- A chunk with room for a packet, just opened.
abbrev IsOpened : SendBufferManager → Type 0
IsOpened m = elim m.chunk [
  | none ↦ ⊥
  | some c ↦ (c.opened ≡ true) × (c.used_size + max_packet_size ≤ chunk_size)
]

chunk_open-opens :
    (c : SendBufferChunk) (pool : List SendBufferChunk)
    → c.opened ≡ false
    → c.used_size + max_packet_size ≤ chunk_size
    → (m' : SendBufferManager) × (chunk_open max_packet_size c pool ≡ returns true m') × IsOpened m'
unfolding chunk_open
chunk_open-opens c pool o u = (
  record { chunk = some (record c { opened = true }); pool = pool },
  ground (arith, o, u),
  (refl, u),
)

pop_reset-empty :
    (pool : List SendBufferChunk)
    → ((pop_reset pool).0.opened ≡ false) × ((pop_reset pool).0.used_size ≡ 0)
unfolding pop_reset
pop_reset-empty [] = (refl, refl)
pop_reset-empty (c ∷ pool) = (refl, refl)

open_in-opens :
    (c : SendBufferChunk) (pool : List SendBufferChunk)
    → c.opened ≡ false
    → c.used_size ≤ chunk_size
    → (m' : SendBufferManager) × (open_in max_packet_size c pool ≡ returns true m') × IsOpened m'
unfolding open_in
open_in-opens c pool o u = elim (dec_lt (chunk_size - c.used_size) max_packet_size) [
  | yes full ↦
      let (m', e, k) =
        chunk_open-opens (pop_reset pool).0 (pop_reset pool).1 (pop_reset-empty pool).0
          (omega (arith, (pop_reset-empty pool).1)) in
      (m', ground (arith, o, full) ∙ e, k)
  | no room ↦
      let (m', e, k) = chunk_open-opens c pool o (omega (arith, room, u)) in
      (m', ground (arith, o, room) ∙ e, k)
]

opens_at :
    (o : Option SendBufferChunk) (pool : List SendBufferChunk)
    → IsReady (record { chunk = o; pool = pool })
    → (m' : SendBufferManager) × (open_buffer max_packet_size (record { chunk = o; pool = pool })
        ≡ returns true m')
      × IsOpened m'
unfolding open_buffer
opens_at none pool h =
    let (shut, used) = pop_reset-empty pool in
    open_in-opens (pop_reset pool).0 (pop_reset pool).1 shut (omega (arith, used))
opens_at (some c) pool (o, u) = open_in-opens c pool o u

close_at :
    (bytes : Bytes) (o : Option SendBufferChunk) (pool : List SendBufferChunk)
    → IsOpened (record { chunk = o; pool = pool })
    → length bytes ≤ max_packet_size
    → (m' : SendBufferManager) × (close_packet (some bytes) (record { chunk = o; pool = pool })
        ≡ returns (some bytes) m')
      × IsReady m'
unfolding close_packet close_buffer
close_at bytes none pool k h = elim k [ ]
close_at bytes (some c) pool (o, u) h = (
  record {
    chunk = some (record { opened = false; used_size = c.used_size + length bytes });
    pool = pool;
  },
  rw (close_packet, wrap, close_buffer, small, o, wrap, take-all (length bytes) bytes (omega arith))
      refl,
  (refl, omega (arith, u, h)),
)
  where
    wrap : length bytes % 65536 ≡ length bytes
    wrap = omega (arith, h)

    small : ltb max_packet_size (length bytes) ≡ false
    small = ground (arith, h)

IsOpened-IsStuck :
    (m : SendBufferManager) (o : Option SendBufferChunk) → m.chunk ≡ o → IsOpened m → IsStuck m
IsOpened-IsStuck m none e k = rw (e) (rw (e) at k)
IsOpened-IsStuck m (some c) e k = rw (e) ((rw (e) at k).0)

-- On a thread that leaves no send buffer open, for fields that some `Read` reads back,
-- `MakeSendBuffer` hits no assertion: if the fields fit into a packet it returns a packet and leaves
-- no send buffer open again; else it returns a null pointer and leaves one open.
pub make_send_buffer-ready :
    {A : Type 0} (id : ℕ) (body : Write) (get : Read A) (a : A) (m : SendBufferManager)
    → Round body get a
    → IsReady m
    → Delivered id body m ⊎ Lost id body m
unfolding make_send_buffer close_packet
make_send_buffer-ready id body get a m r ready = at (written_packet id body) refl
  where
    at : (o : Option Bytes) → written_packet id body ≡ o → Delivered id body m ⊎ Lost id body m
    at none e =
        let (m1, opens, k) = opens_at m.chunk m.pool ready in
        inr (m1, rw (make_send_buffer, opens, e) refl, e, IsOpened-IsStuck m1 m1.chunk refl k)
    at (some bytes) e =
        let (m1, opens, k) = opens_at m.chunk m.pool ready in
        let (m2, closes, k') =
          close_at bytes m1.chunk m1.pool k (written_packet-Sealed id body get a bytes r e).short in
        inl (bytes, m2, rw (make_send_buffer, opens, e) closes, e, k')

crash_at :
    (id : ℕ) (body : Write) (o : Option SendBufferChunk) (pool : List SendBufferChunk)
    → IsStuck (record { chunk = o; pool = pool })
    → make_send_buffer id body (record { chunk = o; pool = pool }) ≡ crash
unfolding make_send_buffer open_buffer open_in
crash_at id body none pool h = elim h [ ]
crash_at id body (some c) pool h = rw (h) refl

-- Once a send buffer was not closed, every later `MakeSendBuffer` of the thread hits the assertion
-- of `SendBufferManager::Open` and ends the process.
pub make_send_buffer-stuck :
    (id : ℕ) (body : Write) (m : SendBufferManager) → IsStuck m → make_send_buffer id body m ≡ crash
make_send_buffer-stuck id body m h = crash_at id body m.chunk m.pool h
