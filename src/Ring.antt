-- ===== src/Ring.antt =====
-- The receive ring buffer: class `RingBuffer` of Source/ServerEngine/Buffer/RingBuffer.h and .cpp.
-- `_buffer`, `_capacity`, `_readPos` and `_writePos` are the fields; a `WSABUF` is an offset into
-- `_buffer` and a length. Signed sizes come in as integers; positions are numbers, since
-- `Ring.Bounds` keeps them below the capacity.
pub mod Bounds
pub mod Contents
mod Stored
pub mod Queue
pub mod Spans
mod Tests
use iocp_multi_threading_cha.Prelude.{
  ℕ, ◌+◌, ◌-◌, ◌%◌, min, ℤ, pos, negsuc, Bool, true, false, not, ◌&&◌, ◌||◌, Option, none, some,
  List, ◌++◌, ltb, leb, ◌==◌, if◌then◌else◌, take, drop, blit,
}

pub record RingBuffer : Type 0 where
  pub buffer : List ℕ
  pub capacity : ℕ
  pub read_pos : ℕ
  pub write_pos : ℕ

-- The constructor, on the memory that the allocator returns; `none` is ASSERT_CRASH(capacity > 0).
unfoldable pub make : ℤ → List ℕ → Option RingBuffer
make (negsuc _) memory = none
make (pos c) memory =
    if ltb 0 c
    then some (record { buffer = memory; capacity = c; read_pos = 0; write_pos = 0 })
    else none

unfoldable pub clear : RingBuffer → RingBuffer
clear r = record r { read_pos = 0; write_pos = 0 }

unfoldable pub data_size : RingBuffer → ℕ
data_size r =
    if leb r.read_pos r.write_pos
    then r.write_pos - r.read_pos
    else r.capacity - r.read_pos + r.write_pos

unfoldable pub free_size : RingBuffer → ℕ
unfolding data_size
free_size r = r.capacity - 1 - data_size r

-- `data` holds at least `size` bytes.
unfoldable pub write : RingBuffer → List ℕ → ℤ → Bool × RingBuffer
unfolding free_size
write r bytes (negsuc _) = (false, r)
write r bytes (pos size) =
    if size == 0 || ltb (free_size r) size
    then (false, r)
    else if leb (r.write_pos + size) r.capacity
    then (
      true,
      record r {
        buffer = blit r.buffer r.write_pos (take size bytes);
        write_pos = (r.write_pos + size) % r.capacity;
      },
    )
    else let first_part = r.capacity - r.write_pos in
      let second_part = size - first_part in
      let once = blit r.buffer r.write_pos (take first_part bytes) in
      (
        true,
        record r {
          buffer = blit once 0 (take second_part (drop first_part bytes));
          write_pos = second_part;
        },
      )

-- The bytes copied to `dest`; `none` is the result `false`, which copies nothing.
unfoldable pub peek : RingBuffer → ℤ → Option (List ℕ)
unfolding data_size
peek r (negsuc _) = none
peek r (pos size) =
    if size == 0 || ltb (data_size r) size
    then none
    else if leb (r.read_pos + size) r.capacity
    then some (take size (drop r.read_pos r.buffer))
    else let first_part = r.capacity - r.read_pos in
      let second_part = size - first_part in
      some (take first_part (drop r.read_pos r.buffer) ++ take second_part r.buffer)

unfoldable pub move_write_pos : RingBuffer → ℤ → Bool × RingBuffer
unfolding free_size
move_write_pos r (negsuc _) = (false, r)
move_write_pos r (pos size) =
    if size == 0 || ltb (free_size r) size
    then (false, r)
    else (true, record r { write_pos = (r.write_pos + size) % r.capacity })

unfoldable pub move_read_pos : RingBuffer → ℤ → Bool × RingBuffer
unfolding data_size
move_read_pos r (negsuc _) = (false, r)
move_read_pos r (pos size) =
    if size == 0 || ltb (data_size r) size
    then (false, r)
    else (true, record r { read_pos = (r.read_pos + size) % r.capacity })

-- The result, the bytes written to `dest` and the ring.
unfoldable pub read : RingBuffer → ℤ → Bool × Option (List ℕ) × RingBuffer
unfolding peek move_read_pos
read r size = elim (peek r size) [
  | none ↦ (false, none, r)
  | some bytes ↦ let (done, r') = move_read_pos r size in (done, some bytes, r')
]

pub record WsaBuf : Type 0 where
  pub buf : ℕ
  pub len : ℕ

-- `outWsabufs[2]`, which the span functions fill in place.
pub record SpanPair : Type 0 where
  pub first : WsaBuf
  pub second : WsaBuf

-- `if (maxBytes > 0) size = std::min(size, maxBytes)`
abbrev pub limit : ℕ → ℤ → ℕ
limit size (negsuc _) = size
limit size (pos m) = if ltb 0 m then min size m else size

-- `if (tailFree > 0) { ... }`: the span count, the array and what is left of `freeSize`
unfoldable pub write_tail : RingBuffer → SpanPair → ℕ → ℕ → ℕ × SpanPair × ℕ
write_tail r out tail_free free =
    if ltb 0 tail_free
    then (1, record out { first = record { buf = r.write_pos; len = tail_free } }, free - tail_free)
    else (0, out, free)

-- `if (freeSize > 0 && _readPos > 0) { ... }`, after the tail
unfoldable pub write_head : RingBuffer → ℕ × SpanPair × ℕ → ℕ × SpanPair
write_head r (count, out, left) =
    if ltb 0 left && ltb 0 r.read_pos && ltb 0 (min (r.read_pos - 1) left)
    then (2, record out { second = record { buf = 0; len = min (r.read_pos - 1) left } })
    else (count, out)

-- The `else` branch: free space between the two positions
unfoldable pub write_direct : RingBuffer → SpanPair → ℕ → ℕ × SpanPair
write_direct r out free =
    let direct_free = min (r.read_pos - r.write_pos - 1) free in
    if ltb 0 direct_free
    then (1, record out { first = record { buf = r.write_pos; len = direct_free } })
    else (0, out)

-- `_readPos - 1` and `_readPos - _writePos - 1` run only where they are not negative.
unfoldable pub write_span : RingBuffer → SpanPair → ℤ → ℕ × SpanPair
unfolding free_size
write_span r out max_bytes =
    let free = limit (free_size r) max_bytes in
    let tail = r.capacity - r.write_pos in
    let tail_free = min (if r.read_pos == 0 then tail - 1 else tail) free in
    if free == 0
    then (0, out)
    else if leb r.read_pos r.write_pos
    then write_head r (write_tail r out tail_free free)
    else write_direct r out free

unfoldable pub read_span : RingBuffer → SpanPair → ℤ → ℕ × SpanPair
unfolding data_size
read_span r out max_bytes =
    let size = limit (data_size r) max_bytes in
    let tail_data = min (r.capacity - r.read_pos) size in
    let left = size - tail_data in
    let head_data = min r.write_pos left in
    if size == 0
    then (0, out)
    else if leb r.read_pos r.write_pos
    then (1, record out { first = record { buf = r.read_pos; len = size } })
    else if ltb 0 left && ltb 0 r.write_pos && ltb 0 head_data
    then (
      2,
      record {
        first = record { buf = r.read_pos; len = tail_data };
        second = record { buf = 0; len = head_data };
      },
    )
    else (1, record out { first = record { buf = r.read_pos; len = tail_data } })
