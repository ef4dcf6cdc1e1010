-- ===== src/Ring/Bounds.antt =====
-- The representation invariant of `RingBuffer`: every position lies in the buffer, one byte stays
-- free, and every operation keeps that.
use iocp_multi_threading_cha.Prelude.{
  ℕ, ◌+◌, ◌-◌, ◌^◌, ◌≤◌, ◌<◌, ◌≡◌, ℤ, pos, negsuc, List, length, length-blit, take, drop, blit,
  arith, some,
}
use iocp_multi_threading_cha.Ring.{
  RingBuffer, make, data_size, free_size, write, move_write_pos, move_read_pos,
}

pub record IsValid (r : RingBuffer) : Type 0 where
  pub storage : length r.buffer ≡ r.capacity
  pub small : r.capacity ≤ 2 ^ 30
  pub read_in : r.read_pos < r.capacity
  pub write_in : r.write_pos < r.capacity

pub make-IsValid :
    (c : ℕ) (memory : List ℕ) {r : RingBuffer}
    → length memory ≡ c
    → c ≤ 2 ^ 30
    → make (pos c) memory ≡ some r
    → IsValid r × (data_size r ≡ 0)
unfolding make data_size
make-IsValid c memory h s e = ground arith

pub data-add-free : {r : RingBuffer} → IsValid r → data_size r + free_size r + 1 ≡ r.capacity
unfolding free_size
data-add-free v = ground arith

pub write-IsValid :
    {r : RingBuffer} (bytes : List ℕ) (size : ℤ) → IsValid r → IsValid (write r bytes size).1
unfolding write
write-IsValid bytes (negsuc n) v = v
write-IsValid {r} bytes (pos n) v = ground (
  arith,
  length-blit r.buffer r.write_pos (take n bytes),
  length-blit r.buffer r.write_pos (take (r.capacity - r.write_pos) bytes),
  length-blit (blit r.buffer r.write_pos (take (r.capacity - r.write_pos) bytes)) 0
      (take (n - (r.capacity - r.write_pos)) (drop (r.capacity - r.write_pos) bytes)),
)

pub move_write_pos-IsValid :
    {r : RingBuffer} (size : ℤ) → IsValid r → IsValid (move_write_pos r size).1
unfolding move_write_pos
move_write_pos-IsValid (negsuc n) v = v
move_write_pos-IsValid (pos n) v = ground arith

pub move_read_pos-IsValid :
    {r : RingBuffer} (size : ℤ) → IsValid r → IsValid (move_read_pos r size).1
unfolding move_read_pos
move_read_pos-IsValid (negsuc n) v = v
move_read_pos-IsValid (pos n) v = ground arith
