-- ===== src/Ring/Contents.antt =====
-- The bytes that a ring holds, oldest first, and `RingBuffer`'s operations as those of a queue.
use iocp_multi_threading_cha.Prelude.{
  ℕ, ◌+◌, ◌-◌, ◌≤◌, ◌≡◌, pos, none, some, List, ◌++◌, length, length-append, length-take,
  length-drop, get_elem?, get_elem?-append, get_elem?-take, get_elem?-drop, list_ext, take, drop,
  ltb, leb, ◌==◌, ◌||◌, if◌then◌else◌, arith,
}
use iocp_multi_threading_cha.Ring.{RingBuffer, data_size, peek}
use iocp_multi_threading_cha.Ring.Bounds.{IsValid}

-- Twice round the buffer, from the oldest byte on.
abbrev pub contents : RingBuffer → List ℕ
contents r = take (data_size r) (drop r.read_pos (r.buffer ++ r.buffer))

pub length-contents : {r : RingBuffer} → IsValid r → length (contents r) ≡ data_size r
unfolding data_size
length-contents {r} v = ground (
  arith,
  length-take (data_size r) (drop r.read_pos (r.buffer ++ r.buffer)),
  length-drop r.read_pos (r.buffer ++ r.buffer),
  length-append r.buffer r.buffer,
)

-- The byte at each place of the queue.
pub get_elem?-contents :
    {r : RingBuffer} (i : ℕ)
    → IsValid r
    → get_elem? (contents r) i ≡ (
        if ltb i (data_size r)
        then (if ltb (r.read_pos + i) r.capacity
            then get_elem? r.buffer (r.read_pos + i)
            else get_elem? r.buffer (r.read_pos + i - r.capacity))
        else none)
get_elem?-contents {r} i v = ground (
  arith,
  get_elem?-take (data_size r) (drop r.read_pos (r.buffer ++ r.buffer)) i,
  get_elem?-drop r.read_pos (r.buffer ++ r.buffer) i,
  get_elem?-append r.buffer r.buffer (r.read_pos + i),
)

-- The one or two `memcpy`s of `Peek`.
abbrev pub copied : RingBuffer → ℕ → List ℕ
copied r n =
    if leb (r.read_pos + n) r.capacity
    then take n (drop r.read_pos r.buffer)
    else take (r.capacity - r.read_pos) (drop r.read_pos r.buffer)
      ++ take (n - (r.capacity - r.read_pos)) r.buffer

pub copied-eq-take :
    {r : RingBuffer} (n : ℕ) → IsValid r → n ≤ data_size r → copied r n ≡ take n (contents r)
copied-eq-take {r} n v h = list_ext (copied r n) (take n (contents r)) at
  where
    first : ℕ
    first = r.capacity - r.read_pos

    at : (i : ℕ) → get_elem? (copied r n) i ≡ get_elem? (take n (contents r)) i
    at i = ground (
      arith,
      get_elem?-take n (contents r) i,
      get_elem?-contents {r = r} i v,
      get_elem?-take n (drop r.read_pos r.buffer) i,
      get_elem?-drop r.read_pos r.buffer i,
      get_elem?-append (take first (drop r.read_pos r.buffer)) (take (n - first) r.buffer) i,
      length-take first (drop r.read_pos r.buffer),
      length-drop r.read_pos r.buffer,
      get_elem?-take first (drop r.read_pos r.buffer) i,
      get_elem?-take (n - first) r.buffer (i - first),
    )

-- `Peek` on a valid ring succeeds exactly for a size from 1 to `GetDataSize()`, and copies the oldest
-- bytes.
pub peek-take :
    {r : RingBuffer} (n : ℕ)
    → IsValid r
    → peek r (pos n) ≡ (if n == 0 || ltb (data_size r) n then none else some (take n (contents r)))
unfolding peek
peek-take {r} n v = ground (arith, copied-eq-take {r = r} n v)
