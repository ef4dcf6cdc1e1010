-- ===== src/Ring/Queue.antt =====
-- `RingBuffer` as a bounded FIFO of bytes: what `Write`, `Peek`, `Read` and `MoveReadPos` do to the
-- bytes that the ring holds.
use iocp_multi_threading_cha.Prelude.{
  ℕ, ◌+◌, ◌-◌, ◌≤◌, ◌<◌, ◌≡◌, inl, inr, refl, ◌∙◌, pos, Bool, true, false, not, none, some, List,
  ◌++◌, length, get_elem?, get_elem?-drop, list_ext, take, drop, ltb, leb, ◌==◌, ◌||◌,
  if◌then◌else◌, mod-wrap, Bool-cases, tests, arith,
}
use iocp_multi_threading_cha.Ring.{
  RingBuffer, data_size, free_size, write, peek, move_read_pos, read,
}
use iocp_multi_threading_cha.Ring.Bounds.{IsValid}
use iocp_multi_threading_cha.Ring.Contents.{contents, get_elem?-contents, peek-take}
use iocp_multi_threading_cha.Ring.Stored.{
  Stored, straight, wrapped, straight-Stored, wrapped-Stored, contents-Stored, Stored-IsValid,
  data_size-lt,
}

-- What `Write` and `MoveWritePos` accept.
abbrev pub has_room : RingBuffer → ℕ → Bool
has_room r n = not (n == 0 || ltb (free_size r) n)

-- What `Peek`, `Read` and `MoveReadPos` accept.
abbrev pub has_bytes : RingBuffer → ℕ → Bool
has_bytes r n = not (n == 0 || ltb (data_size r) n)

-- What `Write` leaves when it succeeds.
abbrev stored : RingBuffer → ℕ → List ℕ → RingBuffer
stored r n bytes =
    if leb (r.write_pos + n) r.capacity then straight r n bytes else wrapped r n bytes

write-stored :
    (r : RingBuffer) (n : ℕ) (bytes : List ℕ)
    → write r bytes (pos n) ≡ (if has_room r n then (true, stored r n bytes) else (false, r))
unfolding write straight wrapped
write-stored r n bytes = ground arith

room-bounds :
    {r : RingBuffer} (n : ℕ)
    → IsValid r
    → has_room r n ≡ true
    → (n ≤ free_size r) × (n < r.capacity)
unfolding free_size
room-bounds n v h = ground arith

stored-Stored :
    {r : RingBuffer} (n : ℕ) (bytes : List ℕ)
    → IsValid r
    → n < r.capacity
    → n ≤ length bytes
    → Stored r n bytes (stored r n bytes)
stored-Stored {r} n bytes v b l = elim (Bool-cases (leb (r.write_pos + n) r.capacity)) [
  | inl e ↦ rw e (straight-Stored n bytes v (omega tests) b l)
  | inr e ↦ rw e (wrapped-Stored n bytes v (ground arith) b l)
]

-- `Write` of `n` bytes succeeds exactly if `n` is from 1 to `GetFreeSize()`. It then appends the
-- first `n` of the bytes to those that the ring holds; otherwise it leaves the ring as it was. The
-- invariant is kept.
pub write-append :
    {r : RingBuffer} (n : ℕ) (bytes : List ℕ)
    → IsValid r
    → n ≤ length bytes
    → let (done, r') = write r bytes (pos n) in
      (done ≡ has_room r n)
      × (contents r' ≡ (if has_room r n then contents r ++ take n bytes else contents r))
      × (has_room r n ≡ false → r' ≡ r)
      × IsValid r'
write-append {r} n bytes v l = elim (Bool-cases (has_room r n)) [
  | inl room ↦
      let (f, b) = room-bounds n v room in
      let st = stored-Stored n bytes v b l in
      rw (write-stored, room)
        (
          refl,
          contents-Stored n bytes v st f l,
          (λ full. absurd (cc full)),
          Stored-IsValid n bytes v st f l,
        )
  | inr full ↦ rw (write-stored, full) (refl, refl, (λ _. refl), v)
]

-- What `MoveReadPos` leaves when it succeeds.
advanced : RingBuffer → ℕ → RingBuffer
advanced r n = record r {
  read_pos =
      if ltb (r.read_pos + n) r.capacity then r.read_pos + n else r.read_pos + n - r.capacity;
}

moved-advanced :
    {r : RingBuffer} (n : ℕ)
    → IsValid r
    → move_read_pos r (pos n) ≡ (if has_bytes r n then (true, advanced r n) else (false, r))
unfolding move_read_pos advanced
moved-advanced {r} n v = ground (arith, mod-wrap (r.read_pos + n) r.capacity)

module _ {r : RingBuffer} (n : ℕ) (v : IsValid r) (h : n ≤ data_size r) where
  advanced-IsValid : IsValid (advanced r n)
  unfolding advanced data_size
  advanced-IsValid = ground arith

  data_size-advanced : data_size (advanced r n) ≡ data_size r - n
  unfolding advanced data_size
  data_size-advanced = ground arith

  contents-advanced : contents (advanced r n) ≡ drop n (contents r)
  contents-advanced = list_ext (contents (advanced r n)) (drop n (contents r)) at
    where
      at : (i : ℕ) → get_elem? (contents (advanced r n)) i ≡ get_elem? (drop n (contents r)) i
      at i =
          unfold advanced in
          ground (
            arith,
            data_size-advanced,
            data_size-lt v,
            get_elem?-contents {r = advanced r n} i advanced-IsValid,
            get_elem?-drop n (contents r) i,
            get_elem?-contents {r = r} (n + i) v,
          )

-- `MoveReadPos(n)` on a valid ring succeeds exactly if `n` is from 1 to `GetDataSize()`. It then drops the `n` oldest
-- bytes; otherwise it leaves the ring as it was. The invariant is kept.
pub move_read_pos-drop :
    {r : RingBuffer} (n : ℕ)
    → IsValid r
    → let (done, r') = move_read_pos r (pos n) in
      (done ≡ has_bytes r n)
      × (contents r' ≡ (if has_bytes r n then drop n (contents r) else contents r))
      × IsValid r'
move_read_pos-drop {r} n v = elim (Bool-cases (has_bytes r n)) [
  | inl some_bytes ↦
      let h : n ≤ data_size r = ground arith in
      rw (moved-advanced n v, some_bytes) (refl, contents-advanced n v h, advanced-IsValid n v h)
  | inr none_left ↦ rw (moved-advanced n v, none_left) (refl, refl, v)
]

-- `Read(n)` on a valid ring succeeds exactly if `n` is from 1 to `GetDataSize()`. It then copies the `n` oldest bytes
-- to `dest` and drops them from the ring; otherwise it copies nothing and leaves the ring as it was.
pub read-take-drop :
    {r : RingBuffer} (n : ℕ)
    → IsValid r
    → let (done, dest, r') = read r (pos n) in
      (done ≡ has_bytes r n)
      × (dest ≡ (if has_bytes r n then some (take n (contents r)) else none))
      × (contents r' ≡ (if has_bytes r n then drop n (contents r) else contents r))
      × (has_bytes r n ≡ false → r' ≡ r)
      × IsValid r'
unfolding read
read-take-drop {r} n v = elim (Bool-cases (has_bytes r n)) [
  | inl some_bytes ↦
      let h : n ≤ data_size r = ground arith in
      let peeked : peek r (pos n) ≡ some (take n (contents r)) = peek-take n v ∙ ground arith in
      rw (read, peeked, moved-advanced n v, some_bytes)
        (refl, refl, contents-advanced n v h, (λ empty. absurd (cc empty)), advanced-IsValid n v h)
  | inr none_left ↦
      let peeked : peek r (pos n) ≡ none = peek-take n v ∙ ground arith in
      rw (read, peeked, none_left) (refl, refl, refl, (λ _. refl), v)
]
