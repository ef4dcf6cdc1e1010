-- ===== src/Ring/Stored.antt =====
-- What `Write` leaves in the buffer, on each of its two branches.
use iocp_multi_threading_cha.Prelude.{
  ℕ, ◌+◌, ◌-◌, ◌%◌, ◌≤◌, ◌<◌, ◌≡◌, refl, mod-wrap, true, false, inl, inr, ◌∙◌, List, ◌++◌, length,
  length-take, length-drop, length-blit, get_elem?, get_elem?-append, get_elem?-take,
  get_elem?-drop, get_elem?-blit, list_ext, take, drop, blit, ltb, leb, ◌⊎◌, ◌&&◌, if◌then◌else◌,
  arith,
}
use iocp_multi_threading_cha.Ring.{RingBuffer, data_size, free_size}
use iocp_multi_threading_cha.Ring.Bounds.{IsValid}
use iocp_multi_threading_cha.Ring.Contents.{contents, length-contents, get_elem?-contents}

-- `s` is `r` with `n` of the bytes stored from `_writePos` on, going round.
pub record Stored (r : RingBuffer) (n : ℕ) (bytes : List ℕ) (s : RingBuffer) : Type 0 where
  capacity : s.capacity ≡ r.capacity
  read_pos : s.read_pos ≡ r.read_pos
  write_pos :
      s.write_pos
      ≡ (if ltb (r.write_pos + n) r.capacity then r.write_pos + n else r.write_pos + n - r.capacity)
  size : length s.buffer ≡ r.capacity
  byte :
      (j : ℕ)
      → j < r.capacity
      → get_elem? s.buffer j ≡ (
          if leb r.write_pos j && ltb j (r.write_pos + n)
          then get_elem? bytes (j - r.write_pos)
          else if ltb (j + r.capacity) (r.write_pos + n)
          then get_elem? bytes (j + r.capacity - r.write_pos)
          else get_elem? r.buffer j)

pub data_size-lt : {r : RingBuffer} → IsValid r → data_size r < r.capacity
unfolding data_size
data_size-lt v = ground arith

module _ {r s : RingBuffer} (n : ℕ) (bytes : List ℕ) (v : IsValid r) (st : Stored r n bytes s)
    (f : n ≤ free_size r) (l : n ≤ length bytes) where
  pub Stored-IsValid : IsValid s
  unfolding free_size
  Stored-IsValid = ground (arith, st.capacity, st.read_pos, st.write_pos, st.size)

  pub data_size-Stored : data_size s ≡ data_size r + n
  unfolding free_size
  data_size-Stored = ground (arith, st.capacity, st.read_pos, st.write_pos)

  split_free : (r.read_pos ≤ r.write_pos) ⊎ (r.write_pos + n < r.read_pos)
  unfolding free_size
  split_free = ground arith

  old_byte : (i : ℕ) → i < data_size r → get_elem? (contents s) i ≡ get_elem? (contents r) i
  unfolding free_size
  old_byte i lt = ground (
    arith,
    st.capacity,
    st.read_pos,
    data_size-Stored,
    get_elem?-contents {r = s} i Stored-IsValid,
    get_elem?-contents {r = r} i v,
    st.byte (r.read_pos + i),
    st.byte (r.read_pos + i - r.capacity),
  )

  -- Where the byte `i - data_size r` of the new ones stands.
  new_slot :
      (i j : ℕ)
      → data_size r ≤ i
      → i < data_size r + n
      → (j ≡ r.read_pos + i) ⊎ (j + r.capacity ≡ r.read_pos + i)
      → j < r.capacity
      → ((leb r.write_pos j && ltb j (r.write_pos + n)) ≡ true)
          × (j - r.write_pos ≡ i - data_size r)
        ⊎ ((leb r.write_pos j && ltb j (r.write_pos + n)) ≡ false)
          × (ltb (j + r.capacity) (r.write_pos + n) ≡ true)
          × (j + r.capacity - r.write_pos ≡ i - data_size r)
  unfolding free_size
  new_slot i j le lt e h = ground arith

  new_at :
      (i j : ℕ)
      → data_size r ≤ i
      → i < data_size r + n
      → (j ≡ r.read_pos + i) ⊎ (j + r.capacity ≡ r.read_pos + i)
      → j < r.capacity
      → get_elem? s.buffer j ≡ get_elem? bytes (i - data_size r)
  new_at i j le lt e h = elim (new_slot i j le lt e h) [
    | inl p ↦ st.byte j h ∙ rw (p.0, p.1)
    | inr p ↦ st.byte j h ∙ rw (p.0, p.1, p.2)
  ]

  new_byte :
      (i : ℕ)
      → data_size r ≤ i
      → get_elem? (contents s) i ≡ get_elem? (take n bytes) (i - data_size r)
  new_byte i le = ground (
    arith,
    st.capacity,
    st.read_pos,
    data_size-Stored,
    get_elem?-contents {r = s} i Stored-IsValid,
    get_elem?-take n bytes (i - data_size r),
    new_at i (r.read_pos + i),
    new_at i (r.read_pos + i - r.capacity),
    data_size-lt Stored-IsValid,
  )

  pub contents-Stored : contents s ≡ contents r ++ take n bytes
  contents-Stored = list_ext (contents s) (contents r ++ take n bytes) at
    where
      at : (i : ℕ) → get_elem? (contents s) i ≡ get_elem? (contents r ++ take n bytes) i
      at i = ground (
        arith,
        length-contents v,
        get_elem?-append (contents r) (take n bytes) i,
        old_byte i,
        new_byte i,
      )

module _ (r : RingBuffer) (n : ℕ) (bytes : List ℕ) where
  -- The first branch of `Write`: no wrap.
  unfoldable pub straight : RingBuffer
  straight = record r {
    buffer = blit r.buffer r.write_pos (take n bytes);
    write_pos = (r.write_pos + n) % r.capacity;
  }

  -- The second branch: `first_part` bytes at the end of the buffer, the others at its start.
  abbrev pub first_part : ℕ
  first_part = r.capacity - r.write_pos

  unfoldable pub once : List ℕ
  once = blit r.buffer r.write_pos (take first_part bytes)

  unfoldable pub rest : List ℕ
  rest = take (n - first_part) (drop first_part bytes)

  unfoldable pub wrapped : RingBuffer
  unfolding once rest
  wrapped = record r { buffer = blit once 0 rest; write_pos = n - first_part }

module _ {r : RingBuffer} (n : ℕ) (bytes : List ℕ) (v : IsValid r) where
  pub straight-Stored :
      r.write_pos + n ≤ r.capacity
      → n < r.capacity
      → n ≤ length bytes
      → Stored r n bytes (straight r n bytes)
  unfolding straight
  straight-Stored fits small l = record {
    capacity = refl;
    read_pos = refl;
    write_pos = mod-wrap (r.write_pos + n) r.capacity (omega arith);
    size = length-blit r.buffer r.write_pos (take n bytes) ∙ v.storage;
    byte = λ j h. ground (
      arith,
      length-take n bytes,
      get_elem?-blit r.buffer r.write_pos (take n bytes) j,
      get_elem?-take n bytes (j - r.write_pos),
    );
  }

  get_elem?-once :
      (j : ℕ)
      → r.capacity < r.write_pos + n
      → n ≤ length bytes
      → j < r.capacity
      → get_elem? (once r n bytes) j
        ≡ (if leb r.write_pos j then get_elem? bytes (j - r.write_pos) else get_elem? r.buffer j)
  unfolding once
  get_elem?-once j far l h = ground (
    arith,
    length-take (r.capacity - r.write_pos) bytes,
    get_elem?-blit r.buffer r.write_pos (take (r.capacity - r.write_pos) bytes) j,
    get_elem?-take (r.capacity - r.write_pos) bytes (j - r.write_pos),
  )

  length-rest :
      r.capacity < r.write_pos + n
      → n ≤ length bytes
      → length (rest r n bytes) ≡ n - (first_part r n bytes)
  unfolding rest
  length-rest far l = ground (
    arith,
    length-take (n - (first_part r n bytes)) (drop (first_part r n bytes) bytes),
    length-drop (first_part r n bytes) bytes,
  )

  get_elem?-rest :
      (j : ℕ)
      → j < n - (first_part r n bytes)
      → get_elem? (rest r n bytes) j ≡ get_elem? bytes (j + r.capacity - r.write_pos)
  unfolding rest
  get_elem?-rest j h = ground (
    arith,
    get_elem?-take (n - (first_part r n bytes)) (drop (first_part r n bytes) bytes) j,
    get_elem?-drop (first_part r n bytes) bytes j,
  )

  pub wrapped-Stored :
      r.capacity < r.write_pos + n
      → n < r.capacity
      → n ≤ length bytes
      → Stored r n bytes (wrapped r n bytes)
  unfolding wrapped
  wrapped-Stored far small l = record {
    capacity = refl;
    read_pos = refl;
    write_pos = ground arith;
    size = length-blit (once r n bytes) 0 (rest r n bytes) ∙ length-once;
    byte = λ j h. ground (
      arith,
      length-once,
      length-rest far l,
      get_elem?-blit (once r n bytes) 0 (rest r n bytes) j,
      get_elem?-once j far l h,
      get_elem?-rest j,
    );
  }
    where
      length-once : length (once r n bytes) ≡ r.capacity
      length-once = length-blit r.buffer r.write_pos (take (first_part r n bytes) bytes) ∙ v.storage
