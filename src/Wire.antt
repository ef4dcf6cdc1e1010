-- ===== src/Wire.antt =====
-- The packet buffers: `BufferReader` and `BufferWriter` of Source/ServerEngine/Buffer/BufferReader.h
-- and BufferWriter.h. A reader is the bytes of its buffer from `_pos` on, so that `FreeSize()` is
-- their number; a writer is the bytes before `_pos`. An integer stands as the unsigned value of its
-- bytes, little-endian.
pub mod Round
pub mod Chunks
pub mod Sealed
pub mod Sizes
mod Tests
use iocp_multi_threading_cha.Prelude.{
  ℕ, zero, suc, ◌+◌, ◌*◌, ◌-◌, ◌%◌, ◌/◌, ◌==◌, Bool, true, false, not, Option, none, some, List, [],
  ◌∷◌, ◌++◌, ltb, if◌then◌else◌, length, take, drop,
}
use iocp_multi_threading_cha.Session.{Bytes}

pub record BufferReader : Type 0 where
  pub unread : Bytes
  pub is_valid : Bool

pub record BufferWriter : Type 0 where
  pub written : Bytes
  pub size : ℕ

-- A read into a variable, which is left as it was if the read fails.
abbrev pub Read : Type 0 → Type 0
Read A = BufferReader → Option A × BufferReader

infixl 5 ◌>>=◌
abbrev pub ◌>>=◌ : {A B : Type 0} → Read A → (A → Read B) → Read B
◌>>=◌ m f r = let (a, r') = m r in elim a [ none ↦ (none, r') | some x ↦ f x r' ]

abbrev pub return : {A : Type 0} → A → Read A
return a r = (some a, r)

-- The `return reader.IsValid()` at the end of every `Read` of the protocol.
abbrev pub finish : {A : Type 0} → A → Read A
finish a r = if r.is_valid then (some a, r) else (none, r)

abbrev pub Write : Type 0
Write = BufferWriter → Option BufferWriter

-- `if (first == false) return nullptr;` and then the rest.
infixr 5 ◌>=>◌
abbrev pub ◌>=>◌ : Write → Write → Write
◌>=>◌ first next w = elim (first w) [ none ↦ none | some w' ↦ next w' ]

abbrev pub little_endian : ℕ → ℕ → Bytes
little_endian zero v = []
little_endian (suc k) v = (v % 256) ∷ little_endian k (v / 256)

abbrev pub word : Bytes → ℕ
word [] = 0
word (b ∷ bs) = b + 256 * word bs

-- `Read(void* dest, int32 len)`.
unfoldable pub read_bytes : ℕ → Read Bytes
read_bytes len r =
    if ltb (length r.unread) len
    then (none, record r { is_valid = false })
    else (some (take len r.unread), record r { unread = drop len r.unread })

-- `Read(T& dest)`, a `Peek` and the move, for an integer of `width` bytes.
unfoldable pub read_word : ℕ → Read ℕ
unfolding read_bytes
read_word width = read_bytes width >>= λ bytes. return (word bytes)

unfoldable pub read_bool : Read Bool
unfolding read_word
read_bool = read_word 1 >>= λ v. return (not (v == 0))

unfoldable pub read_string : Read Bytes
unfolding read_word read_bytes
read_string = read_word 2 >>= λ len. read_bytes len

-- `Write(const void* src, int32 len)`.
unfoldable pub write_bytes : Bytes → Write
write_bytes src w =
    if ltb (w.size - length w.written) (length src)
    then none
    else some (record w { written = w.written ++ src })

-- `Write(const T& src)` for an integer of `width` bytes.
unfoldable pub write_word : ℕ → ℕ → Write
unfolding write_bytes
write_word width v = write_bytes (little_endian width v)

unfoldable pub write_bool : Bool → Write
unfolding write_word
write_bool b = write_word 1 (if b then 1 else 0)

-- The length is cut to a `uint16`.
unfoldable pub write_string : Bytes → Write
unfolding write_word write_bytes
write_string str =
    let len = length str % 65536 in
    write_word 2 len >=> (if ltb 0 len then write_bytes (take len str) else (λ w. some w))

-- The loops over a vector's items, and the `uint16` count before them.
unfoldable pub write_each : {A : Type 0} → (A → Write) → List A → Write
write_each put [] w = some w
write_each put (a ∷ items) w = (put a >=> write_each put items) w

unfoldable pub read_each : {A : Type 0} → Read A → ℕ → Read (List A)
read_each get zero r = (some [], r)
read_each get (suc n) r = (get >>= λ a. read_each get n >>= λ items. return (a ∷ items)) r

unfoldable pub write_vector : {A : Type 0} → (A → Write) → List A → Write
unfolding write_word write_each
write_vector put items = write_word 2 (length items % 65536) >=> write_each put items

unfoldable pub read_vector : {A : Type 0} → Read A → Read (List A)
unfolding read_word read_each
read_vector get = read_word 2 >>= λ count. read_each get count
