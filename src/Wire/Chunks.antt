-- ===== src/Wire/Chunks.antt =====
-- Where packets are written: Source/ServerEngine/Buffer/SendBuffer.h and SendBuffer.cpp, with the
-- `MakeSendBuffer` that every message of Source/Common/Protocol/PacketProtocol.h has in the same
-- form. A chunk is its flag and its fill; a send buffer is the bytes that its owner wrote.
use iocp_multi_threading_cha.Prelude.{
  ℕ, ◌+◌, ◌-◌, ◌%◌, Bool, true, false, not, ◌||◌, ◌==◌, Option, none, some, List, [], ◌∷◌, ◌++◌,
  ltb, if◌then◌else◌, length, take, drop,
}
use iocp_multi_threading_cha.Session.{Bytes}
use iocp_multi_threading_cha.Session.Packets.{PacketHeader}
use iocp_multi_threading_cha.Wire.{Write, ◌>=>◌, little_endian, write_bytes}

pub record SendBufferChunk : Type 0 where
  pub opened : Bool
  pub used_size : ℕ

-- `LSendBufferChunk` of the thread and `GChunkPool`, whose last chunk stands first.
pub record SendBufferManager : Type 0 where
  pub chunk : Option SendBufferChunk
  pub pool : List SendBufferChunk

-- A call ends the process at an `ASSERT_CRASH`, or returns; `A` is what it returns.
pub data Run (A : Type 0) : Type 0 where
  crash : Run A
  returns : A → SendBufferManager → Run A

abbrev pub chunk_size : ℕ
chunk_size = 65536

abbrev pub empty_chunk : SendBufferChunk
empty_chunk = record { opened = false; used_size = 0 }

-- `SendBufferChunk::Reset`.
abbrev pub reset : SendBufferChunk → SendBufferChunk
reset c = record c { opened = false; used_size = 0 }

abbrev pub chunk_free_size : SendBufferChunk → ℕ
chunk_free_size c = chunk_size - c.used_size

-- `SendBufferChunk::Open` on the thread's chunk; `true` is a send buffer, `false` a null pointer.
unfoldable pub chunk_open : ℕ → SendBufferChunk → List SendBufferChunk → Run Bool
chunk_open alloc c pool =
    if alloc == 0 || ltb chunk_size alloc || c.opened
    then crash
    else if ltb (chunk_free_size c) alloc
    then returns false (record { chunk = some c; pool = pool })
    else returns true (record { chunk = some (record c { opened = true }); pool = pool })

-- `SendBufferManager::Pop`, and the `Reset` that follows each call of it.
unfoldable pub pop_reset : List SendBufferChunk → SendBufferChunk × List SendBufferChunk
pop_reset [] = (empty_chunk, [])
pop_reset (c ∷ pool) = (reset c, pool)

-- `SendBufferManager::Push`, which nothing calls.
unfoldable pub push : SendBufferChunk → SendBufferManager → SendBufferManager
push c m = record m { pool = c ∷ m.pool }

-- `SendBufferManager::Open` from its assertion on.
unfoldable pub open_in : ℕ → SendBufferChunk → List SendBufferChunk → Run Bool
unfolding pop_reset chunk_open
open_in size c pool =
    if c.opened
    then crash
    else if ltb (chunk_free_size c) size
    then chunk_open size (pop_reset pool).0 (pop_reset pool).1
    else chunk_open size c pool

unfoldable pub open_buffer : ℕ → SendBufferManager → Run Bool
unfolding open_in pop_reset
open_buffer size m = elim m.chunk [
  | none ↦ open_in size (pop_reset m.pool).0 (pop_reset m.pool).1
  | some c ↦ open_in size c m.pool
]

-- `SendBufferManager::Close` of a buffer of `alloc` bytes that lies in the thread's chunk.
unfoldable pub close_buffer : ℕ → ℕ → SendBufferManager → Run Unit
close_buffer alloc write_size m = elim m.chunk [
  | none ↦ crash
  | some c ↦
      if ltb alloc write_size || not c.opened
      then crash
      else returns tt (record m {
        chunk = some (record c { opened = false; used_size = c.used_size + write_size });
      })
]

abbrev pub max_packet_size : ℕ
max_packet_size = 4096

-- The four bytes of a `PacketHeader`.
abbrev pub header_bytes : PacketHeader → Bytes
header_bytes h = little_endian 2 h.size ++ little_endian 2 h.id

-- `MakeSendBuffer` after `Open`: the header with size 0, the fields, and the header again over it.
unfoldable pub written_packet : ℕ → Write → Option Bytes
unfolding write_bytes
written_packet id body =
    elim ((write_bytes (header_bytes (record { size = 0; id = id })) >=> body)
      (record { written = []; size = max_packet_size })) [
        | none ↦ none
        | some w ↦
            some (
              header_bytes (record { size = length w.written % 65536; id = id })
              ++ drop 4 w.written)
      ]

-- The fields did not fit: `return nullptr` leaves the chunk open. Else the buffer is closed.
unfoldable pub close_packet : Option Bytes → SendBufferManager → Run (Option Bytes)
unfolding close_buffer
close_packet none m = returns none m
close_packet (some bytes) m = elim (close_buffer max_packet_size (length bytes % 65536) m) [
  | crash ↦ crash
  | returns tt m' ↦ returns (some (take (length bytes % 65536) bytes)) m'
]

-- `MakeSendBuffer` of a message with packet id `id`, whose fields `body` writes. On a null buffer
-- it writes through a null pointer.
unfoldable pub make_send_buffer : ℕ → Write → SendBufferManager → Run (Option Bytes)
unfolding open_buffer written_packet close_packet
make_send_buffer id body m = elim (open_buffer max_packet_size m) [
  | crash ↦ crash
  | returns false m' ↦ crash
  | returns true m' ↦ close_packet (written_packet id body) m'
]
