-- ===== src/Session/Packets.antt =====
-- The framing of the receive stream: `PacketHeader` and `PacketSession::OnRecv` of
-- Source/ServerEngine/Network/PacketSession.h and PacketSession.cpp. The handler of a packet,
-- `OnRecvPacket`, is a parameter that acts on a state.
use iocp_multi_threading_cha.Prelude.{
  ℕ, zero, suc, ◌+◌, ◌*◌, ℤ, pos, negsuc, [], ◌∷◌, ltb, if◌then◌else◌, length, take, drop,
}
use iocp_multi_threading_cha.Session.{Bytes}

abbrev pub byte_at : Bytes → ℕ → ℕ
byte_at [] i = 0
byte_at (b ∷ bs) zero = b
byte_at (b ∷ bs) (suc i) = byte_at bs i

-- A little-endian `uint16`.
abbrev pub uint16_at : Bytes → ℕ → ℕ
uint16_at bs i = byte_at bs i + 256 * byte_at bs (i + 1)

pub record PacketHeader : Type 0 where
  pub size : ℕ
  pub id : ℕ

-- `sizeof(PacketHeader)`, packed.
abbrev pub header_size : ℕ
header_size = 4

abbrev pub read_header : Bytes → PacketHeader
read_header bs = record { size = uint16_at bs 0; id = uint16_at bs 2 }

module _ {S : Type 0} (on_recv_packet : Bytes → S → S) where
  -- The loop at `processedLen`, over the bytes from there on.
  unfoldable pub on_recv_from : ℕ → Bytes → ℕ → S → ℤ × S
  on_recv_from zero rest processed s = (negsuc 0, s)
  on_recv_from (suc fuel) rest processed s =
      let size = (read_header rest).size in
      let next =
        on_recv_from fuel (drop size rest) (processed + size) (on_recv_packet (take size rest) s) in
      if ltb (length rest) header_size
      then (pos processed, s)
      else if ltb size header_size
      then (negsuc 0, s)
      else if ltb (length rest) size
      then (pos processed, s)
      else next

  -- Every packet takes four bytes at least, so as much fuel as there are bytes is enough.
  unfoldable pub on_recv : Bytes → S → ℤ × S
  unfolding on_recv_from
  on_recv buffer s = on_recv_from (suc (length buffer)) buffer 0 s
