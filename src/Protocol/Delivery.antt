-- ===== src/Protocol/Delivery.antt =====
-- A message of the protocol from `MakeSendBuffer` on one side to `HandlePacket` on the other.
use iocp_multi_threading_cha.Prelude.{
  ℕ, ◌+◌, ◌*◌, ◌%◌, ◌/◌, ◌<◌, ◌≡◌, ◌∙◌, refl, sym, ap, Bool, true, false, Option, none, some, [],
  ◌++◌, append-nil, if◌then◌else◌, length, arith, inl, inr, ◌⊎◌,
}
use iocp_multi_threading_cha.Session.{Bytes}
use iocp_multi_threading_cha.Session.Packets.{read_header, header_size}
use iocp_multi_threading_cha.Session.Framing.{IsPacket}
use iocp_multi_threading_cha.Wire.{Read, return, read_bytes}
use iocp_multi_threading_cha.Wire.Round.{read_bytes-front, bind-some}
use iocp_multi_threading_cha.Wire.Chunks.{SendBufferManager, returns, header_bytes}
use iocp_multi_threading_cha.Wire.Sealed.{
  IsReady, Sealed, Lost, written_packet-Sealed, make_send_buffer-ready,
}
use iocp_multi_threading_cha.Protocol.{Message}
use iocp_multi_threading_cha.Protocol.Packets.{packet_id, write_fields, make_message}
use iocp_multi_threading_cha.Protocol.Handlers.{
  read_packet_header, server_case, client_case, read_and_handle, handle_packet,
}
use iocp_multi_threading_cha.Protocol.Codecs.{InRange}
use iocp_multi_threading_cha.Protocol.Kinds.{
  read_like, read_like-Round, is_client_message, case_of, packet_id-small,
}

header-round :
    (size id : ℕ)
    → size < 65536
    → id < 65536
    → read_header (header_bytes (record { size = size; id = id })) ≡ record { size = size; id = id }
header-round size id h i =
    let e : size % 256 + 256 * (size / 256 % 256) ≡ size = omega (arith, h) in
    let f : id % 256 + 256 * (id / 256 % 256) ≡ id = omega (arith, i) in rw (e, f) refl

read_packet_header-header :
    (size id : ℕ) (rest : Bytes)
    → size < 65536
    → id < 65536
    → read_packet_header (record {
      unread = header_bytes (record { size = size; id = id }) ++ rest;
      is_valid = true;
    })
      ≡ (some (record { size = size; id = id }), record { unread = rest; is_valid = true })
unfolding read_packet_header read_bytes
read_packet_header-header size id rest h i =
    bind-some
      {r = record {
        unread = header_bytes (record { size = size; id = id }) ++ rest;
        is_valid = true;
      }}
      (read_bytes header_size) (λ bytes. return (read_header bytes))
      (read_bytes-front (header_bytes (record { size = size; id = id })) rest)
    ∙ ap (λ x. (some x, record { unread = rest; is_valid = true })) (header-round size id h i)

Sealed-IsPacket :
    {A : Type 0} (id : ℕ) (get : Read A) (a : A) (bytes : Bytes)
    → id < 65536
    → Sealed id get a bytes
    → IsPacket bytes
Sealed-IsPacket id get a bytes i k = record {
  long = omega (arith, ap length k.parts);
  stated =
      ap (λ l. (read_header l).size) k.parts
      ∙ ap (λ h. h.size) (header-round (length bytes) id (omega (arith, k.short)) i);
}

Sealed-header :
    {A : Type 0} (id : ℕ) (get : Read A) (a : A) (bytes : Bytes)
    → id < 65536
    → (k : Sealed id get a bytes)
    → read_packet_header (record { unread = bytes; is_valid = true }) ≡ (
      some (record { size = length bytes; id = id }),
      record { unread = k.body; is_valid = true },
    )
Sealed-header id get a bytes i k =
    ap (λ l. read_packet_header (record { unread = l; is_valid = true })) k.parts
    ∙ read_packet_header-header (length bytes) id k.body (omega (arith, k.short)) i

module _ {S : Type 0} (handle : Message → S → Bool × S) where
  handle_packet-Sealed :
      (cases : ℕ → Option (Read Message)) (p : Message) (get : Read Message) (bytes : Bytes) (s : S)
      → (k : Sealed (packet_id p) get p bytes)
      → handle_packet handle cases bytes s
        ≡ read_and_handle handle
            (cases (packet_id p))
            (record { unread = k.body; is_valid = true })
            s
  unfolding handle_packet
  handle_packet-Sealed cases p get bytes s k =
      ap (λ o. elim o.0 [ none ↦ (false, s) | some h ↦ read_and_handle handle (cases h.id) o.1 s ])
        (Sealed-header (packet_id p) get p bytes (packet_id-small p) k)

  read_and_handle-Sealed :
      (id : ℕ) (p : Message) (get : Read Message) (bytes : Bytes) (s : S)
      → (k : Sealed id get p bytes)
      → read_and_handle handle (some get) (record { unread = k.body; is_valid = true }) s
        ≡ handle p s
  unfolding read_and_handle
  read_and_handle-Sealed id p get bytes s k =
      ap
        (λ l. elim (get (record { unread = l; is_valid = true })).0 [
          | none ↦ (false, s)
          | some p ↦ handle p s
        ])
        (sym (append-nil k.body))
      ∙ ap (λ o. elim o.0 [ none ↦ (false, s) | some p ↦ handle p s ]) (k.reads [])

  -- What a finished packet of the message `p` does at both ends.
  pub record Handled (p : Message) (bytes : Bytes) : Type 0 where
    pub whole : IsPacket bytes
    pub at_server :
        (s : S)
        → handle_packet handle server_case bytes s
          ≡ (if is_client_message p then handle p s else (false, s))
    pub at_client :
        (s : S)
        → handle_packet handle client_case bytes s
          ≡ (if is_client_message p then (false, s) else handle p s)

  read_or_not :
      (known : Bool) (id : ℕ) (p : Message) (get : Read Message) (bytes : Bytes) (s : S)
      → (k : Sealed id get p bytes)
      → read_and_handle handle
          (if known then some get else none)
          (record { unread = k.body; is_valid = true })
          s
        ≡ (if known then handle p s else (false, s))
  unfolding read_and_handle
  read_or_not true id p get bytes s k = read_and_handle-Sealed id p get bytes s k
  read_or_not false id p get bytes s k = refl

  not_or_read :
      (other : Bool) (id : ℕ) (p : Message) (get : Read Message) (bytes : Bytes) (s : S)
      → (k : Sealed id get p bytes)
      → read_and_handle handle
          (if other then none else some get)
          (record { unread = k.body; is_valid = true })
          s
        ≡ (if other then (false, s) else handle p s)
  unfolding read_and_handle
  not_or_read true id p get bytes s k = refl
  not_or_read false id p get bytes s k = read_and_handle-Sealed id p get bytes s k

  Sealed-Handled :
      (p : Message) (bytes : Bytes) → Sealed (packet_id p) (read_like p) p bytes → Handled p bytes
  Sealed-Handled p bytes k = record {
    whole = Sealed-IsPacket (packet_id p) (read_like p) p bytes (packet_id-small p) k;
    at_server = λ s.
        handle_packet-Sealed server_case p (read_like p) bytes s k
        ∙ rw ((case_of p).0)
            (read_or_not (is_client_message p) (packet_id p) p (read_like p) bytes s k);
    at_client = λ s.
        handle_packet-Sealed client_case p (read_like p) bytes s k
        ∙ rw ((case_of p).1)
            (not_or_read (is_client_message p) (packet_id p) p (read_like p) bytes s k);
  }

  -- A thread that leaves no send buffer open calls `MakeSendBuffer` of a message with fields in range.
  -- If the fields fit, the result is one whole packet, which the server's `HandlePacket` gives to the
  -- handler as the same message if it is one of the clients' messages, and else refuses; the
  -- clients' `HandlePacket` does the reverse. Else a null pointer is returned and the chunk stays open.
  pub make_message-Handled :
      (p : Message) (m : SendBufferManager)
      → InRange p
      → IsReady m
      → ((bytes : Bytes) × (m' : SendBufferManager) × (make_message p m ≡ returns (some bytes) m')
          × IsReady m'
          × Handled p bytes)
        ⊎ Lost (packet_id p) (write_fields p) m
  unfolding make_message
  make_message-Handled p m h ready =
      elim (make_send_buffer-ready (packet_id p) (write_fields p) (read_like p) p m
        (read_like-Round p h) ready) [
          | inl (bytes, m', e, written, r) ↦ inl (
            bytes,
            m',
            e,
            r,
            Sealed-Handled p bytes (
                written_packet-Sealed (packet_id p) (write_fields p) (read_like p) p bytes
                  (read_like-Round p h) written),
          )
          | inr lost ↦ inr lost
        ]
