-- ===== src/Ring/Tests.antt =====
-- `RingBuffer`'s operations on a buffer of eight bytes whose data wraps round its end.
use iocp_multi_threading_cha.Prelude.{
  ◌≡◌, false, refl, pos, true, none, some, [], ◌∷◌, false, ◌++◌, if◌then◌else◌, take, drop, arith,
}
use iocp_multi_threading_cha.Ring.{
  RingBuffer, SpanPair, data_size, free_size, write, read, move_write_pos, write_span,
}
use iocp_multi_threading_cha.Ring.Bounds.{IsValid}
use iocp_multi_threading_cha.Ring.Contents.{contents}
use iocp_multi_threading_cha.Ring.Queue.{has_room, has_bytes, write-append, read-take-drop}
use iocp_multi_threading_cha.Ring.Spans.{scatter, span_total, write_span-total, scatter-eq-write}

abbrev wrapped : RingBuffer
wrapped = record {
  buffer = 10 ∷ 11 ∷ 12 ∷ 13 ∷ 14 ∷ 15 ∷ 16 ∷ 17 ∷ [];
  capacity = 8;
  read_pos = 6;
  write_pos = 1;
}

wrapped-IsValid : IsValid wrapped
wrapped-IsValid = record {
  storage = refl;
  small = omega arith;
  read_in = omega arith;
  write_in = omega arith;
}

contents-wrapped : contents wrapped ≡ 16 ∷ 17 ∷ 10 ∷ []
unfolding data_size
contents-wrapped = refl

abbrev two_spans : SpanPair
two_spans = record { first = record { buf = 0; len = 0 }; second = record { buf = 0; len = 0 } }

write-append_example :
    let (done, r') = write wrapped (1 ∷ 2 ∷ 3 ∷ []) (pos 3) in
    (done ≡ has_room wrapped 3)
    × (contents r' ≡ (
        if has_room wrapped 3
        then contents wrapped ++ take 3 (1 ∷ 2 ∷ 3 ∷ [])
        else contents wrapped))
    × (has_room wrapped 3 ≡ false → r' ≡ wrapped)
    × IsValid r'
write-append_example = write-append {r = wrapped} 3 (1 ∷ 2 ∷ 3 ∷ []) wrapped-IsValid (omega arith)

read-take-drop_example :
    let (done, dest, r') = read wrapped (pos 3) in
    (done ≡ has_bytes wrapped 3)
    × (dest ≡ (if has_bytes wrapped 3 then some (take 3 (contents wrapped)) else none))
    × (contents r' ≡ (if has_bytes wrapped 3 then drop 3 (contents wrapped) else contents wrapped))
    × (has_bytes wrapped 3 ≡ false → r' ≡ wrapped)
    × IsValid r'
read-take-drop_example = read-take-drop {r = wrapped} 3 wrapped-IsValid

free_wrapped : free_size wrapped ≡ 4
unfolding free_size data_size
free_wrapped = refl

total : span_total (write_span wrapped two_spans (pos 0)) ≡ 4
unfolding free_size data_size
total = write_span-total {r = wrapped} two_spans (pos 0) wrapped-IsValid

scatter-eq-write_example :
    let (done, r') =
      move_write_pos
        (record wrapped {
          buffer = scatter wrapped.buffer (write_span wrapped two_spans (pos 0)) (1 ∷ 2 ∷ []);
        })
        (pos 2) in
    (done ≡ true) × ((done, r') ≡ write wrapped (1 ∷ 2 ∷ []) (pos 2))
scatter-eq-write_example =
    scatter-eq-write {r = wrapped} two_spans (pos 0) (1 ∷ 2 ∷ []) wrapped-IsValid (omega arith)
      (omega (arith, total))
