-- ===== src/Stats/Rates.antt =====
-- What `ServerStats::UpdateRates` of Source/ChatServer/Monitoring/ServerStats.cpp measures.
use iocp_multi_threading_cha.Prelude.{
  ℕ, ◌+◌, ◌<◌, ◌≤◌, ◌≡◌, ◌∙◌, refl, ap₂, false, List, [], ◌∷◌, length, ltb, arith,
}
use iocp_multi_threading_cha.Stats.{ServerStats, add_64, sub_64, on_packet_received, update_rates}

-- `OnPacketReceived` for packets of these sizes.
abbrev pub receive_all : List ℕ → ServerStats → ServerStats
receive_all [] s = s
receive_all (n ∷ ns) s = receive_all ns (on_packet_received n s)

abbrev pub total : List ℕ → ℕ
total [] = 0
total (n ∷ ns) = n + total ns

receive_all-counts :
    (sizes : List ℕ) (s : ServerStats)
    → s.total_recv_packets < 18446744073709551616
    → s.total_recv_bytes < 18446744073709551616
    → ((receive_all sizes s).total_recv_packets ≡ add_64 s.total_recv_packets (length sizes))
      × ((receive_all sizes s).total_recv_bytes ≡ add_64 s.total_recv_bytes (total sizes))
      × ((receive_all sizes s).last_recv_packets ≡ s.last_recv_packets)
      × ((receive_all sizes s).last_recv_bytes ≡ s.last_recv_bytes)
      × ((receive_all sizes s).last_rate_tick ≡ s.last_rate_tick)
receive_all-counts [] s p b = (omega (arith, p), omega (arith, b), refl, refl, refl)
receive_all-counts (n ∷ ns) s p b =
    let (packets, bytes, last_packets, last_bytes, tick) =
      receive_all-counts ns (on_packet_received n s) (omega arith) (omega arith) in
    (omega (arith, packets), omega (arith, bytes), last_packets, last_bytes, tick)

-- An update at least 500 ms after the one before, all fields from the counters then.
update_rates-set :
    (per_second : ℕ → ℕ → ℕ) (now : ℕ) (s : ServerStats)
    → 500 ≤ sub_64 now s.last_rate_tick
    → let elapsed = sub_64 now s.last_rate_tick in
      let u = update_rates per_second now s in
      (u.current_pps ≡ per_second (sub_64 s.total_recv_packets s.last_recv_packets) elapsed)
      × (u.current_recv_bps ≡ per_second (sub_64 s.total_recv_bytes s.last_recv_bytes) elapsed)
      × (u.last_recv_packets ≡ s.total_recv_packets)
      × (u.last_recv_bytes ≡ s.total_recv_bytes)
      × (u.last_rate_tick ≡ now)
unfolding update_rates
update_rates-set per_second now s h = rw (soon) (refl, refl, refl, refl, refl)
  where
    soon : ltb (sub_64 now s.last_rate_tick) 500 ≡ false
    soon = ground arith

-- After an update, whatever packets come: the next update at least 500 ms later sets the rates to those
-- of exactly the packets and bytes received in between, even where the totals wrap round.
pub update_rates-window :
    (per_second : ℕ → ℕ → ℕ) (sizes : List ℕ) (now : ℕ) (s : ServerStats)
    → s.total_recv_packets < 18446744073709551616
    → s.total_recv_bytes < 18446744073709551616
    → s.last_recv_packets ≡ s.total_recv_packets
    → s.last_recv_bytes ≡ s.total_recv_bytes
    → length sizes < 18446744073709551616
    → total sizes < 18446744073709551616
    → 500 ≤ sub_64 now s.last_rate_tick
    → let u = update_rates per_second now (receive_all sizes s) in
      (u.current_pps ≡ per_second (length sizes) (sub_64 now s.last_rate_tick))
      × (u.current_recv_bps ≡ per_second (total sizes) (sub_64 now s.last_rate_tick))
update_rates-window per_second sizes now s p b lp lb small small' h =
    let (packets, bytes, last_packets, last_bytes, tick) = receive_all-counts sizes s p b in
    let (pps, bps, _, _, _) = update_rates-set per_second now (receive_all sizes s) (rw (tick) h) in
    (
      pps ∙ ap₂ per_second (omega (arith, packets, last_packets, lp, small, p)) (rw (tick) refl),
      bps ∙ ap₂ per_second (omega (arith, bytes, last_bytes, lb, small', b)) (rw (tick) refl),
    )
