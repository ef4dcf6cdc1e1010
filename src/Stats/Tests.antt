-- ===== src/Stats/Tests.antt =====
-- Counters that wrap between two updates, and a witness.
use iocp_multi_threading_cha.Prelude.{ℕ, ◌*◌, ◌/◌, ◌≡◌, refl, List, [], ◌∷◌}
use iocp_multi_threading_cha.Stats.{ServerStats, init, update_rates, get_uptime_seconds}
use iocp_multi_threading_cha.Stats.Rates.{receive_all}

abbrev a_second : ℕ → ℕ → ℕ
a_second n ms = n * 1000 / ms

-- The packets counted so far are one short of 2 ^ 64.
abbrev nearly_full : ServerStats
nearly_full = record (init 1000) {
  total_recv_packets = 18446744073709551615;
  last_recv_packets = 18446744073709551615;
}

abbrev sizes : List ℕ
sizes = 10 ∷ 20 ∷ 30 ∷ []

wraps : (update_rates a_second 2000 (receive_all sizes nearly_full)).current_pps ≡ 3
unfolding update_rates
wraps = refl

uptime : get_uptime_seconds 3500 (init 1000) ≡ 2
uptime = refl
