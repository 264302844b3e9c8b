-- ===== src/Tests/Loads.antt =====
-- The witness on the clients of the load generator.
use astron_claw.Prelude.{ℕ, ◌+◌, false, ◌≡◌, refl, List, [], ◌∷◌}
use astron_claw.Prelude.Int.{pos}
use astron_claw.BotLoad.Clients.{
  Stats, no_stats, Phase, Event, polled, dialed, failed, run_clients, client_step, after_error,
  inc_close_code, fresh,
}
use astron_claw.BotLoad.Clients.Counters.{run_clients-counts, open_count, due_count, all_go_on}

-- both clients connect, the second loses its connection, and waits
abbrev events : List (ℕ × Event)
events =
    (0, polled false)
    ∷ (1, polled false)
    ∷ (1, dialed)
    ∷ (0, dialed)
    ∷ (1, failed 1006 false)
    ∷ (1, polled false)
    ∷ []

abbrev after : List Phase × Stats
after = run_clients events (fresh 2) no_stats

run_clients-counts_example :
    (after.1.connected_now ≡ pos (open_count after.0))
    × (after.1.connect_fail_total ≡ after.1.reconnect_total + due_count after.0)
unfolding all_go_on
run_clients-counts_example = run_clients-counts 2 events refl

-- no dial has failed
counted_fails : after.1.connect_fail_total ≡ 1
unfolding run_clients client_step after_error inc_close_code fresh
counted_fails = refl
