-- ===== src/BotLoad/Clients/Counters.antt =====
-- What the counters of the load generator count.
use astron_claw.Prelude.{
  ℕ, zero, suc, ◌+◌, Bool, true, false, not, ◌&&◌, ◌≡◌, refl, sym, ap, ◌∙◌, List, [], ◌∷◌, arith,
}
use astron_claw.Prelude.Int.{ℤ, pos_part, neg_part, pos, ◌+ℤ◌, ◌-ℤ◌, int_laws}
use astron_claw.BotLoad.Clients.{
  Stats, no_stats, Phase, looping, waiting, dialing, reading, stopped, Event, polled, dialed,
  failed, inc_close_code, after_error, client_step, clients_step, run_clients, fresh,
}

abbrev pub is_open : Phase → ℕ
is_open reading = 1
is_open _ = 0

-- a client whose last dial or connection has ended, and that has not yet counted its reconnect
abbrev pub is_due : Phase → ℕ
is_due (looping false) = 1
is_due _ = 0

unfoldable pub open_count : List Phase → ℕ
open_count [] = 0
open_count (p ∷ ps) = is_open p + open_count ps

unfoldable pub due_count : List Phase → ℕ
due_count [] = 0
due_count (p ∷ ps) = is_due p + due_count ps

-- the context is not done at an event
abbrev pub goes_on : Event → Bool
goes_on (polled ended) = not ended
goes_on dialed = true
goes_on (failed code ended) = not ended

unfoldable pub all_go_on : List (ℕ × Event) → Bool
all_go_on [] = true
all_go_on ((i, e) ∷ es) = let rest = all_go_on es in goes_on e && rest

-- The changes of the counters are those of the numbers of open connections and of clients that
-- have a reconnect to count.
record Moves (s t : Stats) (n n' m m' : ℕ) (goes : Bool) : Type 0 where
  now : t.connected_now +ℤ pos n ≡ s.connected_now +ℤ pos n'
  fails :
      goes ≡ true
      → t.connect_fail_total + s.reconnect_total + m ≡ s.connect_fail_total + t.reconnect_total + m'

inc_close_code-now :
    (code : ℕ) (s : Stats) → (inc_close_code code s).connected_now ≡ s.connected_now
unfolding inc_close_code
inc_close_code-now code s = ground arith

inc_close_code-fails :
    (code : ℕ) (s : Stats) → (inc_close_code code s).connect_fail_total ≡ s.connect_fail_total
unfolding inc_close_code
inc_close_code-fails code s = ground arith

inc_close_code-reconnects :
    (code : ℕ) (s : Stats) → (inc_close_code code s).reconnect_total ≡ s.reconnect_total
unfolding inc_close_code
inc_close_code-reconnects code s = ground arith

+ℤ_zero : (a : ℤ) → a ≡ a +ℤ pos 0
+ℤ_zero a = omega int_laws

after_error-Moves :
    (code : ℕ) (ended : Bool) (s t : Stats) (n : ℕ)
    → t.connected_now +ℤ pos n ≡ s.connected_now
    → t.connect_fail_total ≡ s.connect_fail_total
    → t.reconnect_total ≡ s.reconnect_total
    → Moves s (after_error code ended t) n 0 0 1 (not ended)
unfolding after_error
after_error-Moves code true s t n h f r = record {
  now = ap (λ x. x +ℤ pos n) (inc_close_code-now code t) ∙ h ∙ +ℤ_zero s.connected_now;
  fails = λ e. cc;
}
after_error-Moves code false s t n h f r = record {
  now = ap (λ x. x +ℤ pos n) (inc_close_code-now code t) ∙ h ∙ +ℤ_zero s.connected_now;
  fails = λ e. omega (arith, inc_close_code-fails code t, inc_close_code-reconnects code t);
}

still-Moves : (e : Event) (s : Stats) (n m : ℕ) → Moves s s n n m m (goes_on e)
still-Moves e s n m = record { now = refl; fails = λ h. omega arith }

client_step-Moves :
    (e : Event) (p : Phase) (s : Stats)
    → (let r = client_step e p s in
        Moves s r.1 (is_open p) (is_open r.0) (is_due p) (is_due r.0) (goes_on e))
unfolding client_step
client_step-Moves (polled true) (looping first) s = record { now = refl; fails = λ h. cc }
client_step-Moves (polled false) (looping true) s = still-Moves dialed s 0 0
client_step-Moves (polled false) (looping false) s = record { now = refl; fails = λ h. omega arith }
client_step-Moves (polled true) waiting s = still-Moves (polled true) s 0 0
client_step-Moves (polled false) waiting s = still-Moves (polled false) s 0 0
client_step-Moves (polled true) dialing s = still-Moves (polled true) s 0 0
client_step-Moves (polled false) dialing s = still-Moves (polled false) s 0 0
client_step-Moves (polled true) reading s = still-Moves (polled true) s 1 0
client_step-Moves (polled false) reading s = still-Moves (polled false) s 1 0
client_step-Moves (polled true) stopped s = still-Moves (polled true) s 0 0
client_step-Moves (polled false) stopped s = still-Moves (polled false) s 0 0
client_step-Moves dialed dialing s = record { now = omega int_laws; fails = λ h. omega arith }
client_step-Moves dialed (looping first) s = still-Moves dialed s 0 _
client_step-Moves dialed waiting s = still-Moves dialed s 0 0
client_step-Moves dialed reading s = still-Moves dialed s 1 0
client_step-Moves dialed stopped s = still-Moves dialed s 0 0
client_step-Moves (failed code ended) dialing s =
    after_error-Moves code ended s s 0 (sym (+ℤ_zero s.connected_now)) refl refl
client_step-Moves (failed code ended) reading s =
    after_error-Moves code ended s (record s { connected_now = s.connected_now -ℤ pos 1 }) 1
      (omega int_laws) refl refl
client_step-Moves (failed code ended) (looping first) s = still-Moves (failed code ended) s 0 _
client_step-Moves (failed code ended) waiting s = still-Moves (failed code ended) s 0 0
client_step-Moves (failed code ended) stopped s = still-Moves (failed code ended) s 0 0

clients_step-Moves :
    (i : ℕ) (e : Event) (ps : List Phase) (s : Stats)
    → (let r = clients_step i e ps s in
        Moves s r.1 (open_count ps) (open_count r.0) (due_count ps) (due_count r.0) (goes_on e))
unfolding clients_step open_count due_count
clients_step-Moves i e [] s = still-Moves e s 0 0
clients_step-Moves zero e (p ∷ ps) s =
    let h = client_step-Moves e p s in
    record {
      now = omega (int_laws, ap pos_part h.now, ap neg_part h.now);
      fails = λ g. omega (arith, h.fails g);
    }
clients_step-Moves (suc i) e (p ∷ ps) s =
    let h = clients_step-Moves i e ps s in
    record {
      now = omega (int_laws, ap pos_part h.now, ap neg_part h.now);
      fails = λ g. omega (arith, h.fails g);
    }

both : {a b : Bool} → a && b ≡ true → (a ≡ true) × (b ≡ true)
both h = (ground (arith, h), ground (arith, h))

run_clients-Moves :
    (es : List (ℕ × Event)) (ps : List Phase) (s : Stats)
    → (let r = run_clients es ps s in
        Moves s r.1 (open_count ps) (open_count r.0) (due_count ps) (due_count r.0) (all_go_on es))
unfolding run_clients all_go_on
run_clients-Moves [] ps s = record { now = refl; fails = λ h. omega arith }
run_clients-Moves ((i, e) ∷ es) ps s =
    let h = clients_step-Moves i e ps s in
    let k = run_clients-Moves es (clients_step i e ps s).0 (clients_step i e ps s).1 in
    record {
      now =
          omega
            (int_laws, ap pos_part h.now, ap neg_part h.now, ap pos_part k.now, ap neg_part k.now);
      fails = λ g. omega (arith, h.fails (both g).0, k.fails (both g).1);
    }

fresh-open : (n : ℕ) → open_count (fresh n) ≡ 0
unfolding open_count fresh
fresh-open zero = refl
fresh-open (suc n) = omega (arith, fresh-open n)

fresh-due : (n : ℕ) → due_count (fresh n) ≡ 0
unfolding due_count fresh
fresh-due zero = refl
fresh-due (suc n) = omega (arith, fresh-due n)

-- Whatever the clients meet, and in whatever order, connected_now is the number of connections that
-- are open.
pub run_clients-now :
    (n : ℕ) (es : List (ℕ × Event))
    → (let (ps, s) = run_clients es (fresh n) no_stats in s.connected_now ≡ pos (open_count ps))
run_clients-now n es =
    let h = run_clients-Moves es (fresh n) no_stats in
    omega (int_laws, ap pos_part h.now, ap neg_part h.now, fresh-open n)

-- While the context is not done, whatever the clients meet and in whatever order: connected_now
-- is the number of connections that are open, and connect_fail_total is reconnect_total and the
-- number of clients together whose last dial or connection has ended and whose reconnect is not
-- counted yet, however many dials succeed. A client that waits before a reconnect, or dials
-- again, has counted it in reconnect_total.
pub run_clients-counts :
    (n : ℕ) (es : List (ℕ × Event))
    → all_go_on es ≡ true
    → (let (ps, s) = run_clients es (fresh n) no_stats in
        (s.connected_now ≡ pos (open_count ps))
        × (s.connect_fail_total ≡ s.reconnect_total + due_count ps))
run_clients-counts n es g =
    let h = run_clients-Moves es (fresh n) no_stats in
    (run_clients-now n es, omega (arith, h.fails g, fresh-due n))
