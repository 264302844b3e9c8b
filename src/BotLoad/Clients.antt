-- ===== src/BotLoad/Clients.antt =====
-- The clients of the load generator, run and connectOnce of botClient in
-- backend/cmd/botload/main.go, with their counters. The clients run side by side: what each does next is an
-- event, and the events come in any order. `ended` tells whether the context is done. The counters
-- are taken as unbounded; the pings of keepAlive change nothing that is counted.
pub mod Counters
use astron_claw.Prelude.{ℕ, zero, suc, ◌+◌, Bool, true, false, List, [], ◌∷◌, ◌==◌, if◌then◌else◌}
use astron_claw.Prelude.Int.{ℤ, pos, ◌+ℤ◌, ◌-ℤ◌}

-- stats, without the number of clients; the codes are in the order in which they came first
pub record Stats : Type 0 where
  pub connected_now : ℤ
  pub connected_total : ℕ
  pub reconnect_total : ℕ
  pub connect_fail_total : ℕ
  pub close_codes : List (ℕ × ℕ)

abbrev pub no_stats : Stats
no_stats = record {
  connected_now = pos 0;
  connected_total = 0;
  reconnect_total = 0;
  connect_fail_total = 0;
  close_codes = [];
}

-- LoadOrStore of the counter, and Add
unfoldable pub add_code : ℕ → List (ℕ × ℕ) → List (ℕ × ℕ)
add_code code [] = (code, 1) ∷ []
add_code code ((c, n) ∷ cs) =
    let rest = add_code code cs in if c == code then (c, n + 1) ∷ cs else (c, n) ∷ rest

-- `closeCode != 0`, and incCloseCode
unfoldable pub inc_close_code : ℕ → Stats → Stats
inc_close_code code s =
    if code == 0 then s else record s { close_codes = add_code code s.close_codes }

-- Where a client is: at the head of its loop, with firstConnect, in the wait before a reconnect, in
-- DialContext, in ReadMessage, or returned.
pub data Phase : Type 0 where
  looping : Bool → Phase
  waiting dialing reading stopped : Phase

-- What a client meets: the state of the context where it looks at it, a dial that succeeds, and a
-- dial or a read that fails, with the code of its close error or 0.
pub data Event : Type 0 where
  polled : Bool → Event
  dialed : Event
  failed : ℕ → Bool → Event

-- the end of an iteration, after an error of connectOnce
unfoldable pub after_error : ℕ → Bool → Stats → Stats
after_error code ended s =
    let counted = inc_close_code code s in
    if ended
    then counted
    else record counted { connect_fail_total = counted.connect_fail_total + 1 }

-- run and connectOnce, one event further; an event that the phase does not have changes nothing
unfoldable pub client_step : Event → Phase → Stats → Phase × Stats
client_step (polled true) (looping first) s = (stopped, s)
client_step (polled false) (looping true) s = (dialing, s)
client_step (polled false) (looping false) s =
    (waiting, record s { reconnect_total = s.reconnect_total + 1 })
client_step (polled ended) waiting s = (if ended then stopped else dialing, s)
client_step dialed dialing s = (
  reading,
  record s { connected_now = s.connected_now +ℤ pos 1; connected_total = s.connected_total + 1 },
)
client_step (failed code ended) dialing s = (looping false, after_error code ended s)
client_step (failed code ended) reading s =
    (looping false, after_error code ended (record s { connected_now = s.connected_now -ℤ pos 1 }))
client_step _ p s = (p, s)

-- the event of the client at a place
unfoldable pub clients_step : ℕ → Event → List Phase → Stats → List Phase × Stats
unfolding client_step
clients_step i e [] s = ([], s)
clients_step zero e (p ∷ ps) s = let (p', s') = client_step e p s in (p' ∷ ps, s')
clients_step (suc i) e (p ∷ ps) s = let (ps', s') = clients_step i e ps s in (p ∷ ps', s')

unfoldable pub run_clients : List (ℕ × Event) → List Phase → Stats → List Phase × Stats
unfolding clients_step
run_clients [] ps s = (ps, s)
run_clients ((i, e) ∷ es) ps s = let (ps', s') = clients_step i e ps s in run_clients es ps' s'

-- the clients before their first iteration
unfoldable pub fresh : ℕ → List Phase
fresh zero = []
fresh (suc n) = looping true ∷ fresh n
