-- ===== src/Tests/Tools.antt =====
-- The witnesses on the load generator.
use Prim.Native.String.{◌++◌}
use astron_claw.Prelude.{String, false, ◌≡◌, refl, Option, some, List, [], ◌∷◌, length, take}
use astron_claw.Prelude.Int.{pos, pos_part}
use astron_claw.Text.{trim_space, trim_left, trim_right, is_space, contains}
use astron_claw.BotLoad.{
  Config, Url, Resolved, resolve_ws_url, ws_scheme, ws_path, trim_slashes, ready, normalize_config,
  with_limits,
}
use astron_claw.BotLoad.Batches.{AllSized, concat, run_batches, run_batches-ends}

abbrev parse : String → Option Url
parse s = some (record { scheme = "ws"; host = "localhost"; path = "/"; rest = "" })

abbrev print : Url → String
print u = u.scheme ++ ("://" ++ (u.host ++ u.path))

abbrev resolve : String → Resolved
resolve = resolve_ws_url (λ a b. a ++ b) parse print

abbrev settings : Config
settings = record {
  host = " localhost ";
  token_file = "tokens.txt";
  ws_url = "";
  target = pos 0;
  batch_size = pos 2;
  batch_interval = pos 0;
  ping_interval = pos 7;
  report_interval = pos 0;
  handshake_timeout = pos 0;
  reconnect_delay = pos 0;
}

abbrev normal : Config
normal = record (with_limits 3 settings) { ws_url = "ws://localhost/bridge/bot" }

is_accepted : normalize_config resolve settings 3 ≡ ready normal
unfolding normalize_config resolve_ws_url ws_scheme ws_path trim_slashes trim_space trim_left
    trim_right is_space contains
is_accepted = refl

run_batches-ends_example :
    (bs : List (List String)) × (run_batches 4 (λ _. false) normal ("a" ∷ "b" ∷ "c" ∷ []) ≡ some bs)
    × (concat bs ≡ take (pos_part normal.target) ("a" ∷ "b" ∷ "c" ∷ []))
    × (length (concat bs) ≡ pos_part normal.target)
    × AllSized (pos_part normal.batch_size) bs
run_batches-ends_example =
    run_batches-ends resolve settings normal ("a" ∷ "b" ∷ "c" ∷ []) (λ _. false) is_accepted
      (λ _. refl)
