-- ===== src/Tests/Sockets.antt =====
-- The witnesses on the connections of bots.
use astron_claw.Prelude.{String, ◌≡◌, ◌≢◌, refl, true, some, List, [], ◌∷◌}
use astron_claw.Prelude.Int.{pos}
use astron_claw.Prelude.Dict.{lookup}
use astron_claw.Keys.{bot_alive_key}
use astron_claw.Json.{Value, str, field, end}
use astron_claw.Redis.Memory.{memory, empty, view}
use astron_claw.Redis.Memory.Lawful.{memory_laws}
use astron_claw.Tokens.{validate}
use astron_claw.Tokens.Memory.{tokens}
use astron_claw.Bridge.{World}
use astron_claw.WebSocket.{Read, ws_bot, on_registered}
use astron_claw.WebSocket.Gone.{ws_bot-Gone}
use astron_claw.WebSocket.Ended.{ws_bot-Ended, Untouched, nothing, before, Ended}
use astron_claw.Tests.Common.{first, registering, memory-Reachable}

abbrev unmarshalled : Value → String
unmarshalled v = ""

abbrev waiting : World memory
waiting = record { bridge = first; server = empty }

abbrev known : tokens.State
known = ("t", pos 900) ∷ []

-- a heartbeat of another worker
abbrev beat : World memory → World memory
beat w = record w { server = (memory.zadd bot_alive_key (("t", pos 115) ∷ []) w.server).1 }

abbrev reads : List (Read memory)
reads = record { meanwhile = beat; message = some (field "type" (str "ping") end) } ∷ []

abbrev gone : World memory
unfolding ws_bot
gone =
    (ws_bot unmarshalled memory tokens known "" "t" true 1 (pos 100) (pos 100) reads beat waiting).1

beat-Untouched : (w : World memory) → Untouched memory view "t" w (beat w)
beat-Untouched w = record { bots = refl; gens = refl; shared = refl }

ws_bot-Ended_example : (validate tokens "t" (pos 100) known ≡ true) × Ended memory view "t" gone
unfolding ws_bot registering on_registered lookup validate
ws_bot-Ended_example =
    ws_bot-Ended unmarshalled memory view memory_laws memory-Reachable tokens known "" "t" true 1
      (pos 100) (pos 100) reads beat waiting gone (before beat-Untouched nothing) beat-Untouched
      refl

ws_bot-Gone_example : lookup "t" gone.bridge.bots ≢ some 1
unfolding ws_bot lookup
ws_bot-Gone_example =
    ws_bot-Gone unmarshalled memory tokens known "" "t" true 1 (pos 100) (pos 100) reads beat
      waiting (λ h. cc)
