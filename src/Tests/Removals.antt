-- ===== src/Tests/Removals.antt =====
-- The witnesses on the removal of a token's sessions and bot.
use astron_claw.Prelude.{
  String, ◌≡◌, ◌≢◌, refl, none, some, Option, true, false, str_eq, eq_iff, [],
}
use astron_claw.Prelude.Dict.{lookup}
use astron_claw.Keys.{bot_owner_key, bot_gen_key, bot_alive_key}
use astron_claw.Redis.Memory.{memory, view}
use astron_claw.Redis.Memory.Lawful.{memory_laws}
use astron_claw.Bridge.{World, new_bridge, was_closed}
use astron_claw.Bridge.Shared.{SameBot}
use astron_claw.Dispatch.{InboxMessage, Inbox, entry, inbox_step, worker_inbox_name}
use astron_claw.Sessions.{Store, remove_sessions}
use astron_claw.Sessions.Memory.{cache, created_in, table, table-DatabaseLaws}
use astron_claw.Removal.{remove_bot, remove_bot_sessions}
use astron_claw.Removal.Removed.{Removed, superseded_at}
use astron_claw.Removal.Deletion.{
  remove_bot_sessions-Removed, remove_bot-stale_holder, disconnect_message,
  remove_elsewhere-disconnects,
}
use astron_claw.Tests.Common.{memory-Reachable, joined, moved, registering}

abbrev encode : InboxMessage → String
encode m = m.token

abbrev decode : String → Option InboxMessage
decode text = some (disconnect_message text)

abbrev sessions : Store cache table
sessions = record { rdb = []; db = [] }

newest : superseded_at memory view "t" (lookup "t" joined.bridge.bots) joined ≡ false
unfolding registering
newest = refl

removed : (remove_bot_sessions encode memory cache table "t" (sessions, joined)).0 ≡ true
unfolding remove_bot_sessions remove_sessions
removed = refl

remove_bot_sessions-Removed_example :
    Removed memory view "t" joined
      (remove_bot_sessions encode memory cache table "t" (sessions, joined)).1.1
    × ((i : String)
        → created_in
            (remove_bot_sessions encode memory cache table "t" (sessions, joined)).1.0.db
            "t"
            i
          ≡ none)
remove_bot_sessions-Removed_example =
    remove_bot_sessions-Removed encode memory view memory_laws memory-Reachable cache table
      created_in table-DatabaseLaws "t" sessions joined removed newest

-- the first worker over the server that the second one has registered at
abbrev left_behind : World memory
left_behind = record { bridge = joined.bridge; server = moved.server }

held_bot : lookup "t" joined.bridge.bots ≡ some 1
unfolding registering
held_bot = refl

outdated : superseded_at memory view "t" (some 1) left_behind ≡ true
unfolding registering
outdated = refl

remove_bot-stale_holder_example :
    (lookup "t" (remove_bot encode memory "t" left_behind).bridge.bots ≡ none)
    × (was_closed 1 (remove_bot encode memory "t" left_behind).bridge.closed ≡ true)
    × SameBot view moved.server (remove_bot encode memory "t" left_behind).server "t"
remove_bot-stale_holder_example =
    remove_bot-stale_holder encode memory view memory_laws memory-Reachable "t" 1 left_behind
      held_bot outdated "t"

abbrev inbox : Inbox
inbox = record { bridge = moved.bridge; acked = []; written = [] }

second_owns : view.text moved.server (bot_owner_key "t") ≡ some "w2"
unfolding registering
second_owns = refl

second_holds : lookup "t" moved.bridge.bots ≡ some 2
unfolding registering
second_holds = refl

t_named : ◌≢◌ {A = String} "t" ""
t_named = λ e. (let wrong : str_eq "t" "" ≡ true = (eq_iff "t" "").1 e in cc)

abbrev told : Inbox
told = inbox_step decode (entry "1-0" (encode (disconnect_message "t"))) inbox

-- a third worker, at which the administrator's request arrives
abbrev asked : World memory
asked = record { bridge = new_bridge "w3"; server = moved.server }

remove_elsewhere-disconnects_example :
    ((remove_bot encode memory "t" asked).server ≡ (
      let s =
        (memory.xadd
          (worker_inbox_name "w2")
          (encode (disconnect_message "t"))
          (memory.get (bot_owner_key "t") moved.server).1).1 in
      let t = (memory.del (bot_owner_key "t") (memory.zrem bot_alive_key "t" s).1).1 in
      (memory.del (bot_gen_key "t") t).1))
    × (lookup "t" told.bridge.bots ≡ none)
    × (was_closed 2 told.bridge.closed ≡ true)
unfolding lookup
remove_elsewhere-disconnects_example =
    remove_elsewhere-disconnects encode decode memory view memory_laws memory-Reachable "t" "w2"
      asked "1-0" 2 inbox refl second_owns refl t_named second_holds
