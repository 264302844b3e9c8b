-- ===== src/Tests/Bots.antt =====
-- The witnesses on bots: registration, departure, heartbeats.
use astron_claw.Prelude.{String, ◌≡◌, ◌≢◌, refl, none, some, true, false, str_eq, eq_iff}
use astron_claw.Prelude.Int.{ℤ, pos}
use astron_claw.Prelude.Dict.{lookup}
use astron_claw.Keys.{bot_gen_key, bot_owner_key}
use astron_claw.ParseInt.{parse_int}
use astron_claw.Redis.Memory.{Memory, memory, view, empty, program}
use astron_claw.Redis.Memory.Lawful.{memory_laws}
use astron_claw.Bridge.{Bridge, World, register_bot, unregister_bot, is_stale, gen_or_zero}
use astron_claw.Bridge.Shared.{newer_gen, SameBot, Cleared}
use astron_claw.Bridge.Register.{Registered, register_bot-Registered}
use astron_claw.Bridge.Handover.{handover, reset_generation}
use astron_claw.Tests.Common.{memory-Reachable, first, second, joined, moved, reset, registering}

abbrev fresh_world : Bridge → Memory → World memory
fresh_world b s = record { bridge = b; server = s }

abbrev closing : World memory
closing = fresh_world (record first { shutting_down = true }) empty

joins : register_bot memory "t" 1 (pos 100) (fresh_world first empty) ≡ (none, joined)
unfolding registering
joins = refl

register_bot-Registered_example : (gen : ℤ) × Registered memory view "t" 1 first joined gen
register_bot-Registered_example =
    register_bot-Registered memory view memory_laws "t" 1 (pos 100) (fresh_world first empty) joined
      joins

abbrev held : Bridge
held = joined.bridge

held_bot : lookup "t" joined.bridge.bots ≡ some 1
unfolding registering
held_bot = refl

held_gen : lookup "t" joined.bridge.gens ≡ some (pos 1)
unfolding registering
held_gen = refl

not_stale : is_stale (some 1) (lookup "t" joined.bridge.bots) ≡ false
unfolding is_stale
not_stale = rw held_bot refl

-- the first worker over the server that the second one has registered at
abbrev left_behind : World memory
left_behind = fresh_world joined.bridge moved.server

moved_on :
    newer_gen
      (view.text moved.server (bot_gen_key "t"))
      (gen_or_zero (lookup "t" joined.bridge.gens))
    ≡ true
unfolding registering
moved_on = refl

current :
    newer_gen
      (view.text joined.server (bot_gen_key "t"))
      (gen_or_zero (lookup "t" joined.bridge.gens))
    ≡ false
unfolding registering
current = refl

t_ne_u : ◌≢◌ {A = String} "t" "u"
t_ne_u = λ e. (let wrong : str_eq "t" "u" ≡ true = (eq_iff "t" "u").1 e in cc)

abbrev later : World memory
later = fresh_world second joined.server

moves : register_bot memory "t" 2 (pos 110) later ≡ (none, moved)
unfolding registering
moves = refl

stored_gen : view.text joined.server (bot_gen_key "t") ≡ some "1"
unfolding registering
stored_gen = refl

reads_1 : parse_int "1" ≡ some (pos 1)
unfolding program
reads_1 = refl

handover_example :
    (let left = unregister_bot memory "t" (some 1) left_behind in
      (view.text left.server (bot_owner_key "t") ≡ some "w2")
      × SameBot view moved.server left.server "t")
handover_example =
    handover memory view memory_laws memory-Reachable "t" 2 (pos 110) joined.bridge later moved
      moves (some 1) not_stale "1" (pos 1) held_gen stored_gen reads_1

restarts : register_bot memory "t" 2 (pos 110) (fresh_world second empty) ≡ (none, reset)
unfolding registering
restarts = refl

no_gen : view.text empty (bot_gen_key "t") ≡ none
unfolding lookup
no_gen = refl

reset_generation_example :
    Cleared view
      (unregister_bot memory "t" (some 1) (fresh_world joined.bridge reset.server)).server
      "t"
reset_generation_example =
    reset_generation memory view memory_laws memory-Reachable "t" 2 (pos 110) joined.bridge
      (fresh_world second empty) reset restarts (some 1) not_stale held_gen no_gen
