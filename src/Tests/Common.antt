-- ===== src/Tests/Common.antt =====
-- A server in memory, and two workers that share it.
use astron_claw.Prelude.{◌≡◌, ◌⊎◌, inl, inr, refl, Option, none, some}
use astron_claw.Prelude.Int.{pos, ◌+ℤ◌}
use astron_claw.Prelude.Dict.{lookup}
use astron_claw.Redis.{ok, nil}
use astron_claw.Keys.{bot_gen_key, bot_owner_key}
use astron_claw.Redis.Memory.{memory, empty, or_nil_reply, program}
use astron_claw.Bridge.{
  Bridge, World, new_bridge, register_bot, claim_then, register_claimed, evict_if_loaded,
  store_local,
}
use astron_claw.Bridge.Shared.{Reachable}
use astron_claw.Alive.Checks.{Readable}

reply_found :
    {A : Type 0} (o : Option A) → ((a : A) × (or_nil_reply o ≡ ok a)) ⊎ (or_nil_reply o ≡ nil)
reply_found none = inr refl
reply_found (some a) = inl (a, refl)

pub memory-Reachable : Reachable memory
memory-Reachable = record {
  get = λ k s. reply_found (lookup k s.texts);
  zrem = λ k m s. (1, refl);
  zrem_range = λ k lo hi s. (1, refl);
  del = λ k s. (1, refl);
}

pub memory-Readable : Readable memory
memory-Readable = record { zscore = λ k m s. reply_found _; zrange = λ k lo hi s. (_, refl) }

-- two workers
abbrev pub first : Bridge
first = new_bridge "w1"

abbrev pub second : Bridge
second = new_bridge "w2"

-- "t" connects to the first worker, then to the second, over an empty server
unfoldable pub joined : World memory
joined = (register_bot memory "t" 1 (pos 100) (record { bridge = first; server = empty })).1

unfoldable pub moved : World memory
moved = (register_bot memory "t" 2 (pos 110) (record { bridge = second; server = joined.server })).1

-- the key of "t"'s generation is gone before the second registration
unfoldable pub reset : World memory
reset = (register_bot memory "t" 2 (pos 110) (record { bridge = second; server = empty })).1

-- what runs a registration at the server in memory
unfoldable pub registering : Unit {0}
unfolding program register_bot claim_then register_claimed evict_if_loaded store_local ◌+ℤ◌
    bot_gen_key bot_owner_key joined moved reset
registering = tt
