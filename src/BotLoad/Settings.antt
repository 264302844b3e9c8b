-- ===== src/BotLoad/Settings.antt =====
-- The settings that normalizeConfig accepts.
use astron_claw.Prelude.{ℕ, String, false, ◌≡◌, subst, ◌==◌, ◌<◌, str_eq, arith, if_by}
use astron_claw.Prelude.Int.{ℤ, pos, ltb_ℤ, ◌≤ℤ◌}
use astron_claw.Text.{trim_space}
use astron_claw.BotLoad.{
  Config, Resolved, url, refused, Normalized, ready, invalid, normalize_config, on_url, with_limits,
  clamp_target, clamp_batch, at_least_1,
}

-- settings that a run can use, for as many tokens
abbrev pub IsUsable : ℕ → Config → Type 0
IsUsable count c =
    (pos 1 ≤ℤ c.target)
    × (c.target ≤ℤ pos count)
    × (pos 1 ≤ℤ c.batch_size)
    × (c.batch_size ≤ℤ c.target)
    × (pos 1 ≤ℤ c.batch_interval)
    × (pos 1 ≤ℤ c.ping_interval)
    × (pos 1 ≤ℤ c.report_interval)
    × (pos 1 ≤ℤ c.handshake_timeout)
    × (pos 1 ≤ℤ c.reconnect_delay)

target-bounds :
    (count : ℕ) (t : ℤ)
    → 0 < count
    → ltb_ℤ t (pos 0) ≡ false
    → (pos 1 ≤ℤ clamp_target count t) × (clamp_target count t ≤ℤ pos count)
target-bounds count t h n = (ground arith, ground arith)

batch-bounds : (t b : ℤ) → pos 1 ≤ℤ t → (pos 1 ≤ℤ clamp_batch t b) × (clamp_batch t b ≤ℤ t)
batch-bounds t b h = (ground arith, ground arith)

at_least_1-bound : (d v : ℤ) → pos 1 ≤ℤ d → pos 1 ≤ℤ at_least_1 d v
at_least_1-bound d v h = ground arith

limits-IsUsable :
    (count : ℕ) (c : Config)
    → 0 < count
    → ltb_ℤ c.target (pos 0) ≡ false
    → IsUsable count (with_limits count c)
unfolding with_limits
limits-IsUsable count c h n =
    let t = target-bounds count c.target h n in
    let b = batch-bounds (clamp_target count c.target) c.batch_size t.0 in
    (
      t.0,
      t.1,
      b.0,
      b.1,
      at_least_1-bound (pos 500000000) c.batch_interval (omega arith),
      at_least_1-bound (pos 20000000000) c.ping_interval (omega arith),
      at_least_1-bound (pos 5000000000) c.report_interval (omega arith),
      at_least_1-bound (pos 10000000000) c.handshake_timeout (omega arith),
      at_least_1-bound (pos 1000000000) c.reconnect_delay (omega arith),
    )

-- what a result promises
abbrev pub Promise : ℕ → Normalized → Type 0
Promise count (ready c) = IsUsable count c
Promise count (invalid e) = Unit

on_url-Promise :
    (count : ℕ) (c : Config) (r : Resolved) → IsUsable count c → Promise count (on_url c r)
unfolding on_url
on_url-Promise count c (url u) h = h
on_url-Promise count c (refused e) h = tt

normalize_config-Promise :
    (resolve : String → Resolved) (c : Config) (count : ℕ)
    → Promise count (normalize_config resolve c count)
unfolding normalize_config
normalize_config-Promise resolve c count =
    if_by (Promise count) (str_eq (trim_space c.host) "") _ _ (λ _. tt)
      (λ _.
        if_by (Promise count) (str_eq (trim_space c.token_file) "") _ _ (λ _. tt)
          (λ _.
            if_by (Promise count) (count == 0) _ _ (λ _. tt)
              (λ some_tokens.
                if_by (Promise count) (ltb_ℤ c.target (pos 0)) _ _ (λ _. tt)
                  (λ not_negative.
                    on_url-Promise count (with_limits count c) (resolve c.host)
                      (limits-IsUsable count c (ground arith) not_negative)))))

-- Settings that normalizeConfig accepts can be used: the target is between 1 and the number of
-- tokens, the batch size between 1 and the target, and every interval is positive.
pub normalize_config-IsUsable :
    (resolve : String → Resolved) (c c' : Config) (count : ℕ)
    → normalize_config resolve c count ≡ ready c'
    → IsUsable count c'
normalize_config-IsUsable resolve c c' count e =
    subst (Promise count) e (normalize_config-Promise resolve c count)
