-- ===== src/Alive/Checks.antt =====
-- The readers of the alive set agree on who is online.
use astron_claw.Prelude.{
  String, ◌≡◌, refl, ◌∙◌, ap, ◌⊎◌, inl, inr, Bool, true, false, not, ◌&&◌, Option, none, some, List,
  [], ◌∷◌, arith, eq_iff,
}
use astron_claw.Prelude.Int.{ℤ, ◌-ℤ◌, ltb_ℤ, -ℤ_parts}
use astron_claw.Keys.{bot_alive_key}
use astron_claw.Redis.{Redis, Reply, ok, nil, Bound, pos_inf, neg_inf, incl, excl}
use astron_claw.Redis.Laws.{View, RedisLaws, elem, in_range}
use astron_claw.Alive.{
  bot_ttl, or_empty, connected_on, online_on, gone_on, is_bot_connected, get_connections_summary,
  pipe_scores, online_tokens, bulk_check_bot_online,
}

-- The reads of the alive set succeed.
pub record Readable (R : Redis) : Type 0 where
  pub zscore :
      (k m : String) (s : R.Server)
      → ((x : ℤ) × ((R.zscore k m s).0 ≡ ok x)) ⊎ ((R.zscore k m s).0 ≡ nil)
  pub zrange :
      (k : String) (lo hi : Bound) (s : R.Server)
      → (out : List String) × ((R.zrange_by_score k lo hi s).0 ≡ ok out)

-- The last heartbeat is there and less than 30 seconds old.
abbrev pub fresh : ℤ → Option ℤ → Bool
fresh now none = false
fresh now (some score) = ltb_ℤ (now -ℤ score) bot_ttl

cutoff_test : (now x : ℤ) → ltb_ℤ (now -ℤ bot_ttl) x ≡ ltb_ℤ (now -ℤ x) bot_ttl
cutoff_test now x = ground (arith, -ℤ_parts now bot_ttl, -ℤ_parts now x)

in_range-fresh : (now : ℤ) (o : Option ℤ) → in_range (excl (now -ℤ bot_ttl)) pos_inf o ≡ fresh now o
in_range-fresh now none = refl
in_range-fresh now (some x) = ground (arith, cutoff_test now x)

-- The range that the expiry reads is its complement among the recorded bots.
pub in_range-stale :
    (now x : ℤ) → in_range neg_inf (incl (now -ℤ bot_ttl)) (some x) ≡ not (fresh now (some x))
in_range-stale now x = ground (arith, cutoff_test now x)

-- What a reader makes of a reply is what it makes of the recorded score.
pub record ReadsScore (now : ℤ) (r : Reply ℤ) (o : Option ℤ) : Type 0 where
  pub connected : connected_on now r ≡ fresh now o
  pub online : online_on now r ≡ fresh now o
  pub gone : gone_on now r ≡ not (fresh now o)

ReadsScore-ok : (now x : ℤ) → ReadsScore now (ok x) (some x)
unfolding connected_on online_on gone_on
ReadsScore-ok now x = record { connected = refl; online = cutoff_test now x; gone = refl }

ReadsScore-nil : (now : ℤ) → ReadsScore now nil none
unfolding connected_on online_on gone_on
ReadsScore-nil now = record { connected = refl; online = refl; gone = refl }

module _ (R : Redis) (V : View R.Server) (L : RedisLaws R V) (up : Readable R) (now : ℤ) where
  pub zscore-ReadsScore :
      (token : String) (s : R.Server)
      → ReadsScore now (R.zscore bot_alive_key token s).0 (V.score s bot_alive_key token)
  zscore-ReadsScore token s = elim (up.zscore bot_alive_key token s) [
    | inl (x, e) ↦ rw (e, L.zscore-ok bot_alive_key token x s e) (ReadsScore-ok now x)
    | inr e ↦ rw (e, L.zscore-nil bot_alive_key token s e) (ReadsScore-nil now)
  ]

  is_bot_connected-fresh :
      (token : String) (s : R.Server)
      → (is_bot_connected R token now s).0 ≡ fresh now (V.score s bot_alive_key token)
  unfolding is_bot_connected
  is_bot_connected-fresh token s = (zscore-ReadsScore token s).connected

  summary-fresh :
      (token : String) (s : R.Server)
      → elem token (get_connections_summary R now s).0 ≡ fresh now (V.score s bot_alive_key token)
  unfolding get_connections_summary
  summary-fresh token s =
      let (out, e) = up.zrange bot_alive_key (excl (now -ℤ bot_ttl)) pos_inf s in
      ap (λ (r : Reply (List String)). elem token (or_empty r)) e
      ∙ L.zrange-ok _ _ _ out token s e
      ∙ in_range-fresh now (V.score s bot_alive_key token)

  -- A pipeline reads the scores that stood at its start.
  pub pipe_scores-same :
      (t m : String) (s : R.Server)
      → V.score (R.zscore bot_alive_key t s).1 bot_alive_key m ≡ V.score s bot_alive_key m
  pipe_scores-same t m s = (L.zscore-same bot_alive_key t bot_alive_key s).score m

  bulk-elem :
      (tokens : List String) (token : String) (s : R.Server)
      → elem token (online_tokens R now (pipe_scores R tokens s).0)
        ≡ elem token tokens && fresh now (V.score s bot_alive_key token)
  unfolding pipe_scores online_tokens
  bulk-elem [] token s = refl
  bulk-elem (t ∷ ts) token s =
      let s' = (R.zscore bot_alive_key t s).1 in
      ground (
        arith,
        bulk-elem ts token s',
        pipe_scores-same t token s,
        eq_iff token t,
        (zscore-ReadsScore t s).online,
      )

  -- While reads of the alive set succeed, its readers agree: a bot counts as connected for a
  -- chat, as online in the summary, as online in the token list, and as not gone for the status
  -- monitor exactly when its last heartbeat is less than 30 seconds old.
  pub readers_agree :
      (token : String) (tokens : List String) (s : R.Server)
      → elem token tokens ≡ true
      → (let online = fresh now (V.score s bot_alive_key token) in
          ((is_bot_connected R token now s).0 ≡ online)
          × (elem token (get_connections_summary R now s).0 ≡ online)
          × (elem token (bulk_check_bot_online R now tokens s).0 ≡ online)
          × (gone_on now (R.zscore bot_alive_key token s).0 ≡ not online))
  unfolding bulk_check_bot_online
  readers_agree token tokens s listed = (
    is_bot_connected-fresh token s,
    summary-fresh token s,
    bulk-elem tokens token s
        ∙ ap (λ (b : Bool). b && fresh now (V.score s bot_alive_key token)) listed,
    (zscore-ReadsScore token s).gone,
  )
