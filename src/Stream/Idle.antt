-- ===== src/Stream/Idle.antt =====
-- A stream in which nothing happens ends by its timeout.
use astron_claw.Prelude.{
  String, Bool, true, false, ◌||◌, ◌≡◌, inl, inr, refl, ap, ◌∙◌, Option, List, [], ◌∷◌,
  if◌then◌else◌, arith, Bool-cases,
}
use astron_claw.Prelude.Int.{ℤ, ltb_ℤ}
use astron_claw.Json.{Fields}
use astron_claw.Stream.{
  Stream, Round, go_on, stop, Tick, quiet, nothing, receive, round, run, beat, close_with,
  on_signal, timeout,
}

module _ (unmarshal : String → Option Fields) where
  -- a tick in which nothing happens, by the times at which the clock is read
  abbrev pub idle : ℤ → ℤ → Tick
  idle now later = record {
    signal = quiet;
    now = now;
    consumed = nothing;
    late_signal = quiet;
    later = later;
  }

  beat-deadline :
      (now : ℤ) (s : Stream) → ((beat now s).deadline ≡ s.deadline) × ((beat now s).acked ≡ s.acked)
  unfolding beat
  beat-deadline now s = (ground arith, ground arith)

  -- one of the ticks comes after a deadline
  unfoldable pub has_late : ℤ → List Tick → Bool
  has_late deadline [] = false
  has_late deadline (t ∷ ts) = ltb_ℤ deadline t.now || has_late deadline ts

  unfoldable pub AllIdle : List Tick → Type 0
  AllIdle [] = true ≡ true
  AllIdle (t ∷ ts) = (t ≡ idle t.now t.later) × AllIdle ts

  idle-round :
      (now later : ℤ) (s : Stream)
      → round unmarshal (idle now later) s ≡ (
          if ltb_ℤ s.deadline now
          then stop (close_with timeout 10204 "Stream timeout" s)
          else go_on (beat later s))
  unfolding round receive on_signal
  idle-round now later s = refl

  -- what is left to run after a round
  abbrev next : List Tick → Round → Round
  next ts (go_on s) = run unmarshal ts s
  next ts (stop s) = stop s

  -- If nothing happens any more and the clock passes the deadline, the handler returns, with a
  -- timeout.
  pub idle-timeout :
      (ts : List Tick) (s : Stream)
      → AllIdle ts
      → has_late s.deadline ts ≡ true
      → (s' : Stream) × (run unmarshal ts s ≡ stop s')
        × ((s'.close_reason ≡ timeout) × (s'.code ≡ 10204) × (s'.acked ≡ s.acked))
  unfolding run AllIdle has_late close_with
  idle-timeout [] s _ h = cc
  idle-timeout (t ∷ ts) s (e, rest) h = elim (Bool-cases (ltb_ℤ s.deadline t.now)) [
    | inl over ↦
        let stopped : round unmarshal t s ≡ stop (close_with timeout 10204 "Stream timeout" s) =
          ap (λ u. round unmarshal u s) e
          ∙ idle-round t.now t.later s
          ∙ ap
              (λ b.
                if b
                then stop (close_with timeout 10204 "Stream timeout" s)
                else go_on (beat t.later s))
              over in
        (_, ap (next ts) stopped, (refl, refl, refl))
    | inr early ↦
        let goes : round unmarshal t s ≡ go_on (beat t.later s) =
          ap (λ u. round unmarshal u s) e
          ∙ idle-round t.now t.later s
          ∙ ap
              (λ b.
                if b
                then stop (close_with timeout 10204 "Stream timeout" s)
                else go_on (beat t.later s))
              early in
        let (s', stopped, (reason, code, acked)) =
          idle-timeout ts (beat t.later s) rest
            (ap (λ x. has_late x ts) (beat-deadline t.later s).0 ∙ ground arith) in
        (s', ap (next ts) goes ∙ stopped, (reason, code, acked ∙ (beat-deadline t.later s).1))
  ]
