-- ===== src/Tests/Streams.antt =====
-- The witnesses on the streaming loop.
use astron_claw.Prelude.{
  String, ◌≡◌, refl, Option, none, some, List, [], ◌∷◌, true, str_eq, if◌then◌else◌,
}
use astron_claw.Prelude.Int.{ℤ, pos, ◌+ℤ◌}
use astron_claw.Json.{str, Fields, end, field}
use astron_claw.Stream.{Tick, quiet, message, run, start}
use astron_claw.Stream.Ending.{Kept}
use astron_claw.Stream.Runs.{stream-Kept}
use astron_claw.Stream.Idle.{idle, has_late, AllIdle}

abbrev pub decode : String → Option Fields
decode text =
    if str_eq text "bad"
    then none
    else some (field "type" (str text) (field "content" (str "hello") end))

abbrev at_time : ℤ → String → Tick
at_time now text = record {
  signal = quiet;
  now = now;
  consumed = message "1-0" text;
  late_signal = quiet;
  later = now;
}

abbrev pub ticks : List Tick
ticks = idle decode (pos 1) (pos 2) ∷ at_time (pos 3) "bad" ∷ at_time (pos 4) "done" ∷ []

stream-Kept_example : Kept (run decode ticks (start "s1" (pos 1) (pos 0)))
stream-Kept_example = stream-Kept decode "s1" (pos 1) (pos 0) ticks

abbrev quiet_ticks : List Tick
quiet_ticks = idle decode (pos 1) (pos 2) ∷ idle decode (pos 601) (pos 602) ∷ []

all_quiet : AllIdle decode quiet_ticks
unfolding AllIdle
all_quiet = (refl, (refl, refl))

is_late : has_late decode (start "s1" (pos 1) (pos 0)).deadline quiet_ticks ≡ true
unfolding has_late ◌+ℤ◌
is_late = refl
