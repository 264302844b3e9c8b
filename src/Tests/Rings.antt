-- ===== src/Tests/Rings.antt =====
-- The witnesses on the reconcile ring.
use astron_claw.Prelude.{ℕ, ◌≡◌, refl, some, arith, length, get_elem?}
use astron_claw.Prelude.Dict.{lookup, insert}
use astron_claw.Ring
use astron_claw.Ring.{
  Ring, track, untrack, next_batch, batch_limit, batch_loop, swap_out, settle_cursor,
}
use astron_claw.Ring.Invariant.{IsValid, empty-IsValid, track-IsValid}
use astron_claw.Ring.Fairness.{sweep, sweep-covers}

unfoldable abc : Ring
abc = track "c" (track "b" (track "a" Ring.empty))

abc-IsValid : IsValid abc
unfolding abc
abc-IsValid = track-IsValid "c" _ (track-IsValid "b" _ (track-IsValid "a" _ empty-IsValid))

a_here : lookup "a" abc.pos ≡ some 0
unfolding abc track lookup insert
a_here = refl

three : length abc.tokens ≡ 3
unfolding abc track lookup insert
three = refl

cursor_0 : abc.cursor ≡ 0
unfolding abc track lookup insert
cursor_0 = refl

sweep-covers_example : (i : ℕ) × (get_elem? (sweep 2 2 abc) i ≡ some "a")
sweep-covers_example =
    sweep-covers 2 2 abc "a" 0 abc-IsValid (omega arith) (ground (arith, three)) a_here

reads_b : get_elem? (next_batch 2 abc).0 1 ≡ some "b"
unfolding abc track lookup insert next_batch batch_loop
reads_b = refl
