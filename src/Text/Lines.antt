-- ===== src/Text/Lines.antt =====
-- Lines of texts that are put together from lines.
use Prim.Native.Char.{Char, code}
use Prim.Native.String.{String, ◌++◌}
use text.Mathlib.TextLemmas.{cons-append, nil-append}
use text.Mathlib.TextPositions.{starts_with-append, slice-append_right, len-append}
use text.Mathlib.TextEquality.{starts_with_iff}
use astron_claw.Prelude.{
  ◌≡◌, refl, Bool, true, false, ◌&&◌, inl, inr, ◌∷◌, ◌==◌, starts_with, arith, Bool-cases, eq_iff,
}
use astron_claw.Keys.{diverge, append-ne_of_diverge}
use astron_claw.Text.{lines_of, drop_cr, one_line, trim_prefix, is_plain}

pub and_left : (a b : Bool) → (a && b) ≡ true → a ≡ true
and_left a b h = ground arith

pub and_right : (a b : Bool) → (a && b) ≡ true → b ≡ true
and_right a b h = ground arith

plain_ne-newline : (c : Char) → is_plain c ≡ true → (code c == b'\n') ≡ false
plain_ne-newline c h = ground arith

-- A line that is ended by a newline is the first of the lines.
pub lines_of-line :
    (l rest : String) → one_line l ≡ true → lines_of (l ++ ("\n" ++ rest)) ≡ l ∷ lines_of rest
unfolding lines_of one_line
lines_of-line String.[] rest h =
    rw (nil-append ("\n" ++ rest), cons-append "\n" "" rest, nil-append rest) refl
lines_of-line (String.◌∷◌ c l) rest h =
    let here = plain_ne-newline c (and_left (is_plain c) (one_line l) h) in
    let ih = lines_of-line l rest (and_right (is_plain c) (one_line l) h) in
    rw (cons-append c l ("\n" ++ rest), ih, here) refl

pub drop_cr-one_line : (l : String) → one_line l ≡ true → drop_cr l ≡ l
unfolding drop_cr one_line
drop_cr-one_line String.[] h = refl
drop_cr-one_line (String.◌∷◌ c l) h = ground (arith, drop_cr-one_line l, eq_iff l "")

pub one_line-append : (s t : String) → one_line (s ++ t) ≡ one_line s && one_line t
unfolding one_line
one_line-append String.[] t = rw (nil-append t) refl
one_line-append (String.◌∷◌ c s) t = rw (cons-append c s t) (ground (arith, one_line-append s t))

pub trim_prefix-append : (p s : String) → trim_prefix (p ++ s) p ≡ s
unfolding trim_prefix
trim_prefix-append p s = rw (starts_with-append p s, len-append p s, slice-append_right p s) refl

pub starts_with-diverge : (p q s : String) → diverge p q ≡ true → starts_with (q ++ s) p ≡ false
starts_with-diverge p q s h = elim (Bool-cases (starts_with (q ++ s) p)) [
  | inl e ↦
      elim (append-ne_of_diverge p q (((starts_with_iff (q ++ s) p).0 e).0) s h
        (((starts_with_iff (q ++ s) p).0 e).1)) [ ]
  | inr e ↦ e
]
