-- ===== src/Tokens/Laws.antt =====
-- What the code relies on in the table of tokens. `expires` is the last time at which the
-- row that a token's text matches counts as valid. Tokens of which two differ in case only are left
-- out: the columns compare texts without case.
use astron_claw.Prelude.{
  ℕ, String, Bool, true, false, not, ◌≡◌, Option, none, some, ltb, if◌then◌else◌,
}
use astron_claw.Prelude.Int.{ℤ, pos, ◌+ℤ◌, ◌≤ℤ◌, ltb_ℤ}
use astron_claw.Tokens.{Token, Changes, TokenTable}

-- not yet expired
abbrev pub is_live : ℤ → Option ℤ → Bool
is_live now none = false
is_live now (some e) = not (ltb_ℤ e now)

abbrev pub or_old : Option ℤ → Option ℤ → Option ℤ
or_old none old = old
or_old (some e) old = some e

-- The time `e` up to which a row counts as valid, against the time that was written: expires_at is a
-- DATETIME, which MySQL rounds to whole seconds, and the driver cuts times to microseconds.
abbrev pub Near : ℤ → ℤ → Type 0
Near e written = (e ≤ℤ written +ℤ pos 600000000) × (written ≤ℤ e +ℤ pos 600000000)

-- The time after a write of one, or after none.
abbrev pub Changed : Option ℤ → Option ℤ → Option ℤ → Type 0
Changed none old new = new ≡ old
Changed (some written) old new = (e : ℤ) × (new ≡ some e) × Near e written

pub record TableLaws (T : TokenTable) (expires : T.State → String → Option ℤ) : Type 0 where
  pub insert-ok :
      (r : Token) (s : T.State)
      → (T.insert r s).0 ≡ true
      → Changed (some r.expires_at) (expires s r.token) (expires (T.insert r s).1 r.token)
  pub count_valid-ok :
      (t : String) (now : ℤ) (n : ℕ) (s : T.State)
      → T.count_valid t now s ≡ some n
      → ltb 0 n ≡ is_live now (expires s t)
  pub update-ok :
      (t : String) (c : Changes) (s : T.State)
      → (T.update t c s).0 ≡ true
      → Changed c.expires_at (expires s t) (expires (T.update t c s).1 t)
  pub delete-ok :
      (t : String) (s : T.State) → (T.delete t s).0 ≡ true → expires (T.delete t s).1 t ≡ none
  pub delete_expired-ok :
      (t : String) (now : ℤ) (n : ℕ) (s : T.State)
      → (T.delete_expired now s).0 ≡ some n
      → expires (T.delete_expired now s).1 t
        ≡ (if is_live now (expires s t) then expires s t else none)
