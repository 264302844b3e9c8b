-- ===== src/Tokens/Memory.antt =====
-- A table of tokens in memory, from each token to the end of its lifetime: the instance at which
-- tests run.
use astron_claw.Prelude.{
  ℕ, String, Bool, true, false, ◌≡◌, refl, sym, ap, ◌∙◌, Option, none, some, [], ◌∷◌, ltb, eq_iff,
  eq_refl, arith, if◌then◌else◌,
}
use astron_claw.Prelude.Int.{ℤ, ◌+ℤ◌, int_laws}
use astron_claw.Prelude.Dict.{Dict, lookup, insert, remove, lookup-insert, lookup-remove}
use astron_claw.Tokens.{TokenTable, Found, row, not_found}
use astron_claw.Tokens.Laws.{TableLaws, Near, Changed, is_live, or_old}

abbrev found_in : Option ℤ → Found
found_in none = not_found
found_in (some e) = row

abbrev put : String → Option ℤ → Dict ℤ → Dict ℤ
put t none s = remove t s
put t (some e) s = insert t e s

-- the entries whose key passes a test
unfoldable pub keep : (String → Bool) → Dict ℤ → Dict ℤ
keep p [] = []
keep p ((k, e) ∷ s) = let rest = keep p s in if p k then (k, e) ∷ rest else rest

abbrev pub expires_in : Dict ℤ → String → Option ℤ
expires_in s t = lookup t s

abbrev pub tokens : TokenTable
tokens = record {
  State = Dict ℤ;
  insert = λ r s. (true, insert r.token r.expires_at s);
  count_valid = λ t now s. some (if is_live now (lookup t s) then 1 else 0);
  first = λ t s. found_in (lookup t s);
  update = λ t c s. (true, put t (or_old c.expires_at (lookup t s)) s);
  delete = λ t s. (true, remove t s);
  delete_expired = λ now s. (some 0, keep (λ t. is_live now (lookup t s)) s);
}

lookup-put : (t : String) (o : Option ℤ) (s : Dict ℤ) → lookup t (put t o s) ≡ o
lookup-put t none s = rw (lookup-remove, eq_refl) refl
lookup-put t (some e) s = rw (lookup-insert, eq_refl) refl

cong : (p : String → Bool) (k t : String) → k ≡ t → p k ≡ p t
cong p k t e = ap p e

lookup-keep :
    (p : String → Bool) (s : Dict ℤ) (t : String)
    → lookup t (keep p s) ≡ (if p t then lookup t s else none)
unfolding lookup keep
lookup-keep p [] t = ground arith
lookup-keep p ((k, e) ∷ s) t = ground (arith, lookup-keep p s t, eq_iff k t, cong p k t)

counted : (b : Bool) → ltb 0 (if b then 1 else 0) ≡ b
counted true = refl
counted false = refl

abbrev or_zero : Option ℕ → ℕ
or_zero none = 0
or_zero (some n) = n

Near-refl : (e : ℤ) → Near e e
unfolding ◌+ℤ◌
Near-refl e = (omega int_laws, omega int_laws)

put-Changed :
    (t : String) (o : Option ℤ) (s : Dict ℤ)
    → Changed o (lookup t s) (lookup t (put t (or_old o (lookup t s)) s))
put-Changed t none s = lookup-put t (lookup t s) s
put-Changed t (some e) s = (e, lookup-put t (some e) s, Near-refl e)

pub tokens-TableLaws : TableLaws tokens expires_in
tokens-TableLaws = record {
  insert-ok = λ r s e. (r.expires_at, rw (lookup-insert, eq_refl) refl, Near-refl r.expires_at);
  count_valid-ok = λ t now n s e.
      ap (λ (o : Option ℕ). ltb 0 (or_zero o)) (sym e) ∙ counted (is_live now (lookup t s));
  update-ok = λ t c s e. put-Changed t c.expires_at s;
  delete-ok = λ t s e. rw (lookup-remove, eq_refl) refl;
  delete_expired-ok = λ t now n s e. lookup-keep (λ u. is_live now (lookup u s)) s t;
}
