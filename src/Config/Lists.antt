-- ===== src/Config/Lists.antt =====
-- Lists in settings: what is joined by commas is read back.
use Prim.Native.Char.{code}
use Prim.Native.String.{String, ◌++◌}
use text.Mathlib.TextLemmas.{cons-append, nil-append}
use astron_claw.Prelude.{
  ◌≡◌, refl, ap, ◌∙◌, Bool, true, not, ◌&&◌, List, [], ◌∷◌, arith, ◌==◌, str_eq, eq_iff,
}
use astron_claw.Text.{trim_space, split_at}
use astron_claw.Config.{trimmed_parts, split_csv}

-- strings.Join by a comma
unfoldable pub join : List String → String
join [] = ""
join (x ∷ []) = x
join (x ∷ (y ∷ ys)) = x ++ ("," ++ join (y ∷ ys))

unfoldable pub no_comma : String → Bool
no_comma String.[] = true
no_comma (String.◌∷◌ c s) = not (code c == b',') && no_comma s

abbrev pub is_item : String → Bool
is_item s = no_comma s && (str_eq (trim_space s) s && not (str_eq s ""))

abbrev pub all_items : List String → Bool
all_items [] = true
all_items (x ∷ xs) = is_item x && all_items xs

split_at-last : (s : String) → no_comma s ≡ true → split_at b',' s ≡ s ∷ []
unfolding split_at no_comma
split_at-last String.[] h = refl
split_at-last (String.◌∷◌ c s) h = let ih = split_at-last s (ground arith) in rw ih (ground arith)

split_at-item :
    (s t : String) → no_comma s ≡ true → split_at b',' (s ++ ("," ++ t)) ≡ s ∷ split_at b',' t
unfolding split_at no_comma
split_at-item String.[] t h = rw (nil-append ("," ++ t), cons-append "," "" t, nil-append t) refl
split_at-item (String.◌∷◌ c s) t h =
    let ih = split_at-item s t (ground arith) in rw (cons-append c s ("," ++ t), ih) (ground arith)

parts-item :
    (x : String) (ps : List String)
    → is_item x ≡ true
    → trimmed_parts (x ∷ ps) ≡ x ∷ trimmed_parts ps
unfolding trimmed_parts
parts-item x ps h = ground (arith, eq_iff (trim_space x) x, eq_iff x "", eq_iff (trim_space x) "")

parts-join : (xs : List String) → all_items xs ≡ true → trimmed_parts (split_at b',' (join xs)) ≡ xs
unfolding join trimmed_parts split_at trim_space
parts-join [] h = refl
parts-join (x ∷ []) h =
    ap trimmed_parts (split_at-last x (ground arith)) ∙ parts-item x [] (ground arith) ∙ refl
parts-join (x ∷ (y ∷ ys)) h =
    ap trimmed_parts (split_at-item x (join (y ∷ ys)) (ground arith))
    ∙ parts-item x (split_at b',' (join (y ∷ ys))) (ground arith)
    ∙ ap (λ zs. x ∷ zs) (parts-join (y ∷ ys) (ground arith))

pub split_csv-join : (xs : List String) → all_items xs ≡ true → split_csv (join xs) ≡ xs
unfolding split_csv
split_csv-join xs h = parts-join xs h
