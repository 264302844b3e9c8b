-- ===== src/BotLoad/Batches.antt =====
-- The batches in which the bots are started, run in backend/cmd/botload/main.go. The loop runs
-- on fuel; `ended` tells whether the context is done at the wait after the batch from a place.
use astron_claw.Prelude.{
  ℕ, zero, suc, ◌+◌, ◌-◌, ◌≤◌, ◌<◌, String, Bool, false, ◌&&◌, ◌≡◌, refl, sym, ap, ◌∙◌, Option,
  none, some, List, [], ◌∷◌, ◌++◌, ltb, if◌then◌else◌, arith, length, take, drop, take-append-drop,
  length-take, length-drop, if_by, drop_all, drop-drop, take_all, ++_nil,
}
use astron_claw.Prelude.Int.{ℤ, pos, negsuc, pos_part, ◌≤ℤ◌}
use astron_claw.BotLoad.{Config, Resolved, ready, normalize_config}
use astron_claw.BotLoad.Settings.{normalize_config-IsUsable}

abbrev pub min_ℕ : ℕ → ℕ → ℕ
min_ℕ a b = if ltb a b then a else b

-- tokens[start:end]
abbrev pub slice : List String → ℕ → ℕ → List String
slice xs start end = take (end - start) (drop start xs)

abbrev pub put : List String → Option (List (List String)) → Option (List (List String))
put b none = none
put b (some bs) = some (b ∷ bs)

-- the batches that are started, none if the fuel ends first
unfoldable pub start_batches : ℕ → ℕ → (ℕ → Bool) → List String → ℕ → Option (List (List String))
start_batches zero size ended tokens start = none
start_batches (suc fuel) size ended tokens start =
    let rest = start_batches fuel size ended tokens (start + size) in
    let end = min_ℕ (start + size) (length tokens) in
    let batch = slice tokens start end in
    if ltb start (length tokens)
    then if ltb end (length tokens) && ended end then some (batch ∷ []) else put batch rest
    else some []

-- run(ctx, cfg, tokens[:cfg.Target]), for settings that are usable
unfoldable pub run_batches : ℕ → (ℕ → Bool) → Config → List String → Option (List (List String))
unfolding start_batches
run_batches fuel ended c tokens =
    start_batches fuel (pos_part c.batch_size) ended (take (pos_part c.target) tokens) 0

abbrev pub concat : List (List String) → List String
concat [] = []
concat (b ∷ bs) = b ++ concat bs

-- every batch has a token, and no more than the size
unfoldable pub AllSized : ℕ → List (List String) → Type 0
AllSized size [] = Unit
AllSized size (b ∷ bs) = (0 < length b) × (length b ≤ size) × AllSized size bs

slice-drop :
    (xs : List String) (start size : ℕ)
    → start < length xs
    → slice xs start (min_ℕ (start + size) (length xs)) ++ drop (start + size) xs ≡ drop start xs
slice-drop xs start size h =
    if_by (λ end. slice xs start end ++ drop (start + size) xs ≡ drop start xs)
      (ltb (start + size) (length xs)) (start + size) (length xs)
      (λ below.
        ap (λ n. take n (drop start xs) ++ drop (start + size) xs) (omega arith)
        ∙ ap (λ ys. take size (drop start xs) ++ ys) (sym (drop-drop start size xs))
        ∙ take-append-drop size (drop start xs))
      (λ past.
        ap (λ ys. slice xs start (length xs) ++ ys) (drop_all (start + size) xs (ground arith))
        ∙ ++_nil (slice xs start (length xs))
        ∙ take_all (length xs - start) (drop start xs) (omega (arith, length-drop start xs)))

slice-Sized :
    (xs : List String) (start size : ℕ)
    → start < length xs
    → 0 < size
    → (0 < length (slice xs start (min_ℕ (start + size) (length xs))))
      × (length (slice xs start (min_ℕ (start + size) (length xs))) ≤ size)
slice-Sized xs start size h p =
    let end = min_ℕ (start + size) (length xs) in
    let e = length-take (end - start) (drop start xs) in
    let d = length-drop start xs in (ground (arith, e, d), ground (arith, e, d))

-- the batches from a place on
abbrev From : ℕ → List String → Option (List (List String)) → Type 0
From size rest r = (bs : List (List String)) × (r ≡ some bs) × (concat bs ≡ rest) × AllSized size bs

From-put :
    (size : ℕ) (b rest all : List String) (r : Option (List (List String)))
    → (0 < length b) × (length b ≤ size)
    → b ++ rest ≡ all
    → From size rest r
    → From size all (put b r)
unfolding AllSized
From-put size b rest all r (some_b, few) e (bs, got, whole, sized) =
    (b ∷ bs, ap (put b) got, ap (λ ts. b ++ ts) whole ∙ e, (some_b, few, sized))

batches-From :
    (fuel size : ℕ) (ended : ℕ → Bool) (tokens : List String) (start : ℕ)
    → 0 < size
    → 0 < fuel
    → length tokens < start + fuel
    → ((n : ℕ) → ended n ≡ false)
    → From size (drop start tokens) (start_batches fuel size ended tokens start)
unfolding start_batches AllSized
batches-From zero size ended tokens start p some_fuel enough never = elim some_fuel [ ]
batches-From (suc fuel) size ended tokens start p some_fuel enough never =
    let end = min_ℕ (start + size) (length tokens) in
    if_by (From size (drop start tokens)) (ltb start (length tokens)) _ _
      (λ inside.
        if_by (From size (drop start tokens)) (ltb end (length tokens) && ended end) _ _
          (λ stopped. absurd (ground (arith, never end)))
          (λ goes_on.
            From-put size _ (drop (start + size) tokens) _ _
              (slice-Sized tokens start size (ground arith) p)
              (slice-drop tokens start size (ground arith))
              (batches-From fuel size ended tokens (start + size) p (ground arith) (ground arith)
                never)))
      (λ over. ([], refl, sym (drop_all start tokens (ground arith)), tt))

positive : (t : ℤ) → pos 1 ≤ℤ t → 0 < pos_part t
positive t h = omega arith

at_most : (t : ℤ) (n : ℕ) → t ≤ℤ pos n → pos_part t ≤ n
at_most (pos t) n h = omega arith
at_most (negsuc t) n h = omega arith

-- Settings that normalizeConfig accepts let the run end: with one unit of fuel more than there
-- are tokens, and a context that is not done in between, it has started batches that together
-- are the first tokens of the file, as many as the target, in order, each batch with at least
-- one token and at most the batch size.
pub run_batches-ends :
    (resolve : String → Resolved) (c c' : Config) (tokens : List String) (ended : ℕ → Bool)
    → normalize_config resolve c (length tokens) ≡ ready c'
    → ((n : ℕ) → ended n ≡ false)
    → (bs : List (List String)) × (run_batches (suc (length tokens)) ended c' tokens ≡ some bs)
      × (concat bs ≡ take (pos_part c'.target) tokens)
      × (length (concat bs) ≡ pos_part c'.target)
      × AllSized (pos_part c'.batch_size) bs
unfolding run_batches
run_batches-ends resolve c c' tokens ended accepted never =
    let usable = normalize_config-IsUsable resolve c c' (length tokens) accepted in
    let n = length-take (pos_part c'.target) tokens in
    let (bs, got, whole, sized) =
      batches-From (suc (length tokens)) (pos_part c'.batch_size) ended
        (take (pos_part c'.target) tokens) 0 (positive c'.batch_size usable.2) (omega arith)
        (ground (arith, n)) never in
    (
      bs,
      got,
      whole,
      ap length whole ∙ n ∙ ground (arith, at_most c'.target (length tokens) usable.1),
      sized,
    )
