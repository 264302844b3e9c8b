-- ===== src/Keys.antt =====
-- The Redis key names of backend/internal/service/bridge.go: constant prefixes, and what is
-- appended to them.
use Prim.Native.Char.{Char, code}
use Prim.Native.String.{String, ◌++◌}
use text.Mathlib.TextLemmas.{
  cons-append, append-nil, head-eq_of_cons-eq, tail-eq_of_cons-eq, append_cancel_left,
}
use astron_claw.Prelude.{
  ◌≡◌, ◌≢◌, refl, sym, ◌∙◌, ap, Bool, true, false, arith, ◌==◌, if◌then◌else◌,
}

-- The texts differ at some place before either ends.
unfoldable pub diverge : String → String → Bool
diverge String.[] q = false
diverge (String.◌∷◌ c p) String.[] = false
diverge (String.◌∷◌ c p) (String.◌∷◌ d q) =
    let rest = diverge p q in if code c == code d then rest else true

diverge_step :
    (c d : Char) (p q : String)
    → diverge (String.◌∷◌ c p) (String.◌∷◌ d q) ≡ true
    → c ≡ d
    → diverge p q ≡ true
unfolding diverge
diverge_step c d p q h e = ground (arith, ap code e)

-- What diverges stays different whatever is appended.
pub append-ne_of_diverge : (p q s t : String) → diverge p q ≡ true → p ++ s ≢ q ++ t
unfolding diverge
append-ne_of_diverge String.[] q s t h = λ e. cc
append-ne_of_diverge (String.◌∷◌ c p) String.[] s t h = λ e. cc
append-ne_of_diverge (String.◌∷◌ c p) (String.◌∷◌ d q) s t h = λ e.
    let e' = sym (cons-append c p s) ∙ e ∙ cons-append d q t in
    append-ne_of_diverge p q s t (diverge_step c d p q h (head-eq_of_cons-eq e'))
      (tail-eq_of_cons-eq e')

unfoldable pub bot_alive_key : String
bot_alive_key = "bridge:bot_alive"

unfoldable pub bot_gen_key : String → String
bot_gen_key token = "bridge:bot_gen:" ++ token

unfoldable pub bot_owner_key : String → String
bot_owner_key token = "bridge:bot_owner:" ++ token

-- Keys of different families differ, whatever the tokens are.
pub gen-ne-owner : (s t : String) → bot_gen_key s ≢ bot_owner_key t
unfolding bot_gen_key bot_owner_key diverge
gen-ne-owner s t = append-ne_of_diverge "bridge:bot_gen:" "bridge:bot_owner:" s t refl

pub owner-ne-gen : (s t : String) → bot_owner_key s ≢ bot_gen_key t
owner-ne-gen s t = λ e. gen-ne-owner t s (sym e)

pub alive-ne-gen : (t : String) → bot_alive_key ≢ bot_gen_key t
unfolding bot_gen_key bot_alive_key diverge
alive-ne-gen t =
    rw (← append-nil "bridge:bot_alive")
      (append-ne_of_diverge "bridge:bot_alive" "bridge:bot_gen:" "" t refl)

pub alive-ne-owner : (t : String) → bot_alive_key ≢ bot_owner_key t
unfolding bot_owner_key bot_alive_key diverge
alive-ne-owner t =
    rw (← append-nil "bridge:bot_alive")
      (append-ne_of_diverge "bridge:bot_alive" "bridge:bot_owner:" "" t refl)

pub gen-ne-alive : (t : String) → bot_gen_key t ≢ bot_alive_key
gen-ne-alive t = λ e. alive-ne-gen t (sym e)

pub owner-ne-alive : (t : String) → bot_owner_key t ≢ bot_alive_key
owner-ne-alive t = λ e. alive-ne-owner t (sym e)

-- Within a family the token is read off the key.
pub gen_key-injective : (s t : String) → bot_gen_key s ≡ bot_gen_key t → s ≡ t
unfolding bot_gen_key
gen_key-injective s t e = append_cancel_left "bridge:bot_gen:" s t e

pub owner_key-injective : (s t : String) → bot_owner_key s ≡ bot_owner_key t → s ≡ t
unfolding bot_owner_key
owner_key-injective s t e = append_cancel_left "bridge:bot_owner:" s t e
