-- ===== src/Tests/Accounts.antt =====
-- The witnesses on tokens.
use astron_claw.Prelude.{
  String, false, ◌||◌, if◌then◌else◌, ◌≡◌, refl, none, some, [], ◌∷◌, ◌*◌, take, drop, arith,
}
use astron_claw.Prelude.Int.{ℤ, pos}
use astron_claw.Prelude.Dict.{Dict, lookup}
use astron_claw.Redis.Memory.{memory, view, empty, program}
use astron_claw.Redis.Memory.Lawful.{memory_laws}
use astron_claw.Tokens.{generate, validate, remove, token_auth_key}
use astron_claw.Tokens.Expiry.{generate-overflow}
use astron_claw.Tokens.Memory.{tokens, expires_in, tokens-TableLaws}
use astron_claw.Paging.{TokenInfo, page_slice}
use astron_claw.Paging.Pages.{page_slice-items, page_slice-panics}
use astron_claw.TokenAuth.{
  Headers, passes, unauthorized, is_protected, token_of, token_auth, admin_delete_token,
  invalidate_token_cache,
}
use astron_claw.TokenAuth.Guard.{admin_delete_token-refused}
use astron_claw.TokenAuth.Carried.{token_auth-carried, is_one, in_authorization, bearer}
use astron_claw.Tokens.Laws.{is_live}
use astron_claw.Text.{trim_space, trim_left, trim_right, is_space}
use astron_claw.Tests.Common.{memory-Reachable}

generate-overflow_example :
    validate tokens "sk-0a" (pos 5) (generate tokens (some "0a") "n" (pos 10000000000) (pos 5) []).1
    ≡ false
unfolding generate
generate-overflow_example =
    generate-overflow tokens expires_in tokens-TableLaws "0a" "n" 10000000000 (pos 5) []
      (omega arith) (omega arith) refl

abbrev headers : Headers
headers = record { path = "/bridge/chat"; api_key = ""; authorization = "Bearer sk-0a" }

abbrev stored : Dict ℤ
stored = ("sk-0a", pos 9) ∷ []

trimmed : trim_space "sk-0a" ≡ "sk-0a"
unfolding trim_space trim_left trim_right is_space
trimmed = refl

token_auth-carried_example : (token_auth tokens memory headers (pos 5) stored empty).0 ≡ (
    if is_one (view.text empty (token_auth_key "sk-0a"))
      || is_live (pos 5) (expires_in stored "sk-0a")
    then passes (some "sk-0a")
    else unauthorized)
unfolding is_protected lookup
token_auth-carried_example =
    token_auth-carried tokens memory view memory_laws expires_in tokens-TableLaws
      memory-Reachable.get "0a" headers (pos 5) stored empty 1 refl
      (in_authorization refl (bearer trimmed)) refl

admin_delete_token-refused_example :
    (token_auth tokens memory headers
      (pos 5)
      (admin_delete_token tokens memory (λ c. c) (token_of headers) (stored, empty)).1.0
      (admin_delete_token tokens memory (λ c. c) (token_of headers) (stored, empty)).1.1).0
    ≡ unauthorized
unfolding is_protected admin_delete_token invalidate_token_cache remove program
admin_delete_token-refused_example =
    admin_delete_token-refused tokens memory view memory_laws expires_in tokens-TableLaws (λ c. c)
      headers (pos 5) stored empty 1 refl refl

abbrev info : String → TokenInfo
info t = record { token = t; name = ""; created_at = pos 1; expires_at = pos 2; bot_online = false }

page_slice-items_example :
    page_slice (pos 2) (pos 1) (info "a" ∷ info "b" ∷ [])
    ≡ some (take 1 (drop (1 * 1) (info "a" ∷ info "b" ∷ [])))
page_slice-items_example =
    page_slice-items 1 1 (info "a" ∷ info "b" ∷ []) (omega arith) (omega arith)

page_slice-panics_example : page_slice (pos 9223372036854775807) (pos 20) (info "a" ∷ []) ≡ none
page_slice-panics_example = page_slice-panics 10 (info "a" ∷ []) (omega arith) (omega arith)
