-- ===== src/Paging.antt =====
-- The pages of the administrator's list of tokens, backend/internal/router/admin.go. The query
-- of the tokens, the online map and sort.Slice are parameters. Times are kept as integers.
pub mod Pages
use astron_claw.Prelude.{
  ℕ, String, Bool, true, false, not, ◌&&◌, ◌||◌, ◌+◌, ◌-◌, Option, none, some, List, [], ◌∷◌,
  length, take, drop, str_eq, if◌then◌else◌,
}
use astron_claw.Prelude.Int.{ℤ, pos, negsuc, pos_part, ◌+ℤ◌, ◌-ℤ◌, ◌*ℤ◌, ltb_ℤ, wrap_int64}

pub record TokenInfo : Type 0 where
  pub token : String
  pub name : String
  pub created_at : ℤ
  pub expires_at : ℤ
  pub bot_online : Bool

abbrev pub clamp_page : ℤ → ℤ
clamp_page page = if ltb_ℤ page (pos 1) then pos 1 else page

abbrev pub clamp_size : ℤ → ℤ
clamp_size size =
    let size' = if ltb_ℤ size (pos 1) then pos 20 else size in
    if ltb_ℤ (pos 100) size' then pos 100 else size'

-- the tokens whose bot is online
unfoldable pub only_online : List TokenInfo → List TokenInfo
only_online [] = []
only_online (t ∷ ts) = let rest = only_online ts in if t.bot_online then t ∷ rest else rest

unfoldable pub by_status : String → List TokenInfo → List TokenInfo
unfolding only_online
by_status status ts = if str_eq status "online" then only_online ts else ts

-- the order of the list: by status, and then by age
unfoldable pub less : Bool → TokenInfo → TokenInfo → Bool
less true a b =
    if a.bot_online && not b.bot_online || not a.bot_online && b.bot_online
    then a.bot_online
    else ltb_ℤ b.created_at a.created_at
less false a b =
    if a.bot_online && not b.bot_online || not a.bot_online && b.bot_online
    then b.bot_online
    else ltb_ℤ a.created_at b.created_at

abbrev pub at_most : ℤ → ℤ → ℤ
at_most bound x = if ltb_ℤ bound x then bound else x

-- filtered[offset:end], none for a panic
unfoldable pub slice_of : ℤ → ℤ → List TokenInfo → Option (List TokenInfo)
slice_of offset end ts =
    if ltb_ℤ offset (pos 0) || ltb_ℤ end offset
    then none
    else some (take (pos_part end - pos_part offset) (drop (pos_part offset) ts))

unfoldable pub offset_of : ℤ → ℤ → ℤ
offset_of page size = wrap_int64 (wrap_int64 (page -ℤ pos 1) *ℤ size)

-- the page of the sorted list, none for a panic
unfoldable pub page_slice : ℤ → ℤ → List TokenInfo → Option (List TokenInfo)
unfolding slice_of
page_slice page size ts =
    let total = pos (length ts) in
    let offset = offset_of page size in
    slice_of (at_most total offset) (at_most total (wrap_int64 (offset +ℤ size))) ts

-- listTokensWithBotSort on the tokens of the query: the page, none for a panic, the
-- total, and the number of tokens whose bot is online
module _ (sort : (TokenInfo → TokenInfo → Bool) → List TokenInfo → List TokenInfo) where
  unfoldable pub list_with_bot_sort :
      ℤ → ℤ → String → String → List TokenInfo → Option (List TokenInfo) × ℕ × ℕ
  unfolding page_slice less by_status only_online
  list_with_bot_sort page size order status all =
      let sorted = sort (less (str_eq order "desc")) (by_status status all) in
      (page_slice page size sorted, length sorted, length (only_online all))
