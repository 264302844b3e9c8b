-- ===== src/Redis/Memory.antt =====
-- A concrete server in memory: the instance at which tests run.
pub mod Lawful
use Prim.Native.String.{String, ◌++◌}
use astron_claw.Prelude.{
  ℕ, zero, suc, ◌+◌, ◌/◌, ◌%◌, ◌≡◌, ◌≢◌, refl, ◌∙◌, ap, Bool, true, false, ◌&&◌, not, Option, none,
  some, List, [], ◌∷◌, arith, ltb, ◌==◌, if◌then◌else◌, str_eq, eq_iff, str_eq_ne, eq_refl,
}
use astron_claw.Prelude.Int.{ℤ, pos, negsuc, ◌+ℤ◌, ltb_ℤ, eq_of_parts}
use astron_claw.Prelude.Dict.{Dict, lookup, insert, remove, lookup-insert, lookup-remove}
use astron_claw.ParseInt.{parse_int}
use astron_claw.Redis.{Redis, Reply, ok, nil, failed, Bound, Call}
use astron_claw.Redis.Laws.{View, Same, RedisLaws, elem, in_range, scored}

pub record Memory : Type 0 where
  pub texts : Dict String
  pub zsets : Dict (Dict ℤ)
  pub sets : Dict (List String)

abbrev pub empty : Memory
empty = record { texts = []; zsets = []; sets = [] }

abbrev or_nil {ℓ} : {A : Type ℓ} → Option (List A) → List A
or_nil none = []
or_nil (some l) = l

abbrev zset : Memory → String → Dict ℤ
zset s k = or_nil (lookup k s.zsets)

abbrev members : Memory → String → List String
members s k = or_nil (lookup k s.sets)

abbrev pub view : View Memory
view = record {
  text = λ s k. lookup k s.texts;
  score = λ s k m. lookup m (zset s k);
  member = λ s k m. elem m (members s k);
}

digit : ℕ → String
digit d =
    if d == 0
    then "0"
    else if d == 1
    then "1"
    else if d == 2
    then "2"
    else if d == 3
    then "3"
    else if d == 4
    then "4"
    else if d == 5
    then "5"
    else if d == 6
    then "6"
    else if d == 7
    then "7"
    else if d == 8
    then "8"
    else "9"

print : ℕ → ℕ → String
unfolding digit
print zero n = ""
print (suc fuel) n =
    let front = print fuel (n / 10) in if ltb n 10 then digit n else front ++ digit (n % 10)

unfoldable pub print_ℤ : ℤ → String
unfolding print
print_ℤ (pos n) = print 20 n
print_ℤ (negsuc n) = "-" ++ print 20 (n + 1)

abbrev same_int : ℤ → Option ℤ → Bool
same_int a none = false
same_int a (some b) = not (ltb_ℤ a b) && not (ltb_ℤ b a)

abbrev missing {ℓ} : {A : Type ℓ} → Option A → Bool
missing none = true
missing (some a) = false

abbrev pub or_nil_reply : {A : Type 0} → Option A → Reply A
or_nil_reply none = nil
or_nil_reply (some a) = ok a

abbrev put_text : String → String → Memory → Memory
put_text k v s = record s { texts = insert k v s.texts }

-- INCR reads a missing key as `0`.
unfoldable pub old_value : Option String → Option ℤ
old_value none = some (pos 0)
old_value (some v) = parse_int v

unfoldable pub bump_store : Bool → String → ℤ → String → Call Memory ℤ
bump_store true k n v s = (ok n, put_text k v s)
bump_store false k n v s = (failed "ERR increment or decrement would overflow", s)

unfoldable pub bump : String → Option ℤ → Call Memory ℤ
unfolding bump_store
bump k none s = (failed "ERR value is not an integer or out of range", s)
bump k (some m) s =
    let n = m +ℤ pos 1 in let v = print_ℤ n in bump_store (same_int n (parse_int v)) k n v s

unfoldable pub zadd_all : List (String × ℤ) → Dict ℤ → Dict ℤ
zadd_all [] d = d
zadd_all ((m, x) ∷ ms) d = insert m x (zadd_all ms d)

unfoldable pub keys_in : Bound → Bound → Dict ℤ → Dict ℤ → List String
keys_in lo hi d [] = []
keys_in lo hi d ((m, x) ∷ ms) =
    let rest = keys_in lo hi d ms in if in_range lo hi (lookup m d) then m ∷ rest else rest

unfoldable pub remove_all : List String → Dict ℤ → Dict ℤ
remove_all [] d = d
remove_all (m ∷ ms) d = remove m (remove_all ms d)

unfoldable pub without : String → List String → List String
without m [] = []
without m (x ∷ xs) = let rest = without m xs in if str_eq m x then rest else x ∷ rest

abbrev put_zset : String → Dict ℤ → Memory → Memory
put_zset k d s = record s { zsets = insert k d s.zsets }

-- The replies that no law speaks of are constants.
unfoldable pub program : Unit {0}
unfolding print_ℤ old_value bump zadd_all keys_in remove_all without parse_int lookup insert remove
program = tt

abbrev pub memory : Redis
memory = record {
  Server = Memory;
  get = λ k s. (or_nil_reply (lookup k s.texts), s);
  set = λ k v s. (ok tt, put_text k v s);
  set_ex = λ k v ttl s. (ok tt, put_text k v s);
  set_nx = λ k v ttl s. (ok 1, put_text k v s);
  del = λ k s.
      (ok 1, record { texts = remove k s.texts; zsets = remove k s.zsets; sets = remove k s.sets });
  incr = λ k s. bump k (old_value (lookup k s.texts)) s;
  exists = λ k s. (ok 1, s);
  zadd = λ k ms s. (ok 1, put_zset k (zadd_all ms (zset s k)) s);
  zrem = λ k m s. (ok 1, put_zset k (remove m (zset s k)) s);
  zscore = λ k m s. (or_nil_reply (lookup m (zset s k)), s);
  zrange_by_score = λ k lo hi s. (ok (keys_in lo hi (zset s k) (zset s k)), s);
  zrem_range_by_score = λ k lo hi s.
      (ok 1, put_zset k (remove_all (keys_in lo hi (zset s k) (zset s k)) (zset s k)) s);
  zcount = λ k lo hi s. (ok 0, s);
  sadd = λ k m s. (ok 1, record s { sets = insert k (m ∷ without m (members s k)) s.sets });
  srem = λ k m s. (ok 1, record s { sets = insert k (without m (members s k)) s.sets });
  smembers = λ k s. (ok (members s k), s);
  extend_lock = λ k o ttl s. (ok 1, s);
  release_lock = λ k o s. (ok 1, s);
  xadd = λ k v s. (ok "0-1", s);
}
