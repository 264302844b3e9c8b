-- ===== src/Redis/Laws.antt =====
-- What the code relies on in Redis: the effect of each command on what other commands read.
-- A command touches its own key only; its effect is known when the reply is no error.
use astron_claw.Prelude.{
  ℕ, String, ◌≡◌, ◌≢◌, Bool, true, false, ◌&&◌, ◌||◌, not, Option, none, some, List, [], ◌∷◌,
  if◌then◌else◌, str_eq,
}
use astron_claw.Prelude.Int.{ℤ, pos, ◌+ℤ◌, ltb_ℤ}
use astron_claw.Prelude.Dict.{lookup}
use astron_claw.ParseInt.{parse_int}
use astron_claw.Redis.{Redis, ok, nil, Bound, neg_inf, pos_inf, incl, excl}

abbrev pub elem : String → List String → Bool
elem t [] = false
elem t (x ∷ xs) = str_eq t x || elem t xs

abbrev pub above : Bound → ℤ → Bool
above neg_inf x = true
above pos_inf x = false
above (incl b) x = not (ltb_ℤ x b)
above (excl b) x = ltb_ℤ b x

abbrev pub below : Bound → ℤ → Bool
below neg_inf x = false
below pos_inf x = true
below (incl b) x = not (ltb_ℤ b x)
below (excl b) x = ltb_ℤ x b

abbrev pub in_range : Bound → Bound → Option ℤ → Bool
in_range lo hi none = false
in_range lo hi (some x) = above lo x && below hi x

abbrev pub scored : Option ℤ → Option ℤ → Option ℤ
scored none old = old
scored (some x) old = some x

-- The state of a server as reads show it: texts, scores of sorted sets and members of sets.
pub record View (S : Type 0) : Type 0 where
  pub text : S → String → Option String
  pub score : S → String → String → Option ℤ
  pub member : S → String → String → Bool

-- Two states agree at a key.
pub record Same {S : Type 0} (V : View S) (s t : S) (k : String) : Type 0 where
  pub text : V.text t k ≡ V.text s k
  pub score : (m : String) → V.score t k m ≡ V.score s k m
  pub member : (m : String) → V.member t k m ≡ V.member s k m

pub record RedisLaws (R : Redis) (V : View R.Server) : Type 0 where
  -- reads change nothing
  pub get-same : (k j : String) (s : R.Server) → Same V s (R.get k s).1 j
  pub exists-same : (k j : String) (s : R.Server) → Same V s (R.exists k s).1 j
  pub zscore-same : (k m j : String) (s : R.Server) → Same V s (R.zscore k m s).1 j
  pub zrange-same :
      (k : String) (lo hi : Bound) (j : String) (s : R.Server)
      → Same V s (R.zrange_by_score k lo hi s).1 j
  pub smembers-same : (k j : String) (s : R.Server) → Same V s (R.smembers k s).1 j
  -- writes leave other keys alone
  pub set-frame : (k v j : String) (s : R.Server) → k ≢ j → Same V s (R.set k v s).1 j
  pub del-frame : (k j : String) (s : R.Server) → k ≢ j → Same V s (R.del k s).1 j
  pub incr-frame : (k j : String) (s : R.Server) → k ≢ j → Same V s (R.incr k s).1 j
  pub zadd-frame :
      (k : String) (ms : List (String × ℤ)) (j : String) (s : R.Server)
      → k ≢ j
      → Same V s (R.zadd k ms s).1 j
  pub zrem-frame : (k m j : String) (s : R.Server) → k ≢ j → Same V s (R.zrem k m s).1 j
  pub zrem_range-frame :
      (k : String) (lo hi : Bound) (j : String) (s : R.Server)
      → k ≢ j
      → Same V s (R.zrem_range_by_score k lo hi s).1 j
  pub xadd-frame : (k v j : String) (s : R.Server) → k ≢ j → Same V s (R.xadd k v s).1 j
  -- what a successful command does at its key
  pub get-ok : (k v : String) (s : R.Server) → (R.get k s).0 ≡ ok v → V.text s k ≡ some v
  pub get-nil : (k : String) (s : R.Server) → (R.get k s).0 ≡ nil → V.text s k ≡ none
  pub set-ok :
      (k v : String) (s : R.Server) → (R.set k v s).0 ≡ ok tt → V.text (R.set k v s).1 k ≡ some v
  pub del-ok :
      (k : String) (n : ℕ) (s : R.Server) → (R.del k s).0 ≡ ok n → V.text (R.del k s).1 k ≡ none
  pub incr-ok :
      (k : String) (n : ℤ) (s : R.Server)
      → (R.incr k s).0 ≡ ok n
      → (v : String) × (V.text (R.incr k s).1 k ≡ some v) × (parse_int v ≡ some n)
  pub incr-next :
      (k u : String) (m n : ℤ) (s : R.Server)
      → (R.incr k s).0 ≡ ok n
      → V.text s k ≡ some u
      → parse_int u ≡ some m
      → n ≡ m +ℤ pos 1
  pub incr-first :
      (k : String) (n : ℤ) (s : R.Server) → (R.incr k s).0 ≡ ok n → V.text s k ≡ none → n ≡ pos 1
  pub zadd-ok :
      (k : String) (ms : List (String × ℤ)) (n : ℕ) (m : String) (s : R.Server)
      → (R.zadd k ms s).0 ≡ ok n
      → V.score (R.zadd k ms s).1 k m ≡ scored (lookup m ms) (V.score s k m)
  pub zrem-ok :
      (k m : String) (n : ℕ) (j : String) (s : R.Server)
      → (R.zrem k m s).0 ≡ ok n
      → V.score (R.zrem k m s).1 k j ≡ (if str_eq m j then none else V.score s k j)
  pub zscore-ok :
      (k m : String) (x : ℤ) (s : R.Server) → (R.zscore k m s).0 ≡ ok x → V.score s k m ≡ some x
  pub zscore-nil : (k m : String) (s : R.Server) → (R.zscore k m s).0 ≡ nil → V.score s k m ≡ none
  pub zrange-ok :
      (k : String) (lo hi : Bound) (out : List String) (m : String) (s : R.Server)
      → (R.zrange_by_score k lo hi s).0 ≡ ok out
      → elem m out ≡ in_range lo hi (V.score s k m)
  pub zrem_range-ok :
      (k : String) (lo hi : Bound) (n : ℕ) (m : String) (s : R.Server)
      → (R.zrem_range_by_score k lo hi s).0 ≡ ok n
      → V.score (R.zrem_range_by_score k lo hi s).1 k m
        ≡ (if in_range lo hi (V.score s k m) then none else V.score s k m)
