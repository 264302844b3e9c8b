-- ===== src/Redis/Memory/Lawful.antt =====
-- The server in memory meets the laws of Redis/Laws.
use Prim.Native.String.{String}
use astron_claw.Prelude.{
  ◌≡◌, ◌≢◌, refl, ◌∙◌, ap, Bool, true, false, ◌&&◌, not, Option, none, some, List, [], ◌∷◌, arith,
  if◌then◌else◌, eq_iff, str_eq_ne, eq_refl,
}
use astron_claw.Prelude.Int.{ℤ, pos, ◌+ℤ◌, eq_of_parts}
use astron_claw.Prelude.Dict.{Dict, lookup, lookup-insert, lookup-remove}
use astron_claw.ParseInt.{parse_int}
use astron_claw.Redis.{Reply, ok, nil, Bound}
use astron_claw.Redis.Laws.{Same, RedisLaws, elem, in_range, scored}
use astron_claw.Redis.Memory.{
  Memory, zset, view, same_int, missing, or_nil_reply, put_text, old_value, bump_store, bump,
  zadd_all, keys_in, remove_all, put_zset, memory,
}

frame_text : (k v j : String) (s : Memory) → k ≢ j → Same view s (put_text k v s) j
frame_text k v j s h = record {
  text = rw (lookup-insert, str_eq_ne h);
  score = λ m. refl;
  member = λ m. refl;
}

frame_zset :
    (k : String) (d : Dict ℤ) (j : String) (s : Memory) → k ≢ j → Same view s (put_zset k d s) j
frame_zset k d j s h = record {
  text = refl;
  score = λ m. rw (lookup-insert, str_eq_ne h);
  member = λ m. refl;
}

same : (s : Memory) (j : String) → Same view s s j
same s j = record { text = refl; score = λ m. refl; member = λ m. refl }

frame_bump_store :
    (b : Bool) (k : String) (n : ℤ) (v j : String) (s : Memory)
    → k ≢ j
    → Same view s (bump_store b k n v s).1 j
unfolding bump_store
frame_bump_store true k n v j s h = frame_text k v j s h
frame_bump_store false k n v j s h = same s j

frame_bump :
    (k : String) (o : Option ℤ) (j : String) (s : Memory) → k ≢ j → Same view s (bump k o s).1 j
unfolding bump
frame_bump k none j s h = same s j
frame_bump k (some m) j s h = frame_bump_store _ k _ _ j s h

same_int-eq : (a : ℤ) (o : Option ℤ) → same_int a o ≡ true → o ≡ some a
same_int-eq a none h = cc
same_int-eq a (some b) h = ap some (eq_of_parts b a (ground arith))

zset_put : (k : String) (d : Dict ℤ) (s : Memory) → zset (put_zset k d s) k ≡ d
zset_put k d s = rw (lookup-insert, eq_refl)

lookup-zadd_all :
    (ms : List (String × ℤ)) (d : Dict ℤ) (m : String)
    → lookup m (zadd_all ms d) ≡ scored (lookup m ms) (lookup m d)
unfolding zadd_all lookup
lookup-zadd_all [] d m = refl
lookup-zadd_all ((k, x) ∷ ms) d m =
    ground (arith, lookup-insert k m x (zadd_all ms d), lookup-zadd_all ms d m, eq_iff k m)

lookup-remove_all :
    (ms : List String) (d : Dict ℤ) (m : String)
    → lookup m (remove_all ms d) ≡ (if elem m ms then none else lookup m d)
unfolding remove_all
lookup-remove_all [] d m = refl
lookup-remove_all (k ∷ ms) d m =
    ground
      (arith, lookup-remove k m (remove_all ms d), lookup-remove_all ms d m, eq_iff k m, eq_iff m k)

-- the entries of `e` whose key passes a test
keys_such : (String → Bool) → Dict ℤ → List String
keys_such p [] = []
keys_such p ((m, x) ∷ ms) = let rest = keys_such p ms in if p m then m ∷ rest else rest

keys_in-such :
    (lo hi : Bound) (d e : Dict ℤ)
    → keys_in lo hi d e ≡ keys_such (λ m. in_range lo hi (lookup m d)) e
unfolding keys_in keys_such
keys_in-such lo hi d [] = refl
keys_in-such lo hi d ((m, x) ∷ e) = rw (keys_in-such lo hi d e)

cong : (p : String → Bool) (k m : String) → k ≡ m → p k ≡ p m
cong p k m e = ap p e

elem-keys_such :
    (p : String → Bool) (e : Dict ℤ) (m : String)
    → elem m (keys_such p e) ≡ p m && not (missing (lookup m e))
unfolding keys_such lookup
elem-keys_such p [] m = ground arith
elem-keys_such p ((k, x) ∷ e) m =
    ground (arith, elem-keys_such p e m, eq_iff m k, eq_iff k m, cong p k m)

in_range-found :
    (lo hi : Bound) (o : Option ℤ) → in_range lo hi o && not (missing o) ≡ in_range lo hi o
in_range-found lo hi none = refl
in_range-found lo hi (some x) = ground arith

elem-keys_in :
    (lo hi : Bound) (d : Dict ℤ) (m : String)
    → elem m (keys_in lo hi d d) ≡ in_range lo hi (lookup m d)
elem-keys_in lo hi d m =
    ap (elem m) (keys_in-such lo hi d d)
    ∙ elem-keys_such (λ k. in_range lo hi (lookup k d)) d m
    ∙ in_range-found lo hi (lookup m d)

bump_store-ok :
    (b : Bool) (k : String) (m : ℤ) (v : String) (n : ℤ) (s : Memory)
    → (b ≡ true → parse_int v ≡ some m)
    → (bump_store b k m v s).0 ≡ ok n
    → (u : String) × (lookup k (bump_store b k m v s).1.texts ≡ some u) × (parse_int u ≡ some n)
unfolding bump_store
bump_store-ok true k m v n s stored h =
    (v, rw (lookup-insert, eq_refl), ground (arith, stored refl))
bump_store-ok false k m v n s stored h = cc

bump-ok :
    (k : String) (o : Option ℤ) (n : ℤ) (s : Memory)
    → (bump k o s).0 ≡ ok n
    → (v : String) × (lookup k (bump k o s).1.texts ≡ some v) × (parse_int v ≡ some n)
unfolding bump
bump-ok k none n s h = cc
bump-ok k (some m) n s h = bump_store-ok _ k (m +ℤ pos 1) _ n s (same_int-eq _ _) h

bump_store-value :
    (b : Bool) (k : String) (m : ℤ) (v : String) (n : ℤ) (s : Memory)
    → (bump_store b k m v s).0 ≡ ok n
    → n ≡ m
unfolding bump_store
bump_store-value true k m v n s h = cc
bump_store-value false k m v n s h = cc

bump-next : (k : String) (m n : ℤ) (s : Memory) → (bump k (some m) s).0 ≡ ok n → n ≡ m +ℤ pos 1
unfolding bump
bump-next k m n s h = bump_store-value _ k (m +ℤ pos 1) _ n s h

bump-next_text :
    (k u : String) (m n : ℤ) (s : Memory)
    → (bump k (old_value (lookup k s.texts)) s).0 ≡ ok n
    → lookup k s.texts ≡ some u
    → parse_int u ≡ some m
    → n ≡ m +ℤ pos 1
unfolding old_value
bump-next_text k u m n s h e p =
    let old : old_value (lookup k s.texts) ≡ some m = rw e p in bump-next k m n s (rw old at h)

bump-first_text :
    (k : String) (n : ℤ) (s : Memory)
    → (bump k (old_value (lookup k s.texts)) s).0 ≡ ok n
    → lookup k s.texts ≡ none
    → n ≡ pos 1
unfolding old_value ◌+ℤ◌
bump-first_text k n s h e =
    let old : old_value (lookup k s.texts) ≡ some (pos 0) = rw e refl in
    bump-next k (pos 0) n s (rw old at h)

or_nil_reply-ok : {A : Type 0} (o : Option A) {a : A} → or_nil_reply o ≡ ok a → o ≡ some a
or_nil_reply-ok none h = cc
or_nil_reply-ok (some a) h = cc

or_nil_reply-nil : {A : Type 0} (o : Option A) → or_nil_reply o ≡ nil → o ≡ none
or_nil_reply-nil none h = refl
or_nil_reply-nil (some a) h = cc

frame_del : (k j : String) (s : Memory) → k ≢ j → Same view s (memory.del k s).1 j
frame_del k j s h = record {
  text = rw (lookup-remove, str_eq_ne h);
  score = λ m. rw (lookup-remove, str_eq_ne h);
  member = λ m. rw (lookup-remove, str_eq_ne h);
}

keys_in-reply :
    (lo hi : Bound) (d : Dict ℤ) (out : List String) (m : String)
    → ◌≡◌ {A = Reply (List String)} (ok (keys_in lo hi d d)) (ok out)
    → elem m out ≡ in_range lo hi (lookup m d)
keys_in-reply lo hi d out m h = cc (elem-keys_in lo hi d m)

pub memory_laws : RedisLaws memory view
memory_laws = record {
  get-same = λ k j s. same s j;
  exists-same = λ k j s. same s j;
  zscore-same = λ k m j s. same s j;
  zrange-same = λ k lo hi j s. same s j;
  smembers-same = λ k j s. same s j;
  set-frame = λ k v j s. frame_text k v j s;
  del-frame = λ k j s. frame_del k j s;
  incr-frame = λ k j s. frame_bump k _ j s;
  zadd-frame = λ k ms j s. frame_zset k _ j s;
  zrem-frame = λ k m j s. frame_zset k _ j s;
  zrem_range-frame = λ k lo hi j s. frame_zset k _ j s;
  xadd-frame = λ k v j s h. same s j;
  get-ok = λ k v s h. or_nil_reply-ok _ h;
  get-nil = λ k s h. or_nil_reply-nil _ h;
  set-ok = λ k v s h. rw (lookup-insert, eq_refl);
  del-ok = λ k n s h. rw (lookup-remove, eq_refl);
  incr-ok = λ k n s h. bump-ok k _ n s h;
  incr-next = λ k u m n s h. bump-next_text k u m n s h;
  incr-first = λ k n s h. bump-first_text k n s h;
  zadd-ok = λ k ms n m s h. ap (lookup m) (zset_put k _ s) ∙ lookup-zadd_all ms (zset s k) m;
  zrem-ok = λ k m n j s h. ap (lookup j) (zset_put k _ s) ∙ lookup-remove m j (zset s k);
  zscore-ok = λ k m x s h. or_nil_reply-ok _ h;
  zscore-nil = λ k m s h. or_nil_reply-nil _ h;
  zrange-ok = λ k lo hi out m s h. keys_in-reply lo hi (zset s k) out m h;
  zrem_range-ok = λ k lo hi n m s h.
      ap (lookup m) (zset_put k _ s)
      ∙ lookup-remove_all _ (zset s k) m
      ∙ ap (λ (b : Bool). if b then none else lookup m (zset s k))
          (elem-keys_in lo hi (zset s k) m);
}
