-- ===== src/Sessions/Memory.antt =====
-- A cache and a table of sessions in memory: the instance at which tests run.
use astron_claw.Prelude.{
  String, Bool, true, not, ◌&&◌, ◌≡◌, inl, inr, refl, sym, ap, ◌∙◌, Option, none, some, List, [],
  ◌∷◌, ◌++◌, map, str_eq, if◌then◌else◌, arith, eq_iff, eq_refl, str_eq_ne, Bool-cases,
}
use astron_claw.Prelude.Int.{ℤ}
use astron_claw.Prelude.Dict.{Dict, lookup, insert, remove, lookup-insert, lookup-remove}
use astron_claw.Redis.{ok}
use astron_claw.Redis.Laws.{elem}
use astron_claw.Sessions.{ChatSession, Cache, Database, row_id}
use astron_claw.Sessions.Laws.{CacheLaws, DatabaseLaws, is_some, is_older, row_token}

abbrev or_empty : Option (List String) → List String
or_empty none = []
or_empty (some xs) = xs

abbrev pub ids_in : Dict (List String) → String → List String
ids_in c k = or_empty (lookup k c)

abbrev pub cache : Cache
cache = record {
  Server = Dict (List String);
  lrange = λ k c. (ok (ids_in c k), c);
  del = λ k c. (ok 1, remove k c);
  rpush = λ k xs c. (ok 1, insert k (ids_in c k ++ xs) c);
  expire = λ k ttl c. (ok tt, c);
}

pub cache-CacheLaws : CacheLaws cache ids_in
cache-CacheLaws = record {
  lrange-same = λ k j c. refl;
  lrange-ok = λ k xs c e. cc;
  del-frame = λ k j c h. rw (lookup-remove, str_eq_ne h) refl;
  del-ok = λ k n c e. rw (lookup-remove, eq_refl) refl;
  rpush-frame = λ k xs j c h. rw (lookup-insert, str_eq_ne h) refl;
  rpush-effect = λ k xs c. inr (rw (lookup-insert, eq_refl) refl);
  expire-same = λ k ttl j c. refl;
}

abbrev is_row : ChatSession → String → String → Bool
is_row r t i = str_eq r.token t && str_eq r.session_id i

unfoldable pub created_in : List ChatSession → String → String → Option ℤ
created_in [] t i = none
created_in (r ∷ rs) t i =
    let rest = created_in rs t i in if is_row r t i then some r.created_at else rest

-- the rows whose token and id pass a test
unfoldable pub pick : (String → String → Bool) → List ChatSession → List ChatSession
pick p [] = []
pick p (r ∷ rs) = let rest = pick p rs in if p r.token r.session_id then r ∷ rest else rest

unfoldable pub first_row : String → String → List ChatSession → Option ChatSession
first_row t i [] = none
first_row t i (r ∷ rs) = let rest = first_row t i rs in if is_row r t i then some r else rest

abbrev pub table : Database
table = record {
  State = List ChatSession;
  insert = λ r s. (true, r ∷ s);
  delete_token = λ k s. (true, pick (λ t i. not (str_eq k t)) s);
  delete_old = λ cutoff s. (true, pick (λ t i. not (is_older cutoff (created_in s t i))) s);
  find_token = λ k s. some (pick (λ t i. str_eq t k) s);
  find_session = λ t i s. first_row t i s;
  find_old = λ cutoff s. some (pick (λ t i. is_older cutoff (created_in s t i)) s);
}

cong : (p : String → String → Bool) (t t' i i' : String) → t ≡ t' → i ≡ i' → p t i ≡ p t' i'
cong p t t' i i' e f = ap (λ u. p u i) e ∙ ap (p t') f

created-pick :
    (p : String → String → Bool) (rs : List ChatSession) (t i : String)
    → created_in (pick p rs) t i ≡ (if p t i then created_in rs t i else none)
unfolding created_in pick
created-pick p [] t i = ground arith
created-pick p (r ∷ rs) t i = ground (
  arith,
  created-pick p rs t i,
  eq_iff r.token t,
  eq_iff r.session_id i,
  cong p r.token t r.session_id i,
)

elem-pick :
    (p : String → String → Bool) (rs : List ChatSession) (t i : String)
    → p t i ≡ true
    → is_some (created_in rs t i) ≡ true
    → elem t (map row_token (pick p rs)) ≡ true
unfolding created_in pick
elem-pick p [] t i h e = cc
elem-pick p (r ∷ rs) t i h e = ground (
  arith,
  elem-pick p rs t i h,
  eq_iff r.token t,
  eq_iff t r.token,
  eq_iff r.session_id i,
  cong p r.token t r.session_id i,
)

elem-token :
    (k : String) (rs : List ChatSession) (i : String)
    → elem i (map row_id (pick (λ t j. str_eq t k) rs)) ≡ is_some (created_in rs k i)
unfolding created_in pick
elem-token k [] i = refl
elem-token k (r ∷ rs) i =
    ground (arith, elem-token k rs i, eq_iff r.session_id i, eq_iff i r.session_id)

abbrev id_of : Option ChatSession → String
id_of none = ""
id_of (some r) = r.session_id

found_row :
    (t i : String) (rs : List ChatSession) (r : ChatSession)
    → first_row t i rs ≡ some r
    → (r.session_id ≡ i) × (is_some (created_in rs t i) ≡ true)
unfolding first_row created_in
found_row t i [] r e = cc
found_row t i (x ∷ rs) r e = elim (Bool-cases (is_row x t i)) [
  | inl h ↦ (ap id_of (sym (rw h at e)) ∙ ground (arith, eq_iff x.session_id i), rw h refl)
  | inr h ↦ let ih = found_row t i rs r (rw h at e) in (ih.0, rw h ih.1)
]

abbrev or_rows : Option (List ChatSession) → List ChatSession
or_rows none = []
or_rows (some rs) = rs

older_is_some : (c : ℤ) (o : Option ℤ) → is_older c o ≡ true → is_some o ≡ true
older_is_some c none h = cc
older_is_some c (some t) h = refl

pub table-DatabaseLaws : DatabaseLaws table created_in
unfolding created_in
table-DatabaseLaws = record {
  insert-effect = λ r t i s. refl;
  delete_token-effect = λ k t i s. created-pick (λ u j. not (str_eq k u)) s t i ∙ ground arith;
  delete_old-effect = λ cutoff t i s.
      created-pick (λ u j. not (is_older cutoff (created_in s u j))) s t i ∙ ground arith;
  find_token-ok = λ t rows i s e.
      ap (λ (o : Option (List ChatSession)). elem i (map row_id (or_rows o))) (sym e)
      ∙ elem-token t s i;
  find_session-ok = λ t i r s e. found_row t i s r e;
  find_old-ok = λ cutoff rows t i s e old.
      ap (λ (o : Option (List ChatSession)). elem t (map row_token (or_rows o))) (sym e)
      ∙ elem-pick (λ u j. is_older cutoff (created_in s u j)) s t i old
          (older_is_some cutoff _ old);
}
