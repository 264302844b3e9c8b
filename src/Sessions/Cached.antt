-- ===== src/Sessions/Cached.antt =====
-- What the commands on cached lists leave of them.
use text.Mathlib.TextLemmas.{append_cancel_left}
use astron_claw.Prelude.{
  ℕ, String, Bool, true, false, ◌≡◌, ◌≢◌, ◌⊎◌, inl, inr, refl, sym, ap, ◌∙◌, subst, Option, List,
  [], ◌∷◌, ◌++◌, map, str_eq, if◌then◌else◌, arith, eq_iff, Bool-cases, if_by,
}
use astron_claw.Prelude.Int.{ℤ}
use astron_claw.Redis.{Reply, ok, nil, failed}
use astron_claw.Redis.Laws.{elem}
use astron_claw.Sessions.{
  ChatSession, Cache, sessions_key, repopulate_cache, invalidate, affected, row_id,
}
use astron_claw.Sessions.Laws.{CacheLaws, is_some, row_token}

key-injective : (s t : String) → sessions_key s ≡ sessions_key t → s ≡ t
unfolding sessions_key
key-injective s t e = append_cancel_left "bridge:sessions:" s t e

key-ne : (k t : String) → str_eq k t ≡ false → sessions_key k ≢ sessions_key t
key-ne k t e = λ same. ground (arith, eq_iff k t, key-injective k t same)

-- a cached list is empty or has exactly the ids of a row of the table
abbrev pub Fresh : List String → (String → Option ℤ) → Type 0
Fresh xs row = (xs ≡ []) ⊎ ((i : String) → elem i xs ≡ is_some (row i))

pub Fresh-same :
    (xs : List String) (row row' : String → Option ℤ)
    → ((i : String) → row' i ≡ row i)
    → Fresh xs row
    → Fresh xs row'
Fresh-same xs row row' e (inl h) = inl h
Fresh-same xs row row' e (inr h) = inr (λ i. h i ∙ ap is_some (sym (e i)))

abbrev pub is_ok : {A : Type 0} → Reply A → Bool
is_ok (ok a) = true
is_ok nil = false
is_ok (failed e) = false

pub elem-affected :
    (t : String) (rows : List ChatSession) → elem t (affected rows) ≡ elem t (map row_token rows)
unfolding affected
elem-affected t [] = refl
elem-affected t (r ∷ rs) =
    ground (arith, elem-affected t rs, elem-affected r.token rs, eq_iff t r.token)

pub Fresh-if :
    (b : Bool) (xs : List String) (row : String → Option ℤ)
    → Fresh xs row
    → Fresh (if b then [] else xs) row
Fresh-if true xs row h = inl refl
Fresh-if false xs row h = h

module _ (C : Cache) (ids : C.Server → String → List String) (L : CacheLaws C ids)
    (up : (k : String) (c : C.Server) → is_ok (C.del k c).0 ≡ true) where
  pub clears :
      (k : String) (c : C.Server) (r : Reply ℕ)
      → (C.del k c).0 ≡ r
      → is_ok r ≡ true
      → ids (C.del k c).1 k ≡ []
  clears k c (ok n) e h = L.del-ok k n c e
  clears k c nil e h = cc
  clears k c (failed x) e h = cc

  pub ids-del :
      (k t : String) (c : C.Server)
      → ids (C.del (sessions_key k) c).1 (sessions_key t)
        ≡ (if str_eq k t then [] else ids c (sessions_key t))
  ids-del k t c = elim (Bool-cases (str_eq k t)) [
    | inl e ↦ rw (e, ← (eq_iff k t).0 e) (clears (sessions_key k) c _ refl (up (sessions_key k) c))
    | inr e ↦ rw e (L.del-frame (sessions_key k) (sessions_key t) c (key-ne k t e))
  ]

  pub ids-invalidate :
      (ts : List String) (t : String) (c : C.Server)
      → ids (invalidate C ts c) (sessions_key t)
        ≡ (if elem t ts then [] else ids c (sessions_key t))
  unfolding invalidate
  ids-invalidate [] t c = refl
  ids-invalidate (x ∷ xs) t c =
      ids-invalidate xs t (C.del (sessions_key x) c).1
      ∙ ground (arith, ids-del x t c, eq_iff t x, eq_iff x t)

  pub Fresh-del :
      (k t : String) (c : C.Server) (row : String → Option ℤ)
      → Fresh (ids c (sessions_key t)) row
      → Fresh (ids (C.del (sessions_key k) c).1 (sessions_key t)) row
  Fresh-del k t c row h =
      subst (λ xs. Fresh xs row) (sym (ids-del k t c)) (Fresh-if (str_eq k t) _ row h)

  pub del-Fresh :
      (k t : String) (c : C.Server) (row row' : String → Option ℤ)
      → (str_eq k t ≡ false → (i : String) → row' i ≡ row i)
      → Fresh (ids c (sessions_key t)) row
      → Fresh (ids (C.del (sessions_key k) c).1 (sessions_key t)) row'
  del-Fresh k t c row row' same h =
      subst (λ xs. Fresh xs row') (sym (ids-del k t c))
        (if_by (λ xs. Fresh xs row') (str_eq k t) [] _ (λ e. inl refl)
          (λ e. Fresh-same _ row row' (same e) h))

  pub invalidate-Fresh :
      (ts : List String) (t : String) (c : C.Server) (row row' : String → Option ℤ)
      → (elem t ts ≡ false → (i : String) → row' i ≡ row i)
      → Fresh (ids c (sessions_key t)) row
      → Fresh (ids (invalidate C ts c) (sessions_key t)) row'
  invalidate-Fresh ts t c row row' same h =
      subst (λ xs. Fresh xs row') (sym (ids-invalidate ts t c))
        (if_by (λ xs. Fresh xs row') (elem t ts) [] _ (λ e. inl refl)
          (λ e. Fresh-same _ row row' (same e) h))

  push_own :
      (k : String) (xs : List String) (c : C.Server) (row : String → Option ℤ)
      → ids c (sessions_key k) ≡ []
      → ((i : String) → elem i xs ≡ is_some (row i))
      → Fresh (ids (C.rpush (sessions_key k) xs c).1 (sessions_key k)) row
  push_own k xs c row empty same = elim (L.rpush-effect (sessions_key k) xs c) [
    | inl e ↦ inl (e ∙ empty)
    | inr e ↦ inr (λ i. ap (elem i) (e ∙ ap (λ ys. ys ++ xs) empty) ∙ same i)
  ]

  push-Fresh :
      (k : String) (xs : List String) (t : String) (c : C.Server) (row : String → Option ℤ)
      → ids c (sessions_key k) ≡ []
      → (str_eq k t ≡ true → (i : String) → elem i xs ≡ is_some (row i))
      → Fresh (ids c (sessions_key t)) row
      → Fresh (ids (C.rpush (sessions_key k) xs c).1 (sessions_key t)) row
  push-Fresh k xs t c row empty same h = elim (Bool-cases (str_eq k t)) [
    | inl e ↦
        subst (λ u. Fresh (ids (C.rpush (sessions_key k) xs c).1 (sessions_key u)) row)
          ((eq_iff k t).0 e) (push_own k xs c row empty (same e))
    | inr e ↦
        subst (λ ys. Fresh ys row)
          (sym (L.rpush-frame (sessions_key k) xs (sessions_key t) c (key-ne k t e))) h
  ]

  pub repopulate-Fresh :
      (k : String) (rows : List ChatSession) (t : String) (c : C.Server) (row : String → Option ℤ)
      → (str_eq k t ≡ true → (i : String) → elem i (map row_id rows) ≡ is_some (row i))
      → Fresh (ids c (sessions_key t)) row
      → Fresh (ids (repopulate_cache C k rows c) (sessions_key t)) row
  unfolding repopulate_cache
  repopulate-Fresh k [] t c row same h = Fresh-del k t c row h
  repopulate-Fresh k (r ∷ rs) t c row same h =
      let c1 = (C.del (sessions_key k) c).1 in
      subst (λ xs. Fresh xs row) (sym (L.expire-same (sessions_key k) 3600 (sessions_key t) _))
        (push-Fresh k (map row_id (r ∷ rs)) t c1 row (clears (sessions_key k) c _ refl (up _ c))
          same (Fresh-del k t c row h))
