-- ===== src/Paging/Pages.antt =====
-- The items of a page, and its offset.
use native.Mathlib.Nat.{mul-le-mul_left, suc-mul}
use astron_claw.Prelude.{
  ℕ, suc, true, ◌≡◌, ◌≤◌, ◌<◌, ◌+◌, ◌-◌, ◌*◌, refl, sym, ap, ◌∙◌, none, some, List, [], zero, arith,
  length, take, drop, take_all, drop_all, length-drop, if_by,
}
use astron_claw.Prelude.Int.{ℤ, pos, ◌+ℤ◌, ◌-ℤ◌, ◌*ℤ◌, ltb_ℤ, wrap_int64, wrap_int64-small}
use astron_claw.Paging.{TokenInfo, at_most, slice_of, offset_of, page_slice}

before : (k : ℕ) → pos (suc k) -ℤ pos 1 ≡ pos k
unfolding ◌-ℤ◌
before k = ground arith

times : (a b : ℕ) → pos a *ℤ pos b ≡ pos (a * b)
unfolding ◌*ℤ◌
times a b = ground arith

plus : (a b : ℕ) → pos a +ℤ pos b ≡ pos (a + b)
unfolding ◌+ℤ◌
plus a b = ground arith

offset-small :
    (k size : ℕ)
    → 1 ≤ size
    → k * size < 9223372036854775808
    → offset_of (pos (suc k)) (pos size) ≡ pos (k * size)
unfolding offset_of
offset-small k size h fits =
    ap (λ x. wrap_int64 (wrap_int64 x *ℤ pos size)) (before k)
    ∙ ap (λ x. wrap_int64 (x *ℤ pos size)) (wrap_int64-small k (omega (arith, mul-le-mul_left k h)))
    ∙ ap wrap_int64 (times k size)
    ∙ wrap_int64-small (k * size) fits

take_nil : {A : Type 0} (n : ℕ) → take {A = A} n [] ≡ []
take_nil zero = refl
take_nil (suc n) = refl

slice_ok :
    (start end : ℕ) (ts : List TokenInfo)
    → start ≤ end
    → slice_of (pos start) (pos end) ts ≡ some (take (end - start) (drop start ts))
unfolding slice_of
slice_ok start end ts h = ground arith

-- the slice of a page that begins before the end
slice_inside :
    (o size : ℕ) (ts : List TokenInfo)
    → o ≤ length ts
    → slice_of (pos o) (at_most (pos (length ts)) (pos (o + size))) ts
      ≡ some (take size (drop o ts))
unfolding slice_of
slice_inside o size ts h =
    if_by (λ end. slice_of (pos o) end ts ≡ some (take size (drop o ts)))
      (ltb_ℤ (pos (length ts)) (pos (o + size))) (pos (length ts)) (pos (o + size))
      (λ past.
        slice_ok o (length ts) ts h
        ∙ ap some (
            take_all (length ts - o) (drop o ts) (omega (arith, length-drop o ts))
            ∙ sym (take_all size (drop o ts) (ground (arith, length-drop o ts)))))
      (λ inside.
        slice_ok o (o + size) ts (omega arith) ∙ ap (λ n. some (take n (drop o ts))) (omega arith))

minus_self : (n : ℕ) → n - n ≡ 0
minus_self n = omega arith

all_past : (o size n : ℕ) → ltb_ℤ (pos n) (pos o) ≡ true → at_most (pos n) (pos (o + size)) ≡ pos n
all_past o size n h = ground arith

slice_page :
    (o size : ℕ) (ts : List TokenInfo)
    → slice_of (at_most (pos (length ts)) (pos o)) (at_most (pos (length ts)) (pos (o + size))) ts
      ≡ some (take size (drop o ts))
slice_page o size ts =
    if_by
      (λ start.
        slice_of start (at_most (pos (length ts)) (pos (o + size))) ts
        ≡ some (take size (drop o ts)))
      (ltb_ℤ (pos (length ts)) (pos o)) (pos (length ts)) (pos o)
      (λ past.
        ap (λ end. slice_of (pos (length ts)) end ts) (all_past o size (length ts) past)
        ∙ slice_ok (length ts) (length ts) ts (omega arith)
        ∙ ap (λ m. some (take m (drop (length ts) ts))) (minus_self (length ts))
        ∙ ap some (sym (take_nil size) ∙ ap (take size) (sym (drop_all o ts (ground arith)))))
      (λ inside. slice_inside o size ts (ground arith))

-- On a page whose end is less than 2 ^ 63 the list of tokens shows the tokens from the place of
-- the page on, as many as the page size or as there are left.
pub page_slice-items :
    (k size : ℕ) (ts : List TokenInfo)
    → 1 ≤ size
    → suc k * size < 9223372036854775808
    → page_slice (pos (suc k)) (pos size) ts ≡ some (take size (drop (k * size) ts))
unfolding page_slice
page_slice-items k size ts h fits =
    let o = offset-small k size h (omega (arith, suc-mul k size)) in
    ap
      (λ x.
        slice_of (at_most (pos (length ts)) x)
          (at_most (pos (length ts)) (wrap_int64 (x +ℤ pos size))) ts)
      o
    ∙ ap
        (λ x.
          slice_of (at_most (pos (length ts)) (pos (k * size)))
            (at_most (pos (length ts)) (wrap_int64 x)) ts)
        (plus (k * size) size)
    ∙ ap
        (λ x.
          slice_of (at_most (pos (length ts)) (pos (k * size))) (at_most (pos (length ts)) x) ts)
        (wrap_int64-small (k * size + size) (omega (arith, suc-mul k size)))
    ∙ slice_page (k * size) size ts

wrapped-negative :
    (h : ℕ)
    → 1 ≤ h
    → h ≤ 50
    → ltb_ℤ (wrap_int64 (pos (9223372036854775806 * (2 * h)))) (pos 0) ≡ true
unfolding wrap_int64
wrapped-negative h l u = ground arith

offset-negative :
    (h : ℕ)
    → 1 ≤ h
    → h ≤ 50
    → ltb_ℤ (offset_of (pos 9223372036854775807) (pos (2 * h))) (pos 0) ≡ true
unfolding offset_of
offset-negative h l u =
    ap (λ x. ltb_ℤ (wrap_int64 (wrap_int64 x *ℤ pos (2 * h))) (pos 0)) (before 9223372036854775806)
    ∙ ap (λ x. ltb_ℤ (wrap_int64 (x *ℤ pos (2 * h))) (pos 0))
        (wrap_int64-small 9223372036854775806 (omega arith))
    ∙ ap (λ x. ltb_ℤ (wrap_int64 x) (pos 0)) (times 9223372036854775806 (2 * h))
    ∙ wrapped-negative h l u

slice-negative :
    (n : ℕ) (offset end : ℤ) (ts : List TokenInfo)
    → ltb_ℤ offset (pos 0) ≡ true
    → slice_of (at_most (pos n) offset) end ts ≡ none
unfolding slice_of
slice-negative n offset end ts h = ground arith

-- For the largest page number that 64 bits hold, which Atoi gives with an error that is ignored
-- for any larger one, the slice panics on every list with an even page size.
pub page_slice-panics :
    (h : ℕ) (ts : List TokenInfo)
    → 1 ≤ h
    → h ≤ 50
    → page_slice (pos 9223372036854775807) (pos (2 * h)) ts ≡ none
unfolding page_slice
page_slice-panics h ts some_size bounded =
    slice-negative (length ts) (offset_of (pos 9223372036854775807) (pos (2 * h)))
      (at_most (pos (length ts))
        (wrap_int64 (offset_of (pos 9223372036854775807) (pos (2 * h)) +ℤ pos (2 * h))))
      ts (offset-negative h some_size bounded)
