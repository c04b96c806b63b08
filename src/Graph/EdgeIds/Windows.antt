-- ===== src/Graph/EdgeIds/Windows.antt =====
-- The pages of a bucket, by offset and by cursor.
use myko.Base.{ℕ, zero, suc, ◌≡◌, refl, ap, ◌∙◌, ◌&&◌, true, some}
use myko.Base.{List, [], ◌∷◌, ◌++◌, arith, if◌then◌else◌, take, drop, reverse}
use myko.Base.{Bool-cases, inl, inr, eqb}
use myko.Base.Key.{ltk, ◌≺◌}
use myko.Base.Text.{Str, str_key}
use myko.Base.OrdSet.{IsAscending, Above}
use myko.Wire.Window.{QueryWindow, first, after, before}
use myko.Graph.EdgeIds.{EdgeIds, one, many, ids, window, cursor_window, range_below, range_above}
use myko.Graph.EdgeIds.{last_below}
use myko.Graph.EdgeIds.Refines.{IsValid, ids-IsAscending}

drop-nil : (o : ℕ) → drop {A = Str} o [] ≡ []
drop-nil zero = refl
drop-nil (suc o) = refl

take-nil : (n : ℕ) → take {A = Str} n [] ≡ []
take-nil zero = refl
take-nil (suc n) = refl

slice_one :
    (l o : ℕ) (id : Str)
    → (if eqb l 0 then [] else if eqb o 0 then id ∷ [] else []) ≡ take l (drop o (id ∷ []))
slice_one zero o id = refl
slice_one (suc l) zero id = ground (arith, take-nil l)
slice_one (suc l) (suc o) id = ground (arith, drop-nil o)

slice_many :
    (l o : ℕ) (xs : List Str) → (if eqb l 0 then [] else take l (drop o xs)) ≡ take l (drop o xs)
slice_many zero o xs = refl
slice_many (suc l) o xs = ground arith

-- In either form of a bucket an offset window is the slice of its ids that starts at the offset and
-- has at most `limit` ids.
pub window-ids :
    (w : QueryWindow) (e : EdgeIds) → window (some w) e ≡ take w.limit (drop w.offset (ids e))
unfolding window ids
window-ids w (one id) = slice_one w.limit w.offset id
window-ids w (many xs) = slice_many w.limit w.offset xs

-- The ranges of an ascending list around one of its members.
Above-mid : (z x : Str) (pre post : List Str) → Above z (pre ++ x ∷ post) → z ≺ x
Above-mid z x [] post h = h.0
Above-mid z x (y ∷ pre) post h = Above-mid z x pre post h.1

range_above_all : (x : Str) (ys : List Str) → Above x ys → range_above x ys ≡ ys
unfolding range_above
range_above_all x [] h = refl
range_above_all x (y ∷ ys) h = ground (arith, range_above_all x ys h.1)

range_below_none : (x : Str) (ys : List Str) → Above x ys → range_below x ys ≡ []
unfolding range_below
range_below_none x [] h = refl
range_below_none x (y ∷ ys) h = ground (arith, str_key.cmp_flip x y, range_below_none x ys h.1)

range_above-mid :
    (x : Str) (pre post : List Str)
    → IsAscending (pre ++ x ∷ post)
    → range_above x (pre ++ x ∷ post) ≡ post
unfolding range_above
range_above-mid x [] post s = ground (arith, str_key.cmp_refl x, range_above_all x post s.0)
range_above-mid x (z ∷ pre) post s =
    ground (arith, str_key.cmp_flip z x, Above-mid z x pre post s.0, range_above-mid x pre post s.1)

range_below-mid :
    (x : Str) (pre post : List Str)
    → IsAscending (pre ++ x ∷ post)
    → range_below x (pre ++ x ∷ post) ≡ pre
unfolding range_below
range_below-mid x [] post s = ground (arith, str_key.cmp_refl x, range_below_none x post s.0)
range_below-mid x (z ∷ pre) post s =
    ground (arith, Above-mid z x pre post s.0, range_below-mid x pre post s.1)

take_guard : (l : ℕ) (xs : List Str) → (if eqb l 0 then [] else take l xs) ≡ take l xs
take_guard zero xs = refl
take_guard (suc l) xs = ground arith

last_guard :
    (l : ℕ) (b : Str) (xs : List Str)
    → (if eqb l 0 then [] else last_below l b xs) ≡ last_below l b xs
unfolding last_below
last_guard zero b xs = refl
last_guard (suc l) b xs = ground arith

one_above :
    (l : ℕ) (a id : Str)
    → (if eqb l 0 then [] else if ltk a id && true then id ∷ [] else [])
      ≡ take l (range_above a (id ∷ []))
unfolding range_above
one_above zero a id = refl
one_above (suc l) a id = ground (arith, take-nil l)

one_below :
    (l : ℕ) (b id : Str)
    → (if eqb l 0 then [] else if true && ltk id b then id ∷ [] else []) ≡ last_below l b (id ∷ [])
unfolding last_below range_below
one_below zero b id = refl
one_below (suc l) b id = elim (Bool-cases (ltk id b)) [
  | inl e ↦ rw e (ground (arith, take-nil l))
  | inr e ↦ rw e (ground (arith, take-nil l))
]

cursor_after :
    (a : Str) (l : ℕ) (e : EdgeIds) → cursor_window (after a l) e ≡ take l (range_above a (ids e))
unfolding cursor_window ids after
cursor_after a l (one id) = one_above l a id
cursor_after a l (many xs) = take_guard l (range_above a xs)

cursor_before :
    (b : Str) (l : ℕ) (e : EdgeIds) → cursor_window (before b l) e ≡ last_below l b (ids e)
unfolding cursor_window ids before
cursor_before b l (one id) = one_below l b id
cursor_before b l (many xs) = last_guard l b xs

-- The page after an id of the bucket is made of the ids that follow it, the page before it of the
-- ids just before it in ascending order, each cut to the limit.
pub cursor_pages :
    (e : EdgeIds) (x : Str) (pre post : List Str) (limit : ℕ)
    → IsValid e
    → ids e ≡ pre ++ x ∷ post
    → (cursor_window (after x limit) e ≡ take limit post)
      × (cursor_window (before x limit) e ≡ reverse (take limit (reverse pre)))
unfolding last_below
cursor_pages e x pre post limit v q =
    let s : IsAscending (pre ++ x ∷ post) = rw q at (ids-IsAscending e v) in
    (
      cursor_after x limit e ∙ rw q (ap (take limit) (range_above-mid x pre post s)),
      cursor_before x limit e
          ∙ rw q (ap (λ l. reverse (take limit (reverse l))) (range_below-mid x pre post s)),
    )

guard_ids : (limit : ℕ) (id : Str) → (if eqb limit 0 then [] else id ∷ []) ≡ take limit (id ∷ [])
guard_ids zero id = refl
guard_ids (suc l) id = ground (arith, take-nil l)

-- The first page is made of the first ids, cut to the limit.
pub cursor_first : (limit : ℕ) (e : EdgeIds) → cursor_window (first limit) e ≡ take limit (ids e)
unfolding cursor_window ids first
cursor_first limit (one id) = guard_ids limit id
cursor_first limit (many xs) = take_guard limit xs
