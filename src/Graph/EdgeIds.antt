-- ===== src/Graph/EdgeIds.antt =====
-- `EdgeIds` of libs/myko/core/src/core/graph.rs: the ids in one bucket of a projection, with an
-- unboxed form for the bucket of one id. A method with `&mut self` returns the new bucket.
pub mod Refines
pub mod Windows
use myko.Base.{ℕ, ◌≤◌, Bool, true, false, not, ◌&&◌, Option, none, some, List, [], ◌∷◌, reverse}
use myko.Base.{if◌then◌else◌, eqb, is_none_or, length, take, drop, filter, find?, u64_max}
use myko.Base.Key.{◌==◌, ltk}
use myko.Base.Text.{Str, str_key}
use myko.Base.OrdSet
use myko.Wire.Window.{QueryWindow, QueryCursorWindow}

pub data EdgeIds : Type 0 where
  one : Str → EdgeIds
  many : List Str → EdgeIds  -- `BTreeSet`

unfoldable pub insert : Str → EdgeIds → EdgeIds
insert id (one existing) =
    if existing == id then one existing else many (OrdSet.extend [] (existing ∷ id ∷ []))
insert id (many ids) = many (OrdSet.insert id ids)

-- `(ids.len() == 1).then(|| ids.first().cloned()).flatten()`
unfoldable pub singleton : List Str → Option Str
singleton (x ∷ []) = some x
singleton _ = none

abbrev pub is_empty_list : List Str → Bool
is_empty_list [] = true
is_empty_list _ = false

-- The second result says whether the map's bucket is now empty.
unfoldable pub remove : Str → EdgeIds → EdgeIds × Bool
unfolding singleton
remove id (one existing) = (one existing, existing == id)
remove id (many ids) =
    let left = OrdSet.remove id ids in
    (elim (singleton left) [ some x ↦ one x | none ↦ many left ], is_empty_list left)

unfoldable pub ids : EdgeIds → List Str
ids (one id) = id ∷ []
ids (many xs) = xs

-- `usize::MAX`, which stands for no limit
abbrev pub usize_max : ℕ
usize_max = u64_max

abbrev offset_of : Option QueryWindow → ℕ
offset_of none = 0
offset_of (some w) = w.offset

abbrev limit_of : Option QueryWindow → ℕ
limit_of none = usize_max
limit_of (some w) = w.limit

unfoldable pub window : Option QueryWindow → EdgeIds → List Str
window w (one id) = if eqb (limit_of w) 0 then [] else if eqb (offset_of w) 0 then id ∷ [] else []
window w (many xs) = if eqb (limit_of w) 0 then [] else take (limit_of w) (drop (offset_of w) xs)

-- `range(..before)` and `range((Excluded(after), Unbounded))` of a `BTreeSet`
unfoldable pub range_below : Str → List Str → List Str
unfolding filter
range_below before = filter (λ x. ltk x before)

unfoldable pub range_above : Str → List Str → List Str
unfolding filter
range_above after = filter (λ x. ltk after x)

-- the last `n` ids below `before`, ascending
unfoldable pub last_below : ℕ → Str → List Str → List Str
unfolding range_below
last_below n before xs = reverse (take n (reverse (range_below before xs)))

unfoldable pub cursor_window : QueryCursorWindow → EdgeIds → List Str
unfolding last_below range_above
cursor_window w (one id) =
    let after_matches = is_none_or w.after (λ after. ltk after id) in
    let before_matches = is_none_or w.before (λ before. ltk id before) in
    if eqb w.limit 0 then [] else if after_matches && before_matches then id ∷ [] else []
cursor_window w (many xs) = if eqb w.limit 0 then [] else elim w.after [
  | some after ↦ take w.limit (range_above after xs)
  | none ↦ elim w.before [ none ↦ take w.limit xs | some before ↦ last_below w.limit before xs ]
]

unfoldable pub extend_cloned : EdgeIds → List Str → List Str
extend_cloned (one id) target = OrdSet.insert id target
extend_cloned (many xs) target = OrdSet.extend target xs

unfoldable pub len : EdgeIds → ℕ
len (one id) = 1
len (many xs) = length xs

unfoldable pub is_empty : EdgeIds → Bool
unfolding len
is_empty e = eqb (len e) 0

unfoldable pub contains : Str → EdgeIds → Bool
contains candidate (one id) = id == candidate
contains candidate (many xs) = OrdSet.contains candidate xs

unfoldable pub first : EdgeIds → Option Str
first (one id) = some id
first (many []) = none
first (many (x ∷ xs)) = some x

unfoldable pub conflicting_id_ignoring : Str → List Str → EdgeIds → Option Str
unfolding find?
conflicting_id_ignoring candidate ignored (one id) =
    if not (id == candidate) && not (OrdSet.contains id ignored) then some id else none
conflicting_id_ignoring candidate ignored (many xs) =
    find? (λ id. not (id == candidate) && not (OrdSet.contains id ignored)) xs
