-- ===== src/Graph/EdgeIds/Refines.antt =====
-- A bucket behaves as the ordered set of its ids.
use myko.Base.{suc, ◌≤◌, ◌≡◌, ◌↔◌, refl, Bool, true, false, not, ◌&&◌, ◌||◌, none, some}
use myko.Base.{◌≢◌, ◌⊎◌, List, [], ◌∷◌, arith, length, find?, Bool-cases, inl, inr}
use myko.Base.Key.{◌==◌}
use myko.Base.Text.{Str, str_key}
use myko.Base.OrdSet
use myko.Base.OrdSet.{IsAscending, remove-IsAscending, insert-IsAscending}
use myko.Graph.EdgeIds.{
  is_empty_list, EdgeIds, one, many, insert, singleton, remove, ids, extend_cloned,
}
use myko.Graph.EdgeIds.{contains, conflicting_id_ignoring}

-- A bucket of the larger form holds two ids or more, in ascending order.
abbrev pub IsValid : EdgeIds → Type 0
IsValid (one id) = Unit
IsValid (many xs) = IsAscending xs × (2 ≤ length xs)

pub ids-IsAscending : (e : EdgeIds) → IsValid e → IsAscending (ids e)
unfolding ids
ids-IsAscending (one id) v = (tt, tt)
ids-IsAscending (many xs) v = v.0

pub contains-ids : (x : Str) (e : EdgeIds) → contains x e ≡ OrdSet.contains x (ids e)
unfolding contains ids OrdSet.contains
contains-ids x (one id) = ground arith
contains-ids x (many xs) = refl

length-OrdSet_insert : (x : Str) (ys : List Str) → length ys ≤ length (OrdSet.insert x ys)
unfolding OrdSet.insert
length-OrdSet_insert x [] = omega arith
length-OrdSet_insert x (y ∷ ys) = ground (arith, length-OrdSet_insert x ys)

-- `insert` adds the id to the set that the bucket stands for, and keeps the bucket well formed.
pub ids-insert :
    (id : Str) (e : EdgeIds)
    → IsValid e
    → IsValid (insert id e) × (ids (insert id e) ≡ OrdSet.insert id (ids e))
unfolding insert ids OrdSet.insert OrdSet.extend
ids-insert id (one x) v = elim (Bool-cases (x == id)) [
  | inl e ↦ rw e (tt, ground (arith, str_key.eq_of_cmp x id, str_key.cmp_refl x))
  | inr e ↦ rw e (ground (arith, str_key.cmp_flip id x))
]
ids-insert id (many xs) v =
    ((insert-IsAscending id xs v.0, omega (arith, length-OrdSet_insert id xs)), refl)

length-OrdSet_remove : (x : Str) (ys : List Str) → length ys ≤ suc (length (OrdSet.remove x ys))
unfolding OrdSet.remove
length-OrdSet_remove x [] = omega arith
length-OrdSet_remove x (y ∷ ys) = ground (arith, length-OrdSet_remove x ys)

-- The form that `remove` picks for the ids that are left.
collapse : List Str → EdgeIds
unfolding singleton
collapse left = elim (singleton left) [ some x ↦ one x | none ↦ many left ]

collapse_lem :
    (left : List Str)
    → IsAscending left
    → 1 ≤ length left
    → IsValid (collapse left) × (ids (collapse left) ≡ left) × (left ≢ [])
unfolding collapse ids
collapse_lem [] s h = absurd (omega arith)
collapse_lem (x ∷ []) s h = (tt, refl, λ e. cc)
collapse_lem (x ∷ y ∷ zs) s h = ((s, omega arith), refl, λ e. cc)

is_empty_list_iff : (xs : List Str) → (is_empty_list xs ≡ true) ↔ (xs ≡ [])
is_empty_list_iff [] = (λ _. refl, λ _. refl)
is_empty_list_iff (x ∷ xs) = (λ h. cc, λ h. cc)

-- `remove` takes the id out of the set that the bucket stands for: it answers `true` exactly when
-- the set is then empty, and else leaves a well-formed bucket for what is left.
pub ids-remove :
    (id : Str) (e : EdgeIds)
    → IsValid e
    → let (left, empty) = remove id e in
      ((empty ≡ true) ↔ (OrdSet.remove id (ids e) ≡ []))
      × (empty ≡ false → IsValid left × (ids left ≡ OrdSet.remove id (ids e)))
unfolding remove ids OrdSet.remove collapse
ids-remove id (one x) v = elim (Bool-cases (x == id)) [
  | inl e ↦ rw e ((λ _. refl, λ _. refl), λ h. cc)
  | inr e ↦ rw e ((λ h. cc, λ h. cc), λ _. (tt, refl))
]
ids-remove id (many xs) v =
    let left = OrdSet.remove id xs in
    let (valid, same, _) =
      collapse_lem left (remove-IsAscending id xs v.0)
        (omega (arith, length-OrdSet_remove id xs)) in
    (is_empty_list_iff left, λ _. (valid, same))

-- `extend_cloned` joins the bucket's ids to the target set.
pub contains-extend_cloned :
    (p : Str) (e : EdgeIds) (target : List Str)
    → OrdSet.contains p (extend_cloned e target) ≡ (OrdSet.contains p target || contains p e)
unfolding extend_cloned contains
contains-extend_cloned p (one id) target = ground (arith, OrdSet.contains-insert p id target)
contains-extend_cloned p (many xs) target = OrdSet.contains-extend p target xs

pub extend_cloned-IsAscending :
    (e : EdgeIds) (target : List Str) → IsAscending target → IsAscending (extend_cloned e target)
unfolding extend_cloned
extend_cloned-IsAscending (one id) target s = insert-IsAscending id target s
extend_cloned-IsAscending (many xs) target s = OrdSet.extend-IsAscending target xs s

-- `conflicting_id_ignoring` answers with an id of the bucket that is neither the candidate nor
-- ignored, and answers `None` only if there is no such id.
abbrev Conflicts : Str → List Str → Str → Type 0
Conflicts candidate ignored id = ((id == candidate) ≡ false) × (OrdSet.contains id ignored ≡ false)

find_some :
    (p : Str → Bool) (xs : List Str) (x : Str)
    → find? p xs ≡ some x
    → (p x ≡ true) × (OrdSet.contains x xs ≡ true)
unfolding find? OrdSet.contains
find_some p [] x h = cc
find_some p (y ∷ ys) x h = ground (arith, find_some p ys x, str_key.cmp_refl x)

find_none :
    (p : Str → Bool) (xs : List Str) (x : Str)
    → find? p xs ≡ none
    → OrdSet.contains x xs ≡ true
    → p x ≡ false
unfolding find? OrdSet.contains
find_none p [] x h m = cc
find_none p (y ∷ ys) x h m = ground (arith, find_none p ys x, str_key.eq_of_cmp y x)

pub conflicting_id_some :
    (candidate : Str) (ignored : List Str) (e : EdgeIds) (x : Str)
    → conflicting_id_ignoring candidate ignored e ≡ some x
    → Conflicts candidate ignored x × (contains x e ≡ true)
unfolding conflicting_id_ignoring contains
conflicting_id_some candidate ignored (one id) x h = ground (arith, str_key.cmp_refl x)
conflicting_id_some candidate ignored (many xs) x h =
    ground
      (arith, find_some (λ id. not (id == candidate) && not (OrdSet.contains id ignored)) xs x h)

pub conflicting_id_none :
    (candidate : Str) (ignored : List Str) (e : EdgeIds) (x : Str)
    → conflicting_id_ignoring candidate ignored e ≡ none
    → contains x e ≡ true
    → (x ≡ candidate) ⊎ (OrdSet.contains x ignored ≡ true)
unfolding conflicting_id_ignoring contains
conflicting_id_none candidate ignored (one id) x h m =
    ground (arith, str_key.eq_of_cmp id x, str_key.eq_of_cmp x candidate)
conflicting_id_none candidate ignored (many xs) x h m = ground (
  arith,
  find_none (λ id. not (id == candidate) && not (OrdSet.contains id ignored)) xs x h m,
  str_key.eq_of_cmp x candidate,
)
