-- ===== src/Server/Relationships/ReverseIndex/Inverse.antt =====
-- The two maps of one lookup's reverse index are the inverse of each other.
use myko.Base.{◌≡◌, refl, Option, none, some, Bool, false}
use myko.Base.{List, [], ◌∷◌, if◌then◌else◌, arith, Bool-cases, Option-cases, inl, inr}
use myko.Base.Key.{◌==◌}
use myko.Base.Text.{Str, str_key}
use myko.Base.Assoc
use myko.Base.Assoc.{lookup-insert, lookup-remove}
use myko.Base.OrdSet
use myko.Base.OrdSet.{IsAscending, contains-insert, contains-remove, insert-IsAscending}
use myko.Base.OrdSet.{remove-IsAscending}
use myko.Server.Relationships.ReverseIndex.{ParentByChild, ChildrenByParent, or_default, is_empty}
use myko.Server.Relationships.ReverseIndex.{add_child, drop_child}

-- whether a child's recorded parent is the given one
abbrev pub is_parent : Str → Option Str → Bool
is_parent parent none = false
is_parent parent (some p) = p == parent

abbrev pub children_of : Str → ChildrenByParent → List Str
children_of parent m = or_default (Assoc.lookup parent m)

abbrev pub NotEmpty : Option (List Str) → Type 0
NotEmpty none = Unit
NotEmpty (some xs) = is_empty xs ≡ false

pub record IsInverse (parents : ParentByChild) (children : ChildrenByParent) : Type 0 where
  pub members :
      (parent child : Str)
      → OrdSet.contains child (children_of parent children)
        ≡ is_parent parent (Assoc.lookup child parents)
  pub ascending : (parent : Str) → IsAscending (children_of parent children)
  pub no_empty_set : (parent : Str) → NotEmpty (Assoc.lookup parent children)

pub IsInverse-empty : IsInverse [] []
unfolding Assoc.lookup OrdSet.contains
IsInverse-empty = record {
  members = λ parent child. refl;
  ascending = λ parent. tt;
  no_empty_set = λ parent. tt;
}

lookup-add_child :
    (q child parent : Str) (m : ChildrenByParent)
    → Assoc.lookup q (add_child child parent m) ≡ (
        if parent == q then some (OrdSet.insert child (children_of parent m)) else Assoc.lookup q m)
unfolding add_child
lookup-add_child q child parent m =
    lookup-insert parent q (OrdSet.insert child (children_of parent m)) m

abbrev or_none : List Str → Option (List Str)
or_none [] = none
or_none (x ∷ xs) = some (x ∷ xs)

-- a set after the child has left it, where an empty set is none
abbrev leave : Str → Option (List Str) → Option (List Str)
leave child none = none
leave child (some ids) =
    if is_empty (OrdSet.remove child ids) then none else some (OrdSet.remove child ids)

lookup-drop_child :
    (q child parent : Str) (m : ChildrenByParent)
    → Assoc.lookup q (drop_child child parent m)
      ≡ (if parent == q then leave child (Assoc.lookup parent m) else Assoc.lookup q m)
unfolding drop_child
lookup-drop_child q child parent m = elim (Option-cases (Assoc.lookup parent m)) [
  | inl e ↦ rw (e, drop_child) (ground (arith, str_key.eq_of_cmp parent q))
  | inr (ids, e) ↦
      rw (e, drop_child)
        (ground
          (arith, lookup-insert parent q (OrdSet.remove child ids) m, lookup-remove parent q m))
]

children_of-leave :
    (child : Str) (o : Option (List Str))
    → or_default (leave child o) ≡ OrdSet.remove child (or_default o)
unfolding OrdSet.remove
children_of-leave child none = refl
children_of-leave child (some ids) = lem (OrdSet.remove child ids)
  where
    lem : (xs : List Str) → or_default (if is_empty xs then none else some xs) ≡ xs
    lem [] = refl
    lem (x ∷ xs) = refl

leave-NotEmpty : (child : Str) (o : Option (List Str)) → NotEmpty (leave child o)
leave-NotEmpty child none = tt
leave-NotEmpty child (some ids) = lem (OrdSet.remove child ids)
  where
    lem : (xs : List Str) → NotEmpty (if is_empty xs then none else some xs)
    lem [] = tt
    lem (x ∷ xs) = refl

insert-NotEmpty : (child : Str) (ids : List Str) → is_empty (OrdSet.insert child ids) ≡ false
unfolding OrdSet.insert
insert-NotEmpty child [] = refl
insert-NotEmpty child (x ∷ xs) = ground arith

-- A child without a parent is recorded.
pub IsInverse-add :
    (child parent : Str) (parents : ParentByChild) (children : ChildrenByParent)
    → Assoc.lookup child parents ≡ none
    → IsInverse parents children
    → IsInverse (Assoc.insert child parent parents) (add_child child parent children)
IsInverse-add child parent parents children h v = record {
  members = λ p c. rw (lookup-add_child p child parent children) (
      ground (
        arith,
        lookup-insert child c parent parents,
        contains-insert c child (children_of parent children),
        v.members parent c,
        v.members p c,
        str_key.eq_of_cmp parent p,
        str_key.eq_of_cmp child c,
      ));
  ascending = λ p. rw (lookup-add_child p child parent children) (elim (Bool-cases (parent == p)) [
    | inl q ↦ rw q (insert-IsAscending child (children_of parent children) (v.ascending parent))
    | inr q ↦ rw q (v.ascending p)
  ]);
  no_empty_set = λ p.
      rw (lookup-add_child p child parent children) (elim (Bool-cases (parent == p)) [
        | inl q ↦ rw q (insert-NotEmpty child (children_of parent children))
        | inr q ↦ rw q (v.no_empty_set p)
      ]);
}

-- A child is forgotten together with its parent.
pub IsInverse-drop :
    (child parent : Str) (parents : ParentByChild) (children : ChildrenByParent)
    → Assoc.lookup child parents ≡ some parent
    → IsInverse parents children
    → IsInverse (Assoc.remove child parents) (drop_child child parent children)
IsInverse-drop child parent parents children h v = record {
  members = λ p c. rw (lookup-drop_child p child parent children) (elim (Bool-cases (parent == p)) [
    | inl q ↦
        rw (q, children_of-leave child (Assoc.lookup parent children))
          (ground (
            arith,
            lookup-remove child c parents,
            contains-remove c child (children_of parent children) (v.ascending parent),
            v.members parent c,
            str_key.eq_of_cmp parent p,
            str_key.eq_of_cmp child c,
          ))
    | inr q ↦
        rw q
          (ground (arith, lookup-remove child c parents, v.members p c, str_key.eq_of_cmp child c))
  ]);
  ascending = λ p. rw (lookup-drop_child p child parent children) (elim (Bool-cases (parent == p)) [
    | inl q ↦
        rw (q, children_of-leave child (Assoc.lookup parent children))
          (remove-IsAscending child (children_of parent children) (v.ascending parent))
    | inr q ↦ rw q (v.ascending p)
  ]);
  no_empty_set = λ p.
      rw (lookup-drop_child p child parent children) (elim (Bool-cases (parent == p)) [
        | inl q ↦ rw q (leave-NotEmpty child (Assoc.lookup parent children))
        | inr q ↦ rw q (v.no_empty_set p)
      ]);
}
