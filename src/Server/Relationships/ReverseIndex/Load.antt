-- ===== src/Server/Relationships/ReverseIndex/Load.antt =====
-- The reverse index of one lookup as its operations change it, and as a load fills it.
use myko.Base.{◌≡◌, refl, ap, Option, none, some}
use myko.Base.{◌⊎◌, inl, inr, [], ◌∷◌, if◌then◌else◌, arith, Bool-cases, Option-cases}
use myko.Base.Key.{◌==◌, nat_key}
use myko.Base.Text.{Str, str_key}
use myko.Base.Assoc
use myko.Base.Assoc.{lookup-insert, lookup-remove}
use myko.Graph.Types.{AnyItem}
use myko.Server.Relationships.{Store}
use myko.Server.Relationships.ReverseIndex.{ParentByChild}
use myko.Server.Relationships.ReverseIndex.{add_child, drop_child}
use myko.Server.Relationships.ReverseIndex.{load_entries}
use myko.Server.Relationships.ReverseIndex.Inverse.{IsInverse, IsInverse-add, IsInverse-drop}
use myko.Server.Relationships.ReverseIndex.Slots.{Maps}
use myko.Server.Relationships.ReverseIndex.Slots.{without, with_parent}

-- A store files each item once, under its id.
abbrev pub IsStore : Store → Type 0
IsStore [] = Unit
IsStore ((j, item) ∷ rest) = (item.id ≡ j) × (Assoc.lookup j rest ≡ none) × IsStore rest

-- the foreign key of a stored item
abbrev pub fk_of : (AnyItem → Option Str) → Option AnyItem → Option Str
fk_of extract_fk none = none
fk_of extract_fk (some item) = extract_fk item

pub lookup_after :
    (c child : Str) (parent : Option Str) (m : Maps)
    → Assoc.lookup c (with_parent child parent (without child m)).0
      ≡ (if child == c then parent else Assoc.lookup c m.0)
lookup_after c child parent m = elim (Option-cases (Assoc.lookup child m.0)) [
  | inl e ↦ rw (e, without) (go parent m e)
  | inr (q, e) ↦ rw (e, without) (gone parent q m)
]
  where
    go :
        (o : Option Str) (n : Maps)
        → Assoc.lookup child n.0 ≡ none
        → Assoc.lookup c (with_parent child o n).0 ≡ (if child == c then o else Assoc.lookup c n.0)
    go none n h = ground (arith, str_key.eq_of_cmp child c)
    go (some p) n h = lookup-insert child c p n.0

    gone :
        (o : Option Str) (q : Str) (n : Maps)
        → Assoc.lookup c (with_parent child o (Assoc.remove child n.0, drop_child child q n.1)).0
          ≡ (if child == c then o else Assoc.lookup c n.0)
    gone none q n = lookup-remove child c n.0
    gone (some p) q n =
        ground (arith, lookup-insert child c p (Assoc.remove child n.0), lookup-remove child c n.0)

abbrev pub InverseMaps : Maps → Type 0
InverseMaps m = IsInverse m.0 m.1

pub without-IsInverse : (child : Str) (m : Maps) → InverseMaps m → InverseMaps (without child m)
without-IsInverse child m v = elim (Option-cases (Assoc.lookup child m.0)) [
  | inl e ↦ rw (e, without) v
  | inr (p, e) ↦ rw (e, without) (IsInverse-drop child p m.0 m.1 e v)
]

pub lookup-without : (child : Str) (m : Maps) → Assoc.lookup child (without child m).0 ≡ none
lookup-without child m = ground (arith, lookup_after child child none m, str_key.cmp_refl child)

pub with_parent-IsInverse :
    (child : Str) (o : Option Str) (m : Maps)
    → Assoc.lookup child m.0 ≡ none
    → InverseMaps m
    → InverseMaps (with_parent child o m)
with_parent-IsInverse child none m h v = v
with_parent-IsInverse child (some p) m h v = IsInverse-add child p m.0 m.1 h v

-- no child of the first map is still to come
abbrev pub Apart : ParentByChild → Store → Type 0
Apart parents store = (c : Str) → (Assoc.lookup c parents ≡ none) ⊎ (Assoc.lookup c store ≡ none)

load_entries_cons :
    (extract_fk : AnyItem → Option Str) (j : Str) (item : AnyItem) (rest : Store) (m : Maps)
    → item.id ≡ j
    → load_entries extract_fk ((j, item) ∷ rest) m.0 m.1 ≡ (
        load_entries extract_fk rest
          (with_parent j (extract_fk item) m).0
          (with_parent j (extract_fk item) m).1)
unfolding load_entries
load_entries_cons extract_fk j item rest m h = elim (Option-cases (extract_fk item)) [
  | inl e ↦ rw (e, load_entries) refl
  | inr (p, e) ↦
      rw (e, load_entries)
        (ap (λ x. load_entries extract_fk rest (Assoc.insert x p m.0) (add_child x p m.1)) h)
]

lookup-with_parent :
    (c child : Str) (o : Option Str) (m : Maps)
    → Assoc.lookup c (with_parent child o m).0 ≡ elim o [
      | none ↦ Assoc.lookup c m.0
      | some p ↦ if child == c then some p else Assoc.lookup c m.0
    ]
lookup-with_parent c child none m = refl
lookup-with_parent c child (some p) m = lookup-insert child c p m.0

with_parent-Apart :
    (j : Str) (o : Option Str) (item : AnyItem) (rest : Store) (m : Maps)
    → Assoc.lookup j rest ≡ none
    → Apart m.0 ((j, item) ∷ rest)
    → Apart (with_parent j o m).0 rest
unfolding Assoc.lookup
with_parent-Apart j o item rest m h apart c = elim (Bool-cases (j == c)) [
  | inl q ↦ inr (ground (arith, str_key.eq_of_cmp j c))
  | inr q ↦ elim (apart c) [
    | inl g ↦ inl (ground (arith, lookup-with_parent c j o m))
    | inr g ↦ inr (ground arith)
  ]
]

Apart-head :
    (j : Str) (item : AnyItem) (rest : Store) (parents : ParentByChild)
    → Apart parents ((j, item) ∷ rest)
    → Assoc.lookup j parents ≡ none
unfolding Assoc.lookup
Apart-head j item rest parents apart = elim (apart j) [
  | inl h ↦ h
  | inr h ↦ ground (arith, str_key.cmp_refl j)
]

pub load_entries-IsInverse :
    (extract_fk : AnyItem → Option Str) (store : Store) (m : Maps)
    → IsStore store
    → Apart m.0 store
    → InverseMaps m
    → InverseMaps (load_entries extract_fk store m.0 m.1)
unfolding load_entries
load_entries-IsInverse extract_fk [] m s apart v = v
load_entries-IsInverse extract_fk ((j, item) ∷ rest) m s apart v =
    rw (load_entries_cons extract_fk j item rest m s.0) (
      load_entries-IsInverse extract_fk rest (with_parent j (extract_fk item) m) s.2
        (with_parent-Apart j (extract_fk item) item rest m s.1 apart)
        (with_parent-IsInverse j (extract_fk item) m (Apart-head j item rest m.0 apart) v))

pub lookup-load_entries :
    (c : Str) (extract_fk : AnyItem → Option Str) (store : Store) (m : Maps)
    → IsStore store
    → Assoc.lookup c (load_entries extract_fk store m.0 m.1).0
      ≡ elim (fk_of extract_fk (Assoc.lookup c store)) [
        | none ↦ Assoc.lookup c m.0
        | some parent ↦ some parent
      ]
unfolding load_entries Assoc.lookup
lookup-load_entries c extract_fk [] m s = refl
lookup-load_entries c extract_fk ((j, item) ∷ rest) m s =
    rw (load_entries_cons extract_fk j item rest m s.0) (
      ground (
        arith,
        lookup-load_entries c extract_fk rest (with_parent j (extract_fk item) m) s.2,
        lookup-with_parent c j (extract_fk item) m,
        s.1,
        str_key.eq_of_cmp j c,
      ))
