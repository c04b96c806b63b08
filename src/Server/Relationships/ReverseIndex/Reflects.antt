-- ===== src/Server/Relationships/ReverseIndex/Reflects.antt =====
-- The reverse index reflects the store of the children: a child's recorded parent is the one that
-- its stored item names, for every item that a batch has written.
use myko.Base.{◌≡◌, Option, none, some, Bool, true, false}
use myko.Base.{◌⊎◌, inl, inr, List, [], ◌∷◌, if◌then◌else◌, arith, Bool-cases}
use myko.Base.{any}
use myko.Base.Key.{◌==◌, nat_key}
use myko.Base.Text.{Str, str_key}
use myko.Base.Assoc
use myko.Base.Assoc.{lookup-insert, lookup-remove}
use myko.Graph.Types.{AnyItem}
use myko.Server.Relationships.{BelongsToLookup, Store, Stores}
use myko.Server.Relationships.ReverseIndex.{ReverseIndex}
use myko.Server.Relationships.ReverseIndex.{remove_belongs_to_child, index_belongs_to_child}
use myko.Server.Relationships.ReverseIndex.{ensure_belongs_to_index_loaded}
use myko.Server.Relationships.ReverseIndex.{index_items, index_batch}
use myko.Server.Relationships.ReverseIndex.Slots.{maps_of, parents_of}
use myko.Server.Relationships.ReverseIndex.Slots.{is_loaded}
use myko.Server.Relationships.ReverseIndex.Slots.{maps_of-remove, maps_of-index}
use myko.Server.Relationships.ReverseIndex.Slots.{ensure_loaded_known, maps_of-ensure_loaded_new}
use myko.Server.Relationships.ReverseIndex.Load.{IsStore, fk_of, lookup_after}
use myko.Server.Relationships.ReverseIndex.Load.{lookup-load_entries}

-- the parent that the index has for a child
abbrev pub parent_in : BelongsToLookup → Str → ReverseIndex → Option Str
parent_in lookup child index = Assoc.lookup child (parents_of lookup.id index)

abbrev pub stored_fk : BelongsToLookup → Stores → Str → Option Str
stored_fk lookup stores child =
    fk_of lookup.extract_fk (Assoc.lookup child (stores lookup.local_type))

abbrev pub Reflects : BelongsToLookup → Stores → ReverseIndex → Type 0
Reflects lookup stores index =
    (child : Str) → parent_in lookup child index ≡ stored_fk lookup stores child

parent_in-index :
    (c : Str) (lookup : BelongsToLookup) (item : AnyItem) (index : ReverseIndex)
    → parent_in lookup c (index_belongs_to_child lookup item index)
      ≡ (if item.id == c then lookup.extract_fk item else parent_in lookup c index)
parent_in-index c lookup item index = ground (
  arith,
  maps_of-index lookup.id lookup item index,
  lookup_after c item.id (lookup.extract_fk item) (maps_of lookup.id index),
  nat_key.cmp_refl lookup.id,
)

parent_in-remove :
    (c : Str) (lookup : BelongsToLookup) (child : Str) (index : ReverseIndex)
    → parent_in lookup c (remove_belongs_to_child lookup child index)
      ≡ (if child == c then none else parent_in lookup c index)
parent_in-remove c lookup child index = ground (
  arith,
  maps_of-remove lookup.id lookup child index,
  lookup_after c child none (maps_of lookup.id index),
  nat_key.cmp_refl lookup.id,
)

-- An index that was not loaded reflects the store once it is.
pub ensure_loaded-Reflects :
    (lookup : BelongsToLookup) (stores : Stores) (index : ReverseIndex)
    → IsStore (stores lookup.local_type)
    → is_loaded lookup index ≡ false
    → Reflects lookup stores (ensure_belongs_to_index_loaded lookup stores index)
unfolding Assoc.lookup
ensure_loaded-Reflects lookup stores index s e c = ground (
  arith,
  maps_of-ensure_loaded_new lookup.id lookup stores index e,
  lookup-load_entries c lookup.extract_fk (stores lookup.local_type) ([], []) s,
  nat_key.cmp_refl lookup.id,
)

-- a child whose write the index has still to see
abbrev pub is_written : Str → List AnyItem → Bool
is_written child items = any (λ item. item.id == child) items

-- The items of a batch are in the store that the relations see.
abbrev pub AllStored : Store → List AnyItem → Type 0
AllStored store [] = Unit
AllStored store (item ∷ items) = (Assoc.lookup item.id store ≡ some item) × AllStored store items

-- The index has what the store says of every child outside a batch.
abbrev pub ReflectsOutside : List AnyItem → BelongsToLookup → Stores → ReverseIndex → Type 0
ReflectsOutside items lookup stores index =
    (child : Str)
    → (is_written child items ≡ true)
      ⊎ (parent_in lookup child index ≡ stored_fk lookup stores child)

index_items-Reflects :
    (items : List AnyItem) (lookup : BelongsToLookup) (stores : Stores) (index : ReverseIndex)
    → AllStored (stores lookup.local_type) items
    → ReflectsOutside items lookup stores index
    → Reflects lookup stores (index_items lookup items index)
unfolding index_items any
index_items-Reflects [] lookup stores index h outside =
    λ c. elim (outside c) [ inl e ↦ absurd (ground arith) | inr e ↦ e ]
index_items-Reflects (item ∷ items) lookup stores index h outside =
    index_items-Reflects items lookup stores (index_belongs_to_child lookup item index) h.1 next
  where
    next : ReflectsOutside items lookup stores (index_belongs_to_child lookup item index)
    next c = elim (Bool-cases (item.id == c)) [
      | inl q ↦
          inr
            (ground (arith, h.0, parent_in-index c lookup item index, str_key.eq_of_cmp item.id c))
      | inr q ↦ elim (outside c) [
        | inl e ↦ inl (ground arith)
        | inr e ↦ inr (ground (arith, parent_in-index c lookup item index))
      ]
    ]

-- After a batch of children has been written and indexed, the recorded parent of every child is the
-- foreign key of its stored item. The store files each item once, under its id, and has the items
-- of the batch; before the batch the index was not loaded, or it had the parents of all other
-- children.
pub index_batch-Reflects :
    (lookup : BelongsToLookup) (stores : Stores) (items : List AnyItem) (index : ReverseIndex)
    → IsStore (stores lookup.local_type)
    → AllStored (stores lookup.local_type) items
    → (is_loaded lookup index ≡ false) ⊎ ReflectsOutside items lookup stores index
    → Reflects lookup stores (index_batch lookup stores items index)
unfolding index_batch
index_batch-Reflects lookup stores items index s h was =
    index_items-Reflects items lookup stores (ensure_belongs_to_index_loaded lookup stores index) h
      (elim (Bool-cases (is_loaded lookup index)) [
        | inl e ↦ elim was [
          | inl n ↦ absurd (ground arith)
          | inr r ↦ rw (ensure_loaded_known lookup stores index e) r
        ]
        | inr e ↦ λ c. inr (ensure_loaded-Reflects lookup stores index s e c)
      ])

-- A deleted child is forgotten, and nothing else: if the index reflected a store, it reflects the
-- store without the child.
remove-Reflects :
    (lookup : BelongsToLookup) (before after : Stores) (child : Str) (index : ReverseIndex)
    → after lookup.local_type ≡ Assoc.remove child (before lookup.local_type)
    → Reflects lookup before index
    → Reflects lookup after (remove_belongs_to_child lookup child index)
remove-Reflects lookup before after child index h r c = ground (
  arith,
  h,
  r c,
  parent_in-remove c lookup child index,
  lookup-remove child c (before lookup.local_type),
)
