-- ===== src/Server/Relationships.antt =====
-- The data of libs/myko/core/src/server/relationship_manager.rs: what each kind of relation keeps of
-- its registration, and the stores that a handler reads. The extractors that the derive macros
-- generate are fields, and `Store::snapshot` lists a store's entries.
pub mod Tables
pub mod Cycle
pub mod ReverseIndex
pub mod Combinations
pub mod World
pub mod Ensure
pub mod Cascade
pub mod Manager
pub mod Tests
use myko.Base.{ℕ, Option, Bool, List}
use myko.Base.Text.{Str}
use myko.Base.Assoc.{Assoc}
use myko.Graph.Types.{AnyItem}

pub record BelongsToLookup : Type 0 where
  pub id : ℕ
  pub local_type : Str
  pub foreign_type : Str
  pub extract_fk : AnyItem → Option Str

pub record OwnsManyLookup : Type 0 where
  pub local_type : Str
  pub foreign_type : Str
  pub extract_ids : AnyItem → Option (List Str)
  pub remove_id : AnyItem → Str → Option AnyItem

pub record EnsureForDependency : Type 0 where
  pub foreign_type : Str
  pub extract_fk : AnyItem → Option Str

pub record EnsureForLookup : Type 0 where
  pub local_type : Str
  pub dependencies : List EnsureForDependency
  pub make_entity : List Str → AnyItem

-- What the macros register for a relation
pub data Relation : Type 0 where
  belongs_to : Str → Str → (AnyItem → Option Str) → Relation
  owns_many :
      Str → Str → (AnyItem → Option (List Str)) → (AnyItem → Str → Option AnyItem) → Relation
  ensure_for : Str → List EnsureForDependency → (List Str → AnyItem) → Relation

-- `MEventType`
pub data MEventType : Type 0 where
  set_event del_event : MEventType

-- The items of one entity type by id, and the registry of them by entity type
abbrev pub Store : Type 0
Store = Assoc Str AnyItem

abbrev pub Stores : Type 0
Stores = Str → Store
