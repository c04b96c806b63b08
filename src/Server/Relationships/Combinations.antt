-- ===== src/Server/Relationships/Combinations.antt =====
-- The combinations of dependency ids that `ensure_for` relations derive items for
-- (libs/myko/core/src/server/relationship_manager.rs).
pub mod Product
use myko.Base.{Option, none, some, Bool, true, false, ◌&&◌, List, [], ◌∷◌, ◌++◌, map}
use myko.Base.{if◌then◌else◌}
use myko.Base.Key.{◌==◌}
use myko.Base.Text.{Str, str_key}
use myko.Graph.Types.{AnyItem}
use myko.Server.Relationships.{EnsureForDependency, Store, Stores}

abbrev pub get_all_items : Stores → Str → List AnyItem
get_all_items stores entity_type = map (λ entry. entry.1) (stores entity_type)

-- the inner two loops
unfoldable pub extend_each : List Str → List (List Str) → List (List Str)
extend_each set [] = []
extend_each set (existing ∷ result) =
    map (λ item. existing ++ (item ∷ [])) set ++ extend_each set result

unfoldable pub product_from : List (List Str) → List (List Str) → List (List Str)
unfolding extend_each
product_from [] result = result
product_from (set ∷ sets) result = product_from sets (extend_each set result)

unfoldable pub cartesian_product : List (List Str) → List (List Str)
unfolding product_from
cartesian_product [] = []
cartesian_product (set ∷ sets) = product_from (set ∷ sets) ([] ∷ [])

abbrev pub ids_of_type : Stores → EnsureForDependency → List Str
ids_of_type stores dependency = map (λ item. item.id) (get_all_items stores dependency.foreign_type)

unfoldable pub get_dependency_combinations : Stores → List EnsureForDependency → List (List Str)
unfolding cartesian_product
get_dependency_combinations stores [] = []
get_dependency_combinations stores (dependency ∷ dependencies) =
    cartesian_product (map (ids_of_type stores) (dependency ∷ dependencies))

abbrev pub fk_is : Option Str → Str → Bool
fk_is none expected_id = false
fk_is (some fk) expected_id = fk == expected_id

-- `dependencies.iter().zip(combo.iter()).all(..)`
unfoldable pub all_match : List EnsureForDependency → List Str → AnyItem → Bool
all_match [] combo item = true
all_match (dependency ∷ dependencies) [] item = true
all_match (dependency ∷ dependencies) (expected_id ∷ combo) item =
    fk_is (dependency.extract_fk item) expected_id && all_match dependencies combo item

unfoldable pub find_match : Store → List EnsureForDependency → List Str → Option AnyItem
unfolding all_match
find_match [] dependencies combo = none
find_match ((_, item) ∷ items) dependencies combo =
    if all_match dependencies combo item then some item else find_match items dependencies combo

unfoldable pub find_ensure_for_entity_in :
    Store → List EnsureForDependency → List Str → Option AnyItem
unfolding find_match
find_ensure_for_entity_in items [] combo = none
find_ensure_for_entity_in items (dependency ∷ dependencies) [] = none
find_ensure_for_entity_in items (dependency ∷ dependencies) (id ∷ combo) =
    find_match items (dependency ∷ dependencies) (id ∷ combo)
