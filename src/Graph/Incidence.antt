-- ===== src/Graph/Incidence.antt =====
-- The projections of libs/myko/core/src/core/graph.rs are maps from a key to a bucket of edge ids.
-- A bucket is created by its first id and removed with its last one.
pub mod Tracks
use myko.Base.{Bool, true, false, Option, none, some, if◌then◌else◌}
use myko.Base.Key.{Key}
use myko.Base.Text.{Str}
use myko.Base.Assoc
use myko.Base.Assoc.{Assoc}
use myko.Graph.EdgeIds
use myko.Graph.EdgeIds.{EdgeIds, one}

module _ {K : Type 0} ⦃k : Key K⦄ where
  -- `insert_incidence`
  unfoldable pub insert_incidence : K → Str → Assoc K EdgeIds → Assoc K EdgeIds
  insert_incidence key id m = elim (Assoc.lookup key m) [
    | some ids ↦ Assoc.insert key (EdgeIds.insert id ids) m
    | none ↦ Assoc.insert key (one id) m
  ]

  -- `if let Some(ids) = map.get_mut(key) && ids.remove(id) { map.remove(key); }`
  unfoldable pub remove_incidence : K → Str → Assoc K EdgeIds → Assoc K EdgeIds
  remove_incidence key id m = elim (Assoc.lookup key m) [
    | some ids ↦
        let (left, empty) = EdgeIds.remove id ids in
        if empty then Assoc.remove key m else Assoc.insert key left m
    | none ↦ m
  ]
