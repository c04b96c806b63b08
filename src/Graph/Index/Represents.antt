-- ===== src/Graph/Index/Represents.antt =====
-- The projections of an edge type follow the canonical edges through every mutation.
use myko.Base.{
  ◌≡◌, refl, fun_ext, ◌∙◌, Option-cases, Bool, true, ◌||◌, Option, none, some, inl, inr,
}
use myko.Base.{arith, if◌then◌else◌, is_some}
use myko.Base.Text.{Str, str_key}
use mathlib.Core.Path.{subst}
use myko.Base.Assoc
use myko.Base.Assoc.{lookup-insert, lookup-remove}
use myko.Graph.Types.{AnyItem, EntityRef, EndpointValue, EdgePairKey, IndexedEdge, end_a, end_b}
use myko.Graph.Types.{entity_key, endpoint_key, edge_pair_key}
use myko.Graph.Incidence.Tracks.{
  Tracks, Edges, Tracks-remove_if, update, Tracks-remove, Tracks-insert,
}
use myko.Graph.Index.{
  EdgeRegistration, EdgeTypeState, GraphIndex, projects_endpoint, pair_key, projects_pairs,
  remove_indexed, insert_indexed, indexed, apply_old, apply_new, apply_type,
}

abbrev pub a_of : IndexedEdge → EndpointValue
a_of e = e.endpoints.a

abbrev pub b_of : IndexedEdge → EndpointValue
b_of e = e.endpoints.b

abbrev pub a_entity_of : IndexedEdge → EntityRef
a_entity_of e = e.endpoints.a.entity

abbrev pub b_entity_of : IndexedEdge → EntityRef
b_entity_of e = e.endpoints.b.entity

abbrev pub pair_of : EdgeRegistration → IndexedEdge → EdgePairKey
pair_of r e = pair_key r e.endpoints e.scope

-- The projections of an edge type are those of `edges`, where its ends are projected as the two
-- flags say.
pub record Represents (with_a with_b : Bool) (r : EdgeRegistration) (st : EdgeTypeState)
    (edges : Edges) : Type 0 where
  pub tracks_a : Tracks a_of with_a st.at_a edges
  pub tracks_b : Tracks b_of with_b st.at_b edges
  pub tracks_a_entities : Tracks a_entity_of with_a st.a_entities edges
  pub tracks_b_entities : Tracks b_entity_of with_b st.b_entities edges
  pub tracks_pairs : Tracks (pair_of r) (projects_pairs r) st.pairs edges
  pub retained :
      (id : Str) → Assoc.lookup id st.edges ≡ (if with_a || with_b then edges id else none)

abbrev pub edge_of : EdgeRegistration → Option AnyItem → Option IndexedEdge
edge_of r none = none
edge_of r (some item) = indexed r item

-- The item, if there is one, has this id, and the extractors succeed on it.
abbrev pub IsItem : EdgeRegistration → Str → Option AnyItem → Type 0
IsItem r id none = Unit
IsItem r id (some item) = (item.id ≡ id) × (is_some (indexed r item) ≡ true)

module _ (g : GraphIndex) (r : EdgeRegistration) where
  abbrev pub with_a : Bool
  with_a = projects_endpoint g r.edge_type end_a

  abbrev pub with_b : Bool
  with_b = projects_endpoint g r.edge_type end_b

  indexed-id : (item : AnyItem) {e : IndexedEdge} → indexed r item ≡ some e → e.id ≡ item.id
  unfolding indexed
  indexed-id item h = ground arith

  remove_indexed-Represents :
      (st : EdgeTypeState) (edges : Edges) (e : IndexedEdge)
      → edges e.id ≡ some e
      → Represents with_a with_b r st edges
      → Represents with_a with_b r
          (remove_indexed r (record st { edges = Assoc.remove e.id st.edges }) e)
          (update edges e.id none)
  unfolding remove_indexed
  remove_indexed-Represents st edges e q v = record {
    tracks_a = Tracks-remove a_of with_a st.at_a edges e.id e q v.tracks_a;
    tracks_b = Tracks-remove b_of with_b st.at_b edges e.id e q v.tracks_b;
    tracks_a_entities =
        Tracks-remove a_entity_of with_a st.a_entities edges e.id e q v.tracks_a_entities;
    tracks_b_entities =
        Tracks-remove b_entity_of with_b st.b_entities edges e.id e q v.tracks_b_entities;
    tracks_pairs =
        Tracks-remove_if (pair_of r) (projects_pairs r) st.pairs edges e.id e q v.tracks_pairs;
    retained = λ id. ground (arith, lookup-remove e.id id st.edges, v.retained id);
  }

  insert_indexed-Represents :
      (st : EdgeTypeState) (edges : Edges) (e : IndexedEdge)
      → edges e.id ≡ none
      → Represents with_a with_b r st edges
      → Represents with_a with_b r (insert_indexed g r st e) (update edges e.id (some e))
  unfolding insert_indexed
  insert_indexed-Represents st edges e q v = record {
    tracks_a = Tracks-insert a_of with_a st.at_a edges e.id e q v.tracks_a;
    tracks_b = Tracks-insert b_of with_b st.at_b edges e.id e q v.tracks_b;
    tracks_a_entities =
        Tracks-insert a_entity_of with_a st.a_entities edges e.id e q v.tracks_a_entities;
    tracks_b_entities =
        Tracks-insert b_entity_of with_b st.b_entities edges e.id e q v.tracks_b_entities;
    tracks_pairs =
        Tracks-insert (pair_of r) (projects_pairs r) st.pairs edges e.id e q v.tracks_pairs;
    retained = λ id. ground (arith, lookup-insert e.id id e st.edges, v.retained id);
  }

  update-none : (edges : Edges) (id : Str) → edges id ≡ none → edges ≡ update edges id none
  update-none edges id q = fun_ext λ p. ground (arith, str_key.eq_of_cmp id p)

  update_twice :
      (edges : Edges) (id : Str) (x y : Option IndexedEdge)
      → update (update edges id x) id y ≡ update edges id y
  update_twice edges id x y = fun_ext λ p. ground arith

  apply_old-Represents :
      (st : EdgeTypeState) (edges : Edges) (id : Str) (old : Option AnyItem)
      → IsItem r id old
      → edges id ≡ edge_of r old
      → Represents with_a with_b r st edges
      → ((apply_old r st old).1 ≡ true)
        × Represents with_a with_b r (apply_old r st old).0 (update edges id none)
  unfolding apply_old
  apply_old-Represents st edges id none ok q v =
      (refl, subst (λ es. Represents with_a with_b r st es) (update-none edges id q) v)
  apply_old-Represents st edges id (some item) ok q v = elim (Option-cases (indexed r item)) [
    | inl e ↦ absurd (no_edge e ok.1)
    | inr (e, h) ↦
        let same : e.id ≡ id = indexed-id item h ∙ ok.0 in
        let here : edges e.id ≡ some e = cc in
        let there : item.id ≡ e.id = cc in
        rw (h, apply_old, there, ← same) (refl, remove_indexed-Represents st edges e here v)
  ]
    where
      no_edge : indexed r item ≡ none → is_some (indexed r item) ≡ true → ⊥
      no_edge e h = cc (e, h)

  apply_new-Represents :
      (st : EdgeTypeState) (edges : Edges) (id : Str) (new : Option AnyItem)
      → IsItem r id new
      → edges id ≡ none
      → Represents with_a with_b r st edges
      → ((apply_new g r st new).1 ≡ true)
        × Represents with_a with_b r (apply_new g r st new).0 (update edges id (edge_of r new))
  unfolding apply_new
  apply_new-Represents st edges id none ok q v =
      (refl, subst (λ es. Represents with_a with_b r st es) (update-none edges id q) v)
  apply_new-Represents st edges id (some item) ok q v = elim (Option-cases (indexed r item)) [
    | inl e ↦ absurd (no_edge e ok.1)
    | inr (e, h) ↦
        let same : e.id ≡ id = indexed-id item h ∙ ok.0 in
        let here : edges e.id ≡ none = cc in
        rw (h, apply_new, ← same) (refl, insert_indexed-Represents st edges e here v)
  ]
    where
      no_edge : indexed r item ≡ none → is_some (indexed r item) ≡ true → ⊥
      no_edge e h = cc (e, h)

  -- A mutation of the edge `id` whose old value is the canonical one succeeds, and leaves every
  -- projection of the edge type as that of the edges with the new value in place of the old.
  pub apply_type-Represents :
      (st : EdgeTypeState) (edges : Edges) (id : Str) (old new : Option AnyItem)
      → IsItem r id old
      → IsItem r id new
      → edges id ≡ edge_of r old
      → Represents with_a with_b r st edges
      → ((apply_type g r st old new).1 ≡ true)
        × Represents with_a with_b r (apply_type g r st old new).0 (update edges id (edge_of r new))
  unfolding apply_type
  apply_type-Represents st edges id old new ok_old ok_new q v =
      let (done_old, cleared) = apply_old-Represents st edges id old ok_old q v in
      let gone : update edges id none id ≡ none = ground (arith, str_key.cmp_refl id) in
      let (done_new, filled) =
        apply_new-Represents (apply_old r st old).0 (update edges id none) id new ok_new gone
          cleared in
      let v' = rw (update_twice edges id none (edge_of r new)) at filled in
      rw (done_old, done_new)
        (
          refl,
          record {
            tracks_a = v'.tracks_a;
            tracks_b = v'.tracks_b;
            tracks_a_entities = v'.tracks_a_entities;
            tracks_b_entities = v'.tracks_b_entities;
            tracks_pairs = v'.tracks_pairs;
            retained = v'.retained;
          },
        )
