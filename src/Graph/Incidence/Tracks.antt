-- ===== src/Graph/Incidence/Tracks.antt =====
-- A projection tracks a set of edges: a bucket holds an id exactly when the edge of that id has the
-- bucket's key.
use myko.Base.{◌≡◌, ◌∙◌, Bool, true, false, not, ◌&&◌, ◌||◌, Option, none, some}
use myko.Base.{arith, if◌then◌else◌, Bool-cases, Option-cases, inl, inr}
use myko.Base.Key.{Key, ◌==◌}
use myko.Base.Text.{Str, str_key}
use myko.Base.Assoc
use myko.Base.Assoc.{Assoc, lookup-insert, lookup-remove}
use myko.Base.OrdSet
use myko.Graph.EdgeIds
use myko.Graph.EdgeIds.{EdgeIds, one, many, ids}
use myko.Graph.EdgeIds.Refines.{IsValid, contains-ids, ids-insert, ids-remove, ids-IsAscending}
use myko.Graph.Types.{IndexedEdge}
use myko.Graph.Incidence.{insert_incidence, remove_incidence}

abbrev pub in_bucket : Str → Option EdgeIds → Bool
in_bucket id none = false
in_bucket id (some e) = EdgeIds.contains id e

abbrev pub ValidBucket : Option EdgeIds → Type 0
ValidBucket none = Unit
ValidBucket (some e) = IsValid e

contains-insert_id :
    (p id : Str) (e : EdgeIds)
    → IsValid e
    → EdgeIds.contains p (EdgeIds.insert id e) ≡ ((id == p) || EdgeIds.contains p e)
contains-insert_id p id e v =
    contains-ids p (EdgeIds.insert id e)
    ∙ rw ((ids-insert id e v).1, OrdSet.contains-insert p id (ids e), contains-ids p e)

contains-remove_id :
    (p id : Str) (e : EdgeIds)
    → IsValid e
    → (not (id == p) && EdgeIds.contains p e)
      ≡ (if (EdgeIds.remove id e).1 then false else EdgeIds.contains p (EdgeIds.remove id e).0)
unfolding OrdSet.contains
contains-remove_id p id e v =
    let (iff, kept) = ids-remove id e v in
    ground (
      arith,
      iff,
      kept,
      contains-ids p e,
      contains-ids p (EdgeIds.remove id e).0,
      OrdSet.contains-remove p id (ids e) (ids-IsAscending e v),
    )

-- The bucket after an insertion or a removal, where one of no ids is no bucket.
abbrev grow : Str → Option EdgeIds → EdgeIds
grow id none = one id
grow id (some b) = EdgeIds.insert id b

abbrev shrink : Str → Option EdgeIds → Option EdgeIds
shrink id none = none
shrink id (some b) = if (EdgeIds.remove id b).1 then none else some (EdgeIds.remove id b).0

IsValid-grow : (id : Str) (o : Option EdgeIds) → ValidBucket o → IsValid (grow id o)
IsValid-grow id none v = tt
IsValid-grow id (some b) v = (ids-insert id b v).0

valid-shrink : (id : Str) (o : Option EdgeIds) → ValidBucket o → ValidBucket (shrink id o)
valid-shrink id none v = tt
valid-shrink id (some b) v = elim (Bool-cases (EdgeIds.remove id b).1) [
  | inl q ↦ rw q tt
  | inr q ↦ rw q (((ids-remove id b v).1 q).0)
]

in_bucket-grow :
    (p id : Str) (o : Option EdgeIds)
    → ValidBucket o
    → EdgeIds.contains p (grow id o) ≡ ((id == p) || in_bucket p o)
unfolding EdgeIds.contains
in_bucket-grow p id none v = ground arith
in_bucket-grow p id (some b) v = contains-insert_id p id b v

in_bucket-shrink :
    (p id : Str) (o : Option EdgeIds)
    → ValidBucket o
    → in_bucket p (shrink id o) ≡ (not (id == p) && in_bucket p o)
in_bucket-shrink p id none v = ground arith
in_bucket-shrink p id (some b) v = ground (arith, contains-remove_id p id b v)

module _ {K : Type 0} ⦃k : Key K⦄ where
  abbrev pub has : K → Str → Assoc K EdgeIds → Bool
  has v p m = in_bucket p (Assoc.lookup v m)

  abbrev pub AllValid : Assoc K EdgeIds → Type 0
  AllValid m = (v : K) → ValidBucket (Assoc.lookup v m)

  lookup-insert_incidence :
      (v key : K) (id : Str) (m : Assoc K EdgeIds)
      → Assoc.lookup v (insert_incidence key id m)
        ≡ (if key == v then some (grow id (Assoc.lookup key m)) else Assoc.lookup v m)
  unfolding insert_incidence
  lookup-insert_incidence v key id m = elim (Option-cases (Assoc.lookup key m)) [
    | inl e ↦ rw (e, insert_incidence) (lookup-insert key v (one id) m)
    | inr (b, e) ↦ rw (e, insert_incidence) (lookup-insert key v (EdgeIds.insert id b) m)
  ]

  -- a removal, as far as one lookup sees it
  bucket_after : (v key : K) (id : Str) (m : Assoc K EdgeIds) (b : EdgeIds) → Assoc K EdgeIds
  bucket_after v key id m b =
      if (EdgeIds.remove id b).1
      then Assoc.remove key m
      else Assoc.insert key (EdgeIds.remove id b).0 m

  lookup-bucket_after :
      (v key : K) (id : Str) (m : Assoc K EdgeIds) (b : EdgeIds)
      → Assoc.lookup v (bucket_after v key id m b)
        ≡ (if key == v then shrink id (some b) else Assoc.lookup v m)
  unfolding bucket_after
  lookup-bucket_after v key id m b =
      ground (arith, lookup-insert key v (EdgeIds.remove id b).0 m, lookup-remove key v m)

  lookup-remove_incidence :
      (v key : K) (id : Str) (m : Assoc K EdgeIds)
      → Assoc.lookup v (remove_incidence key id m)
        ≡ (if key == v then shrink id (Assoc.lookup key m) else Assoc.lookup v m)
  unfolding bucket_after remove_incidence
  lookup-remove_incidence v key id m = elim (Option-cases (Assoc.lookup key m)) [
    | inl e ↦ rw (e, remove_incidence) (ground (arith, k.eq_of_cmp key v))
    | inr (b, e) ↦ rw (e, remove_incidence) (lookup-bucket_after v key id m b)
  ]

  has-insert_incidence :
      (v : K) (p : Str) (key : K) (id : Str) (m : Assoc K EdgeIds)
      → AllValid m
      → has v p (insert_incidence key id m) ≡ ((key == v && id == p) || has v p m)
  has-insert_incidence v p key id m ok =
      rw (lookup-insert_incidence v key id m)
        (ground (arith, in_bucket-grow p id (Assoc.lookup key m) (ok key), k.eq_of_cmp key v))

  has-remove_incidence :
      (v : K) (p : Str) (key : K) (id : Str) (m : Assoc K EdgeIds)
      → AllValid m
      → has v p (remove_incidence key id m) ≡ (not (key == v && id == p) && has v p m)
  has-remove_incidence v p key id m ok =
      rw (lookup-remove_incidence v key id m)
        (ground (arith, in_bucket-shrink p id (Assoc.lookup key m) (ok key), k.eq_of_cmp key v))

  insert_incidence-AllValid :
      (key : K) (id : Str) (m : Assoc K EdgeIds) → AllValid m → AllValid (insert_incidence key id m)
  insert_incidence-AllValid key id m ok v =
      rw (lookup-insert_incidence v key id m) (elim (Bool-cases (key == v)) [
        | inl q ↦ rw q (IsValid-grow id (Assoc.lookup key m) (ok key))
        | inr q ↦ rw q (ok v)
      ])

  remove_incidence-AllValid :
      (key : K) (id : Str) (m : Assoc K EdgeIds) → AllValid m → AllValid (remove_incidence key id m)
  remove_incidence-AllValid key id m ok v =
      rw (lookup-remove_incidence v key id m) (elim (Bool-cases (key == v)) [
        | inl q ↦ rw q (valid-shrink id (Assoc.lookup key m) (ok key))
        | inr q ↦ rw q (ok v)
      ])

-- A set of edges, as a function from their ids.
abbrev pub Edges : Type 0
Edges = Str → Option IndexedEdge

abbrev pub update : Edges → Str → Option IndexedEdge → Edges
update edges id e p = if id == p then e else edges p

module _ {K : Type 0} ⦃k : Key K⦄ (key_of : IndexedEdge → K) where
  abbrev pub keyed : K → Option IndexedEdge → Bool
  keyed v none = false
  keyed v (some e) = key_of e == v

  -- The edges are tracked where `projected`, and else the map is empty.
  pub record Tracks (projected : Bool) (m : Assoc K EdgeIds) (edges : Edges) : Type 0 where
    pub members : (v : K) (p : Str) → has v p m ≡ (projected && keyed v (edges p))
    pub valid : AllValid m

  pub Tracks-remove :
      (projected : Bool) (m : Assoc K EdgeIds) (edges : Edges) (id : Str) (e : IndexedEdge)
      → edges id ≡ some e
      → Tracks projected m edges
      → Tracks projected (remove_incidence (key_of e) id m) (update edges id none)
  Tracks-remove projected m edges id e q t = record {
    members = λ v p. ground (
      arith,
      has-remove_incidence v p (key_of e) id m t.valid,
      t.members v p,
      str_key.eq_of_cmp id p,
      k.eq_of_cmp (key_of e) v,
    );
    valid = remove_incidence-AllValid (key_of e) id m t.valid;
  }

  pub Tracks-insert :
      (projected : Bool) (m : Assoc K EdgeIds) (edges : Edges) (id : Str) (e : IndexedEdge)
      → edges id ≡ none
      → Tracks projected m edges
      → Tracks projected
          (if projected then insert_incidence (key_of e) id m else m)
          (update edges id (some e))
  Tracks-insert true m edges id e q t = record {
    members = λ v p. ground (
      arith,
      has-insert_incidence v p (key_of e) id m t.valid,
      t.members v p,
      str_key.eq_of_cmp id p,
      k.eq_of_cmp (key_of e) v,
    );
    valid = insert_incidence-AllValid (key_of e) id m t.valid;
  }
  Tracks-insert false m edges id e q t = record { members = t.members; valid = t.valid }

  -- The same, where the program only removes from a projection that is kept.
  pub Tracks-remove_if :
      (projected : Bool) (m : Assoc K EdgeIds) (edges : Edges) (id : Str) (e : IndexedEdge)
      → edges id ≡ some e
      → Tracks projected m edges
      → Tracks projected
          (if projected then remove_incidence (key_of e) id m else m)
          (update edges id none)
  Tracks-remove_if true m edges id e q t = Tracks-remove true m edges id e q t
  Tracks-remove_if false m edges id e q t = record { members = t.members; valid = t.valid }
