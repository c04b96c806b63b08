-- ===== src/Server/Relationships/Ensure/Covered.antt =====
-- The relation work of an `ensure_for` leaves no combination of dependency ids without a derived item
-- or a reservation for one.
use myko.Base.{◌≡◌, refl, Bool, true, false, not, ◌&&◌, ◌||◌, some}
use myko.Base.{is_some, if◌then◌else◌, List, [], ◌∷◌, arith, Bool-cases, Option-cases}
use myko.Base.{inl, inr, sym, ◌∙◌, any, map, none}
use mathlib.Core.Path.{subst}
use myko.Base.Key.{Key, ◌==◌, pair_key, list_key}
use myko.Base.Text.{Str, str_key}
use myko.Base.OrdSet
use myko.Base.OrdSet.{contains-filter}
use myko.Graph.Types.{AnyItem}
use myko.Server.Relationships.{EnsureForDependency, EnsureForLookup, Store, Stores}
use myko.Server.Relationships.Combinations.{cartesian_product, ids_of_type}
use myko.Server.Relationships.Combinations.Product.{
  same, has_combo, takes_one_of_each, cartesian_product-members,
}
use myko.Server.Relationships.Combinations.{get_dependency_combinations, all_match, find_match}
use myko.Server.Relationships.Combinations.{find_ensure_for_entity_in}
use myko.Server.Relationships.World.{World, ok, err, Run, try, Publisher}
use myko.Server.Relationships.World.{is_in_flight, reserve, release, Reservation}
use myko.Server.Relationships.Ensure.{Combo, collect_fks, existing_combinations, entity_exists}
use myko.Server.Relationships.Ensure.{after_publish, ensure_combination, ensure_missing}
use myko.Server.Relationships.Ensure.{ensure_lookup}

-- The foreign keys of an item are the ids of a combination, one for each dependency.
abbrev pub has_fks : List EnsureForDependency → Combo → AnyItem → Bool
has_fks [] [] item = true
has_fks [] (_ ∷ _) item = false
has_fks (_ ∷ _) [] item = false
has_fks (dependency ∷ dependencies) (id ∷ combo) item =
    (elim (dependency.extract_fk item) [ none ↦ false | some fk ↦ fk == id ])
    && has_fks dependencies combo item

abbrev pub has_derived : List EnsureForDependency → Combo → Store → Bool
has_derived dependencies combo [] = false
has_derived dependencies combo ((_, item) ∷ items) =
    has_fks dependencies combo item || has_derived dependencies combo items

-- An item with these foreign keys is stored, or its creation is under way.
abbrev pub covered : EnsureForLookup → Combo → World → Bool
covered lookup combo w =
    has_derived lookup.dependencies combo (w.stores lookup.local_type)
    || is_in_flight (lookup.local_type, combo) w

abbrev combo_eq : Key Combo
combo_eq = list_key

abbrev pub reservation_eq : Key Reservation
reservation_eq = pair_key

-- one id for each dependency
abbrev fits : List EnsureForDependency → Combo → Bool
fits [] [] = true
fits [] (_ ∷ _) = false
fits (_ ∷ _) [] = false
fits (_ ∷ dependencies) (_ ∷ combo) = fits dependencies combo

has_fks-collect :
    (dependencies : List EnsureForDependency) (item : AnyItem) (fks : Combo)
    → collect_fks dependencies item ≡ some fks
    → has_fks dependencies fks item ≡ true
unfolding collect_fks
has_fks-collect [] item [] h = refl
has_fks-collect [] item (fk ∷ fks) h = absurd (ground (arith, h))
has_fks-collect (d ∷ dependencies) item [] h = absurd (ground (arith, h))
has_fks-collect (d ∷ dependencies) item (fk ∷ fks) h =
    ground (arith, h, has_fks-collect dependencies item fks, str_key.cmp_refl fk)

-- A combination of the stored items has a derived item.
has_derived-existing :
    (dependencies : List EnsureForDependency) (combo : Combo) (items : Store)
    → OrdSet.contains combo (existing_combinations dependencies items) ≡ true
    → has_derived dependencies combo items ≡ true
unfolding existing_combinations OrdSet.contains
has_derived-existing dependencies combo [] h = absurd (ground (arith, h))
has_derived-existing dependencies combo ((_, item) ∷ items) h =
    elim (Option-cases (collect_fks dependencies item)) [
      | inl e ↦ ground (arith, h, e, has_derived-existing dependencies combo items)
      | inr (fks, e) ↦ ground (
        arith,
        h,
        e,
        has_derived-existing dependencies combo items,
        combo_eq.eq_of_cmp fks combo,
        has_fks-collect dependencies item fks e,
      )
    ]

has_fks-all_match :
    (dependencies : List EnsureForDependency) (combo : Combo) (item : AnyItem)
    → fits dependencies combo ≡ true
    → all_match dependencies combo item ≡ true
    → has_fks dependencies combo item ≡ true
unfolding all_match
has_fks-all_match [] [] item f h = refl
has_fks-all_match [] (id ∷ combo) item f h = absurd (ground (arith, f))
has_fks-all_match (d ∷ dependencies) [] item f h = absurd (ground (arith, f))
has_fks-all_match (d ∷ dependencies) (id ∷ combo) item f h =
    ground (arith, f, h, has_fks-all_match dependencies combo item)

has_derived-find_match :
    (dependencies : List EnsureForDependency) (combo : Combo) (items : Store)
    → fits dependencies combo ≡ true
    → is_some (find_match items dependencies combo) ≡ true
    → has_derived dependencies combo items ≡ true
unfolding find_match
has_derived-find_match dependencies combo [] f h = absurd (ground (arith, h))
has_derived-find_match dependencies combo ((_, item) ∷ items) f h = ground (
  arith,
  f,
  h,
  has_fks-all_match dependencies combo item,
  has_derived-find_match dependencies combo items,
)

-- What the search finds is derived.
has_derived-find :
    (dependencies : List EnsureForDependency) (combo : Combo) (items : Store)
    → fits dependencies combo ≡ true
    → is_some (find_ensure_for_entity_in items dependencies combo) ≡ true
    → has_derived dependencies combo items ≡ true
unfolding find_ensure_for_entity_in
has_derived-find [] combo items f h = absurd (ground (arith, h))
has_derived-find (d ∷ dependencies) [] items f h = absurd (ground (arith, f))
has_derived-find (d ∷ dependencies) (id ∷ combo) items f h =
    has_derived-find_match (d ∷ dependencies) (id ∷ combo) items f h

same_refl : (combo : Combo) → same combo combo ≡ true
unfolding same
same_refl [] = refl
same_refl (x ∷ xs) = ground (arith, str_key.cmp_refl x, same_refl xs)

has_combo-contains :
    (combo : Combo) (combos : List Combo)
    → OrdSet.contains combo combos ≡ true
    → has_combo combo combos ≡ true
unfolding OrdSet.contains any
has_combo-contains combo [] h = absurd (ground (arith, h))
has_combo-contains combo (c ∷ combos) h =
    ground (arith, h, has_combo-contains combo combos, combo_eq.eq_of_cmp c combo, same_refl combo)

fits-takes :
    (f : EnsureForDependency → List Str) (dependencies : List EnsureForDependency) (combo : Combo)
    → takes_one_of_each combo (map f dependencies) ≡ true
    → fits dependencies combo ≡ true
unfolding takes_one_of_each
fits-takes f [] [] h = refl
fits-takes f [] (id ∷ combo) h = absurd (ground (arith, h))
fits-takes f (d ∷ dependencies) [] h = absurd (ground (arith, h))
fits-takes f (d ∷ dependencies) (id ∷ combo) h = fits-takes f dependencies combo (ground (arith, h))

fits-combinations :
    (stores : Stores) (dependencies : List EnsureForDependency) (combo : Combo)
    → OrdSet.contains combo (get_dependency_combinations stores dependencies) ≡ true
    → fits dependencies combo ≡ true
unfolding get_dependency_combinations OrdSet.contains
fits-combinations stores [] combo h = absurd (ground (arith, h))
fits-combinations stores (d ∷ dependencies) combo h =
    let sets = map (ids_of_type stores) (d ∷ dependencies) in
    fits-takes (ids_of_type stores) (d ∷ dependencies) combo (
      sym
        (cartesian_product-members combo (ids_of_type stores d)
          (map (ids_of_type stores) dependencies)).0
      ∙ has_combo-contains combo (cartesian_product sets) h)

pub is_in_flight-release :
    (r s : Reservation) (w : World)
    → is_in_flight r (release s w) ≡ (not (r == s) && is_in_flight r w)
is_in_flight-release r s w = contains-filter r (λ o. not (o == s)) w.ensure_for_in_flight

-- reservations of one type differ where their combinations do
pair_apart :
    (t : Str) (combo c : Combo)
    → (combo == c) ≡ false
    → reservation_eq.cmp (t, combo) (t, c) ≡ combo_eq.cmp combo c
unfolding pair_key
pair_apart t combo c h = ground (arith, str_key.cmp_refl t)

module _ {E : Type 0} (publisher : Publisher E) where
  -- What a publication may do to the combinations: a derived item is not lost, and a reservation is
  -- given up only once its item is stored.
  abbrev pub KeepsCovered : EnsureForLookup → Type 0
  KeepsCovered lookup =
      (item : AnyItem) (combo : Combo) (w : World)
      → covered lookup combo w ≡ true
      → covered lookup combo (publisher.publish_set item w).0 ≡ true

  Covers : EnsureForLookup → World → List Combo → World → Type 0
  Covers lookup before combos after =
      (c : Combo)
      → (covered lookup c before || OrdSet.contains c combos) ≡ true
      → covered lookup c after ≡ true

  CoversIfOk : {A : Type 0} → EnsureForLookup → World → List Combo → Run E A → Type 0
  CoversIfOk lookup before combos (after, ok _) = Covers lookup before combos after
  CoversIfOk lookup before combos (after, err _) = Unit

  enter_covers :
      (lookup : EnsureForLookup) (combo c : Combo) (w : World)
      → (covered lookup c w || OrdSet.contains c (combo ∷ [])) ≡ true
      → covered lookup c (reserve (lookup.local_type, combo) w) ≡ true
  unfolding OrdSet.contains
  enter_covers lookup combo c w h = ground (
    arith,
    h,
    combo_eq.eq_of_cmp combo c,
    reservation_eq.cmp_refl (lookup.local_type, combo),
    str_key.cmp_refl lookup.local_type,
  )

  already_covers :
      (lookup : EnsureForLookup) (combo c : Combo) (w : World)
      → is_in_flight (lookup.local_type, combo) w ≡ true
      → (covered lookup c w || OrdSet.contains c (combo ∷ [])) ≡ true
      → covered lookup c w ≡ true
  unfolding OrdSet.contains
  already_covers lookup combo c w e h = ground (arith, e, h, combo_eq.eq_of_cmp combo c)

  exists_covers :
      (lookup : EnsureForLookup) (combo c : Combo) (w : World)
      → fits lookup.dependencies combo ≡ true
      → entity_exists lookup combo w ≡ true
      → (covered lookup c w || OrdSet.contains c (combo ∷ [])) ≡ true
      → covered lookup c (release (lookup.local_type, combo) (reserve (lookup.local_type, combo) w))
        ≡ true
  unfolding OrdSet.contains
  exists_covers lookup combo c w f e h =
      let stored = has_derived-find lookup.dependencies combo (w.stores lookup.local_type) f e in
      let r : Reservation = (lookup.local_type, combo) in
      let s : Reservation = (lookup.local_type, c) in
      elim (Bool-cases (combo == c)) [
        | inl q ↦ ground (arith, stored, combo_eq.eq_of_cmp combo c, q)
        | inr q ↦ ground (
          arith,
          h,
          is_in_flight-release s r (reserve r w),
          reservation_eq.cmp_flip s r,
          pair_apart lookup.local_type combo c q,
        )
      ]

  published_covers :
      (lookup : EnsureForLookup) (combo : Combo) (w : World) (r : Run E Unit)
      → ((c : Combo)
          → covered lookup c (reserve (lookup.local_type, combo) w) ≡ true
          → covered lookup c r.0 ≡ true)
      → CoversIfOk lookup w (combo ∷ []) (after_publish publisher (lookup.local_type, combo) r)
  unfolding CoversIfOk Covers
  published_covers lookup combo w (after, ok _) keeps =
      λ c h. keeps c (enter_covers lookup combo c w h)
  published_covers lookup combo w (after, err e) keeps = tt

  ensure_combination-covers :
      (lookup : EnsureForLookup) (combo : Combo) (w : World)
      → KeepsCovered lookup
      → fits lookup.dependencies combo ≡ true
      → CoversIfOk lookup w (combo ∷ []) (ensure_combination publisher lookup combo w)
  unfolding ensure_combination CoversIfOk Covers OrdSet.contains
  ensure_combination-covers lookup combo w keeps fit =
      let r : Reservation = (lookup.local_type, combo) in
      elim (Bool-cases (is_in_flight r w)) [
        | inl e ↦ rw (e, ensure_combination) (λ c h. already_covers lookup combo c w e h)
        | inr e ↦ elim (Bool-cases (entity_exists lookup combo w)) [
          | inl q ↦ rw (e, q, ensure_combination) (λ c h. exists_covers lookup combo c w fit q h)
          | inr q ↦
              rw (e, q, ensure_combination)
                (published_covers lookup combo w
                  (publisher.publish_set (lookup.make_entity combo) (reserve r w))
                  (λ c. keeps (lookup.make_entity combo) c (reserve r w)))
        ]
      ]

  ensure_missing-covers :
      (lookup : EnsureForLookup) (combos existing : List Combo) (w : World)
      → KeepsCovered lookup
      → ((c : Combo) → OrdSet.contains c combos ≡ true → fits lookup.dependencies c ≡ true)
      → ((c : Combo) → OrdSet.contains c existing ≡ true → covered lookup c w ≡ true)
      → CoversIfOk lookup w combos (ensure_missing publisher lookup combos existing w)
  unfolding ensure_missing CoversIfOk Covers OrdSet.contains
  ensure_missing-covers lookup [] existing w keeps fit known = λ c h. ground (arith, h)
  ensure_missing-covers lookup (combo ∷ combos) existing w keeps fit known =
      elim (Bool-cases (OrdSet.contains combo existing)) [
        | inl e ↦
            rw (e, ensure_missing)
              (skip (ensure_missing publisher lookup combos existing w) (known combo e) (
                ensure_missing-covers lookup combos existing w keeps
                  (λ c m. fit c (ground (arith, m))) known))
        | inr e ↦
            rw (e, ensure_missing)
              (go (ensure_combination publisher lookup combo w)
                (ensure_combination-covers lookup combo w keeps
                  (fit combo (ground (arith, combo_eq.cmp_refl combo))))
                (λ next after.
                  ensure_missing-covers lookup combos next after keeps
                    (λ c m. fit c (ground (arith, m)))))
      ]
    where
      skip :
          (r : Run E Unit)
          → covered lookup combo w ≡ true
          → CoversIfOk lookup w combos r
          → CoversIfOk lookup w (combo ∷ combos) r
      skip (after, err e) h f = tt
      skip (after, ok _) h f = λ c q. f c (ground (arith, h, q, combo_eq.eq_of_cmp combo c))

      still :
          (after : World) (created : Bool)
          → Covers lookup w (combo ∷ []) after
          → (c : Combo) → OrdSet.contains c (if created then combo ∷ existing else existing) ≡ true
          → covered lookup c after ≡ true
      still after true h c q = h c (ground (arith, q, known c, combo_eq.cmp_refl combo))
      still after false h c q = h c (ground (arith, q, known c))

      join :
          (after : World) (r : Run E Unit)
          → Covers lookup w (combo ∷ []) after
          → CoversIfOk lookup after combos r
          → CoversIfOk lookup w (combo ∷ combos) r
      join after (last, err e) h f = tt
      join after (last, ok _) h f = λ c q. f c (ground (arith, h c, q))

      go :
          (r : Run E Bool)
          → CoversIfOk lookup w (combo ∷ []) r
          → ((next : List Combo) (after : World)
              → ((c : Combo) → OrdSet.contains c next ≡ true → covered lookup c after ≡ true)
              → CoversIfOk lookup after combos (ensure_missing publisher lookup combos next after))
          → CoversIfOk lookup w (combo ∷ combos) (
              try r (λ created after.
                ensure_missing publisher lookup combos
                  (if created then combo ∷ existing else existing)
                  after))
      go (after, err e) h rest = tt
      go (after, ok created) h rest =
          let next = if created then combo ∷ existing else existing in
          join after (ensure_missing publisher lookup combos next after) h
            (rest next after (still after created h))

  covers_all :
      (lookup : EnsureForLookup) (combo : Combo) (combos : List Combo) (before : World)
      (r : Run E Unit) (after : World)
      → CoversIfOk lookup before combos r
      → r ≡ (after, ok tt)
      → OrdSet.contains combo combos ≡ true
      → covered lookup combo after ≡ true
  unfolding CoversIfOk Covers
  covers_all lookup combo combos before r after h e q =
      let all = subst (CoversIfOk lookup before combos) e h in all combo (ground (arith, q))

  -- When the relation work of a lookup ends without an error, then for every combination of the
  -- dependencies' ids that there was at its start, an item of the derived type is stored whose
  -- foreign keys are the ids of the combination, one for each dependency, or such an item is reserved.
  -- It is assumed of a publication that it makes no combination lose both, so that it deletes no
  -- derived item, and gives up a reservation only when its item is stored.
  pub ensure_lookup-covered :
      (lookup : EnsureForLookup) (combo : Combo) (w after : World)
      → KeepsCovered lookup
      → ensure_lookup publisher lookup w ≡ (after, ok tt)
      → OrdSet.contains combo (get_dependency_combinations w.stores lookup.dependencies) ≡ true
      → covered lookup combo after ≡ true
  unfolding ensure_lookup
  ensure_lookup-covered lookup combo w after keeps h q =
      let combos = get_dependency_combinations w.stores lookup.dependencies in
      let items = w.stores lookup.local_type in
      let existing = existing_combinations lookup.dependencies items in
      covers_all lookup combo combos w (ensure_missing publisher lookup combos existing w) after
        (ensure_missing-covers lookup combos existing w keeps
          (fits-combinations w.stores lookup.dependencies)
          (λ c e. ground (arith, has_derived-existing lookup.dependencies c items e)))
        h q
