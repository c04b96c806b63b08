-- ===== src/Search/Interner/Slots.antt =====
-- Slots and ids stay in one-to-one correspondence, and no slot is free twice or while it is in use.
use Prim.Native.Nat.{zero, suc}
use mathlib.Core.Path.{subst}
use myko.Base.{
  ℕ, ◌≡◌, refl, sym, ap, ◌∙◌, ◌≤◌, ◌<◌, true, false, Option, none, some, List, [], ◌∷◌, ◌++◌,
}
use myko.Base.{
  arith, if◌then◌else◌, eqb, any, length, get_elem?, set, Option-cases, Bool-cases, inl, inr,
}
use myko.Base.Key.{Key, ◌==◌, eq_of_==, ==_refl}
use myko.Base.Assoc
use myko.Base.Assoc.{Assoc, lookup-insert, lookup-remove}
use myko.Search.Interner.{
  IdInterner, u32_max, u32_or_max, assign, intern, lookup, id_of, release, new,
}

module _ {A : Type 0} where
  get_elem?-set :
      (xs : List A) (i j : ℕ) (v : A)
      → i < length xs
      → get_elem? (set xs i v) j ≡ (if eqb i j then some v else get_elem? xs j)
  get_elem?-set [] i j v h = absurd (omega (arith, h))
  get_elem?-set (x ∷ xs) zero zero v h = ground arith
  get_elem?-set (x ∷ xs) zero (suc j) v h = ground arith
  get_elem?-set (x ∷ xs) (suc i) zero v h = ground arith
  get_elem?-set (x ∷ xs) (suc i) (suc j) v h = ground (arith, get_elem?-set xs i j v)

  get_elem?-push :
      (xs : List A) (j : ℕ) (v : A)
      → get_elem? (xs ++ (v ∷ [])) j ≡ (if eqb (length xs) j then some v else get_elem? xs j)
  get_elem?-push [] zero v = ground arith
  get_elem?-push [] (suc j) v = ground arith
  get_elem?-push (x ∷ xs) zero v = ground arith
  get_elem?-push (x ∷ xs) (suc j) v = ground (arith, get_elem?-push xs j v)

  lt-get_elem? : (xs : List A) (i : ℕ) (v : A) → get_elem? xs i ≡ some v → i < length xs
  lt-get_elem? [] i v h = cc
  lt-get_elem? (x ∷ xs) zero v h = omega arith
  lt-get_elem? (x ∷ xs) (suc i) v h = omega (arith, lt-get_elem? xs i v h)

u32_or_max_fits : (n : ℕ) → n ≤ u32_max → u32_or_max n ≡ n
unfolding u32_or_max
u32_or_max_fits n h = ground arith

module _ {I : Type 0} ⦃k : Key I⦄ where
  abbrev AllFree : List (Option I) → List ℕ → Type 0
  AllFree r [] = Unit
  AllFree r (s ∷ f) = (get_elem? r s ≡ some none) × ((any (eqb s) f ≡ false) × AllFree r f)

  -- what holds between the calls
  pub record IsConsistent (t : IdInterner I) : Type 0 where
    pub slot_holds : (q : I) (s : ℕ) → lookup q t ≡ some s → get_elem? t.reverse s ≡ some (some q)
    pub held_slot : (q : I) (s : ℕ) → get_elem? t.reverse s ≡ some (some q) → lookup q t ≡ some s
    pub all_free : AllFree t.reverse t.free_list

  AllFree-set :
      (r : List (Option I)) (f : List ℕ) (s : ℕ) (v : Option I)
      → s < length r
      → any (eqb s) f ≡ false
      → AllFree r f
      → AllFree (set r s v) f
  unfolding any
  AllFree-set r [] s v h n a = tt
  AllFree-set r (z ∷ f) s v h n a = (
    ground (arith, get_elem?-set r s z v h, a.0),
    (a.1.0, AllFree-set r f s v h (ground arith) a.1.1),
  )

  AllFree-push :
      (r : List (Option I)) (f : List ℕ) (v : Option I) → AllFree r f → AllFree (r ++ (v ∷ [])) f
  AllFree-push r [] v a = tt
  AllFree-push r (z ∷ f) v a = (
    ground (arith, get_elem?-push r z v, lt-get_elem? r z none a.0, a.0),
    (a.1.0, AllFree-push r f v a.1.1),
  )

  in_use_not_free :
      (r : List (Option I)) (f : List ℕ) (s : ℕ) (q : I)
      → get_elem? r s ≡ some (some q)
      → AllFree r f
      → any (eqb s) f ≡ false
  unfolding any
  in_use_not_free r [] s q h a = refl
  in_use_not_free r (z ∷ f) s q h a = elim (Bool-cases (eqb s z)) [
    | inl e ↦ absurd (cc (h, a.0, ap (get_elem? r) (same e)))
    | inr e ↦ rw (e) (in_use_not_free r f s q h a.1.1)
  ]
    where
      same : eqb s z ≡ true → s ≡ z
      same e = ground (arith, e)

  -- The empty interner is consistent.
  pub new-IsConsistent : IsConsistent (new {I = I})
  unfolding new lookup Assoc.lookup
  new-IsConsistent = record { slot_holds = λ q s h. cc; held_slot = λ q s h. cc; all_free = tt }

  module _ (t u : IdInterner I) (id : I) (s : ℕ) (c : IsConsistent t) (fresh : lookup id t ≡ none)
      (unused : (q : I) → get_elem? t.reverse s ≡ some (some q) → ⊥)
      (mapped : (q : I) → lookup q u ≡ (if id == q then some s else lookup q t))
      (placed : (j : ℕ)
        → get_elem? u.reverse j ≡ (if eqb s j then some (some id) else get_elem? t.reverse j))
      (free : AllFree u.reverse u.free_list) where
    placed_holds : (q : I) (z : ℕ) → lookup q u ≡ some z → get_elem? u.reverse z ≡ some (some q)
    placed_holds q z h =
        ground (arith, mapped q, placed z, eq_of_== id q, unused q, c.slot_holds q z)

    placed_held : (q : I) (z : ℕ) → get_elem? u.reverse z ≡ some (some q) → lookup q u ≡ some z
    placed_held q z h =
        ground (arith, mapped q, placed z, eq_of_== id q, ==_refl id, c.held_slot q z, fresh)

    placed-IsConsistent : IsConsistent u
    placed-IsConsistent = record {
      slot_holds = placed_holds;
      held_slot = placed_held;
      all_free = free;
    }

  -- No slot beyond the last one is in use.
  beyond : (r : List (Option I)) (q : I) → get_elem? r (length r) ≡ some (some q) → ⊥
  beyond r q h = absurd (omega (arith, lt-get_elem? r (length r) (some q) h))

  assign-IsConsistent :
      (id : I) (t : IdInterner I)
      → IsConsistent t
      → lookup id t ≡ none
      → length t.reverse ≤ u32_max
      → IsConsistent (assign id t).1 × (lookup id (assign id t).1 ≡ some (assign id t).0)
  unfolding assign lookup
  assign-IsConsistent id t c fresh room = go t.free_list c.all_free refl
    where
      go :
          (f : List ℕ)
          → AllFree t.reverse f
          → t.free_list ≡ f
          → IsConsistent (assign id t).1 × (lookup id (assign id t).1 ≡ some (assign id t).0)
      go (s ∷ f) a e = rw (e) (
        placed-IsConsistent t
            (record {
              forward = Assoc.insert id s t.forward;
              reverse = set t.reverse s (some id);
              free_list = f;
            })
            id s c fresh (λ q h. cc (h, a.0)) (λ q. lookup-insert id q s t.forward)
            (λ j. get_elem?-set t.reverse s j (some id) (lt-get_elem? t.reverse s none a.0))
            (AllFree-set t.reverse f s (some id) (lt-get_elem? t.reverse s none a.0) a.1.0 a.1.1),
        ground (arith, lookup-insert id id s t.forward, ==_refl id),
      )
      go [] a e =
          rw (e, u32_or_max_fits (length t.reverse) room)
            (
              placed-IsConsistent t
                  (record {
                    forward = Assoc.insert id (length t.reverse) t.forward;
                    reverse = t.reverse ++ (some id ∷ []);
                    free_list = [];
                  })
                  id (length t.reverse) c fresh (beyond t.reverse)
                  (λ q. lookup-insert id q (length t.reverse) t.forward)
                  (λ j. get_elem?-push t.reverse j (some id)) tt,
              ground (arith, lookup-insert id id (length t.reverse) t.forward, ==_refl id),
            )

  intern_known : (id : I) (t : IdInterner I) (s : ℕ) → lookup id t ≡ some s → intern id t ≡ (s, t)
  unfolding intern lookup
  intern_known id t s e = rw (e, intern) refl

  intern_unknown : (id : I) (t : IdInterner I) → lookup id t ≡ none → intern id t ≡ assign id t
  unfolding intern lookup
  intern_unknown id t e = rw (e, intern) refl

  abbrev Interned : I → ℕ × IdInterner I → Type 0
  Interned id r = IsConsistent r.1 × ((lookup id r.1 ≡ some r.0) × (id_of r.0 r.1 ≡ some id))

  leads_back :
      (id : I) (r : ℕ × IdInterner I) → IsConsistent r.1 → lookup id r.1 ≡ some r.0 → Interned id r
  unfolding id_of
  leads_back id r c h = (c, (h, rw (c.slot_holds id r.0 h, id_of) refl))

  -- Interning an id in a consistent interner keeps it consistent, provided that the next slot fits
  -- `u32`, and the slot that is returned is the one that the id is found at and that leads back to the id.
  pub intern-IsConsistent :
      (id : I) (t : IdInterner I)
      → IsConsistent t
      → length t.reverse ≤ u32_max
      → IsConsistent (intern id t).1
        × ((lookup id (intern id t).1 ≡ some (intern id t).0)
            × (id_of (intern id t).0 (intern id t).1 ≡ some id))
  intern-IsConsistent id t c room = elim (Option-cases (lookup id t)) [
    | inl e ↦
        let placed = assign-IsConsistent id t c e room in
        subst (Interned id) (sym (intern_unknown id t e))
          (leads_back id (assign id t) placed.0 placed.1)
    | inr (s, e) ↦ subst (Interned id) (sym (intern_known id t s e)) (leads_back id (s, t) c e)
  ]

  assign_keeps :
      (id q : I) (t : IdInterner I) → (id == q) ≡ false → lookup q (assign id t).1 ≡ lookup q t
  unfolding assign lookup
  assign_keeps id q t h = go t.free_list refl
    where
      go : (f : List ℕ) → t.free_list ≡ f → lookup q (assign id t).1 ≡ lookup q t
      go [] e =
          rw (e) (ground (arith, lookup-insert id q (u32_or_max (length t.reverse)) t.forward))
      go (s ∷ f) e = rw (e) (ground (arith, lookup-insert id q s t.forward))

  -- Interning an id leaves the slot of every other id as it was.
  pub intern_keeps :
      (id q : I) (t : IdInterner I) → (id == q) ≡ false → lookup q (intern id t).1 ≡ lookup q t
  intern_keeps id q t h = elim (Option-cases (lookup id t)) [
    | inl e ↦ ap (λ r. lookup q r.1) (intern_unknown id t e) ∙ assign_keeps id q t h
    | inr (s, e) ↦ ap (λ r. lookup q r.1) (intern_known id t s e)
  ]

  release_unknown : (id : I) (t : IdInterner I) → lookup id t ≡ none → release id t ≡ t
  unfolding release lookup
  release_unknown id t e = rw (e, release) refl

  freed : I → ℕ → IdInterner I → IdInterner I
  freed id s t = record {
    forward = Assoc.remove id t.forward;
    reverse = set t.reverse s none;
    free_list = s ∷ t.free_list;
  }

  release_known :
      (id : I) (t : IdInterner I) (s : ℕ) → lookup id t ≡ some s → release id t ≡ freed id s t
  unfolding release lookup freed
  release_known id t s e = rw (e, release) refl

  abbrev Released : I → IdInterner I → IdInterner I → Type 0
  Released id t u = IsConsistent u × ((q : I) → lookup q u ≡ (if id == q then none else lookup q t))

  freed-Released :
      (id : I) (s : ℕ) (t : IdInterner I)
      → IsConsistent t
      → lookup id t ≡ some s
      → Released id t (freed id s t)
  unfolding freed lookup
  freed-Released id s t c e =
      (record { slot_holds = holds; held_slot = held; all_free = free }, removed)
    where
      held_here : get_elem? t.reverse s ≡ some (some id)
      held_here = c.slot_holds id s e

      within : s < length t.reverse
      within = lt-get_elem? t.reverse s (some id) held_here

      removed : (q : I) → lookup q (freed id s t) ≡ (if id == q then none else lookup q t)
      removed q = lookup-remove id q t.forward

      read :
          (j : ℕ)
          → get_elem? (set t.reverse s none) j
            ≡ (if eqb s j then some none else get_elem? t.reverse j)
      read j = get_elem?-set t.reverse s j none within

      holds :
          (q : I) (z : ℕ)
          → lookup q (freed id s t) ≡ some z
          → get_elem? (set t.reverse s none) z ≡ some (some q)
      holds q z h = ground (arith, removed q, read z, c.slot_holds q z, held_here, ==_refl id)

      held :
          (q : I) (z : ℕ)
          → get_elem? (set t.reverse s none) z ≡ some (some q)
          → lookup q (freed id s t) ≡ some z
      held q z h = ground (arith, removed q, read z, c.held_slot q z, eq_of_== id q, e)

      not_free : any (eqb s) t.free_list ≡ false
      not_free = in_use_not_free t.reverse t.free_list s id held_here c.all_free

      free : AllFree (set t.reverse s none) (s ∷ t.free_list)
      free = (
        ground (arith, read s),
        (not_free, AllFree-set t.reverse t.free_list s none within not_free c.all_free),
      )

  -- Releasing an id of a consistent interner keeps it consistent and takes out exactly this id.
  pub release-IsConsistent :
      (id : I) (t : IdInterner I)
      → IsConsistent t
      → IsConsistent (release id t)
        × ((q : I) → lookup q (release id t) ≡ (if id == q then none else lookup q t))
  release-IsConsistent id t c = elim (Option-cases (lookup id t)) [
    | inl e ↦
        subst (Released id t) (sym (release_unknown id t e))
          (c, λ q. ground (arith, eq_of_== id q, e))
    | inr (s, e) ↦ subst (Released id t) (sym (release_known id t s e)) (freed-Released id s t c e)
  ]
