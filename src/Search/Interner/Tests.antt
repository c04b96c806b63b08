-- ===== src/Search/Interner/Tests.antt =====
-- An interner of numbers: three ids, one of them released, and the slot reused.
use myko.Base.{ℕ, ◌≡◌, refl, ◌≤◌, none, some, arith, if◌then◌else◌, length}
use myko.Base.Key.{nat_key, ◌==◌}
use myko.Base.Assoc
use myko.Search.Interner.{
  IdInterner, new, intern, assign, lookup, id_of, release, u32_max, u32_or_max,
}
use myko.Search.Interner.Slots.{
  IsConsistent, new-IsConsistent, intern-IsConsistent, release-IsConsistent,
}

abbrev start : IdInterner ℕ
start = new

abbrev one_id : IdInterner ℕ
one_id = (intern 10 start).1

abbrev two_ids : IdInterner ℕ
two_ids = (intern 20 one_id).1

abbrev after_release : IdInterner ℕ
after_release = release 10 two_ids

start_fits : length start.reverse ≤ u32_max
unfolding new
start_fits = omega arith

one_id_fits : length one_id.reverse ≤ u32_max
unfolding new intern assign Assoc.lookup Assoc.insert nat_key u32_or_max
one_id_fits = omega arith

after_release_fits : length after_release.reverse ≤ u32_max
unfolding new intern assign Assoc.lookup Assoc.insert nat_key u32_or_max release Assoc.remove
after_release_fits = omega arith

two_ids-IsConsistent : IsConsistent two_ids
two_ids-IsConsistent =
    let one_step = intern-IsConsistent 10 start new-IsConsistent start_fits in
    (intern-IsConsistent 20 one_id one_step.0 one_id_fits).0

release-IsConsistent_example :
    IsConsistent after_release
    × ((q : ℕ) → lookup q after_release ≡ (if 10 == q then none else lookup q two_ids))
release-IsConsistent_example = release-IsConsistent 10 two_ids two_ids-IsConsistent

-- The slot of the released id is given to the next new one.
slot_reused : (intern 30 after_release).0 ≡ 0
unfolding new intern assign Assoc.lookup Assoc.insert nat_key u32_or_max release Assoc.remove
slot_reused = refl

intern-IsConsistent_example :
    IsConsistent (intern 30 after_release).1
    × ((lookup 30 (intern 30 after_release).1 ≡ some (intern 30 after_release).0)
        × (id_of (intern 30 after_release).0 (intern 30 after_release).1 ≡ some 30))
intern-IsConsistent_example =
    intern-IsConsistent 30 after_release (release-IsConsistent 10 two_ids two_ids-IsConsistent).0
      after_release_fits
