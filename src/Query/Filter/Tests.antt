-- ===== src/Query/Filter/Tests.antt =====
-- Filters over numbers and ids, evaluated.
use Prim.Native.Nat.{ℕ}
use myko.Base.{◌≡◌, refl, [], ◌∷◌, arith, any}
use myko.Base.Key.{nat_key}
use myko.Base.Text.{str}
use myko.Query.Filter.{
  IdFilter, StringFilter, id_matches, id_canonicalize, canonical_in_values, id_of_values, sort,
  insert_sorted, dedup, dedup_from, in_matches,
}
use myko.Query.Filter.Canonical.{id_matches-canonicalize, id_canonicalize_complete}

abbrev listed : IdFilter ℕ
listed = IdFilter.any_in (7 ∷ 2 ∷ 7 ∷ [])

abbrev relisted : IdFilter ℕ
relisted = IdFilter.any_in (2 ∷ 2 ∷ 7 ∷ [])

canonical_listed : id_canonicalize listed ≡ IdFilter.any_in (2 ∷ 7 ∷ [])
unfolding id_canonicalize id_of_values canonical_in_values sort insert_sorted dedup dedup_from
    nat_key
canonical_listed = refl

id_matches-canonicalize_example : id_matches (id_canonicalize listed) 7 ≡ id_matches listed 7
id_matches-canonicalize_example = id_matches-canonicalize listed 7

same_ids : (v : ℕ) → id_matches listed v ≡ id_matches relisted v
unfolding id_matches in_matches any nat_key
same_ids v = ground arith

id_canonicalize_complete_example : id_canonicalize listed ≡ id_canonicalize relisted
id_canonicalize_complete_example = id_canonicalize_complete listed relisted same_ids

abbrev words : StringFilter
words = StringFilter.any_in (str "b" ∷ str "a" ∷ [])
