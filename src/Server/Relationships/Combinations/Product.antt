-- ===== src/Server/Relationships/Combinations/Product.antt =====
-- The combinations are the lists that take one id of each set, and there are as many as the product
-- of the sets' sizes.
use myko.Base.{ℕ, ◌*◌, ◌≡◌, refl, sym, ◌∙◌, ap, Bool, true, false, ◌&&◌, List, [], ◌∷◌}
use myko.Base.{◌++◌, map, arith, any, length, length-append, any-append}
use native.Mathlib.Nat.{mul-suc, mul_assoc, mul_comm}
use myko.Base.Key.{◌==◌, list_key}
use myko.Base.Text.{Str, str_key}
use myko.Base.OrdSet
use myko.Server.Relationships.Combinations.{extend_each, product_from, cartesian_product}

-- one id of each set, in their order
unfoldable pub takes_one_of_each : List Str → List (List Str) → Bool
unfolding OrdSet.contains
takes_one_of_each [] [] = true
takes_one_of_each [] (set ∷ sets) = false
takes_one_of_each (id ∷ ids) [] = false
takes_one_of_each (id ∷ ids) (set ∷ sets) = OrdSet.contains id set && takes_one_of_each ids sets

unfoldable pub same : List Str → List Str → Bool
same [] [] = true
same [] (_ ∷ _) = false
same (_ ∷ _) [] = false
same (x ∷ xs) (y ∷ ys) = x == y && same xs ys

abbrev pub has_combo : List Str → List (List Str) → Bool
has_combo combo combos = any (λ c. same c combo) combos

-- a combination that continues a prefix
continues : List Str → List Str → List (List Str) → Bool
continues [] combo sets = takes_one_of_each combo sets
continues (x ∷ xs) [] sets = false
continues (x ∷ xs) (y ∷ ys) sets = x == y && continues xs ys sets

continues-one_more :
    (prefix combo : List Str) (set : List Str) (sets : List (List Str))
    → any (λ c. continues c combo sets) (map (λ item. prefix ++ (item ∷ [])) set)
      ≡ continues prefix combo (set ∷ sets)
unfolding continues any takes_one_of_each OrdSet.contains
continues-one_more [] [] [] sets = refl
continues-one_more [] [] (item ∷ set) sets = continues-one_more [] [] set sets
continues-one_more [] (y ∷ ys) [] sets = refl
continues-one_more [] (y ∷ ys) (item ∷ set) sets =
    ground (arith, continues-one_more [] (y ∷ ys) set sets)
continues-one_more (x ∷ xs) [] [] sets = refl
continues-one_more (x ∷ xs) [] (item ∷ set) sets = continues-one_more (x ∷ xs) [] set sets
continues-one_more (x ∷ xs) (y ∷ ys) [] sets = ground (arith, continues-one_more xs ys [] sets)
continues-one_more (x ∷ xs) (y ∷ ys) (item ∷ set) sets = ground (
  arith,
  continues-one_more xs ys (item ∷ set) sets,
  continues-one_more (x ∷ xs) (y ∷ ys) set sets,
  continues-one_more xs ys set sets,
)

any-extend_each :
    (combo : List Str) (set : List Str) (sets result : List (List Str))
    → any (λ c. continues c combo sets) (extend_each set result)
      ≡ any (λ c. continues c combo (set ∷ sets)) result
unfolding extend_each any
any-extend_each combo set sets [] = refl
any-extend_each combo set sets (prefix ∷ result) = ground (
  arith,
  any-append (λ c. continues c combo sets) (map (λ item. prefix ++ (item ∷ [])) set)
      (extend_each set result),
  continues-one_more prefix combo set sets,
  any-extend_each combo set sets result,
)

continues-same : (prefix combo : List Str) → continues prefix combo [] ≡ same prefix combo
unfolding continues same takes_one_of_each
continues-same [] [] = refl
continues-same [] (y ∷ ys) = refl
continues-same (x ∷ xs) [] = refl
continues-same (x ∷ xs) (y ∷ ys) = ground (arith, continues-same xs ys)

has_combo-product_from :
    (combo : List Str) (sets result : List (List Str))
    → has_combo combo (product_from sets result) ≡ any (λ c. continues c combo sets) result
unfolding product_from any
has_combo-product_from combo [] [] = refl
has_combo-product_from combo [] (c ∷ result) =
    ground (arith, continues-same c combo, has_combo-product_from combo [] result)
has_combo-product_from combo (set ∷ sets) result =
    has_combo-product_from combo sets (extend_each set result)
    ∙ any-extend_each combo set sets result

-- the product of the sets' sizes
abbrev pub sizes : List (List Str) → ℕ
sizes [] = 1
sizes (set ∷ sets) = length set * sizes sets

length-map : {A : Type 0} {B : Type 0} (f : A → B) (xs : List A) → length (map f xs) ≡ length xs
length-map f [] = refl
length-map f (x ∷ xs) = omega (arith, length-map f xs)

length-extend_each :
    (set : List Str) (result : List (List Str))
    → length (extend_each set result) ≡ length set * length result
unfolding extend_each
length-extend_each set [] = omega arith
length-extend_each set (prefix ∷ result) =
    let added = map (λ item. prefix ++ (item ∷ [])) set in
    omega (
      arith,
      length-append added (extend_each set result),
      length-map (λ item. prefix ++ (item ∷ [])) set,
      length-extend_each set result,
      mul-suc (length set) (length result),
    )

length-product_from :
    (sets result : List (List Str)) → length (product_from sets result) ≡ sizes sets * length result
unfolding product_from
length-product_from [] result = omega arith
length-product_from (set ∷ sets) result =
    length-product_from sets (extend_each set result)
    ∙ ap (λ n. sizes sets * n) (length-extend_each set result)
    ∙ sym (mul_assoc (sizes sets) (length set) (length result))
    ∙ ap (λ n. n * length result) (mul_comm (sizes sets) (length set))

-- The combinations of some id sets, of which there is at least one, are exactly the lists that take
-- one id of each set, in the order of the sets, and their number is the product of the sizes.
pub cartesian_product-members :
    (combo set : List Str) (sets : List (List Str))
    → (has_combo combo (cartesian_product (set ∷ sets)) ≡ takes_one_of_each combo (set ∷ sets))
      × (length (cartesian_product (set ∷ sets)) ≡ sizes (set ∷ sets))
unfolding cartesian_product continues any
cartesian_product-members combo set sets = (
  ground (arith, has_combo-product_from combo (set ∷ sets) ([] ∷ [])),
  omega (arith, length-product_from (set ∷ sets) ([] ∷ [])),
)
