-- ===== src/Base/Text.antt =====
-- `Arc<str>` and `String` as the lists of their bytes, with the bytewise order of `str`.
use Prim.Native.Nat.{ℕ}
use Prim.Native.Char.{code}
use Prim.Native.String.{String}
use mathlib.Core.Bool.{Bool, true, false, ◌&&◌, ◌||◌}
use mathlib.Core.List.{List, [], ◌∷◌}
use myko.Base.Tests.{eqb}
use myko.Base.Key.{Key, list_key, nat_key, cmp_list}

abbrev pub Str : Type 0
Str = List ℕ

instance unfoldable pub str_key : Key Str
unfolding list_key nat_key cmp_list
str_key = list_key

-- An ASCII literal.
abbrev pub str : String → Str
str String.[] = []
str (String.◌∷◌ c s) = code c ∷ str s

-- `str::starts_with` and `str::contains`
unfoldable pub starts_with : Str → Str → Bool
starts_with [] text = true
starts_with (c ∷ cs) [] = false
starts_with (c ∷ cs) (d ∷ ds) = eqb c d && starts_with cs ds

unfoldable pub contains_text : Str → Str → Bool
unfolding starts_with
contains_text needle [] = starts_with needle []
contains_text needle (c ∷ cs) = starts_with needle (c ∷ cs) || contains_text needle cs
