-- ===== src/Flow/Table.antt =====
-- hqts/include/hqts/dataplane/flow_table.h, and the map from 5-tuples to flow ids.
use hqts.Base.{ℕ, ◌==◌, ◌≡◌, refl, List, [], ◌∷◌, Option, none, some, if◌then◌else◌, lookup, arith}
use hqts.Flow.Context.{FlowContext}
use hqts.Flow.Identifier.{FiveTuple, tuple_eq, tuple_eq_iff}

abbrev pub FlowTable : Type 0
FlowTable = List (ℕ × FlowContext)

-- emplace: an entry that is there stays.
unfoldable pub emplace : ℕ → FlowContext → FlowTable → FlowTable
emplace k v m = elim (lookup k m) [ some _ ↦ m | none ↦ (k, v) ∷ m ]

pub lookup-emplace :
    (k j : ℕ) (v : FlowContext) (m : FlowTable)
    → lookup k m ≡ none
    → lookup j (emplace k v m) ≡ (if k == j then some v else lookup j m)
unfolding emplace lookup
lookup-emplace k j v m h = ground (arith, h)

abbrev pub KeyMap : Type 0
KeyMap = List (FiveTuple × ℕ)

unfoldable pub find : FiveTuple → KeyMap → Option ℕ
find k [] = none
find k ((j, i) ∷ m) = if tuple_eq j k then some i else find k m

-- m[k] = i
pub assign : FiveTuple → ℕ → KeyMap → KeyMap
assign k i [] = (k, i) ∷ []
assign k i ((j, h) ∷ m) = if tuple_eq j k then (j, i) ∷ m else (j, h) ∷ assign k i m

-- After `m[k] = i`, the map holds `i` under the 5-tuple `k` and is unchanged under all others.
pub find-assign :
    (k j : FiveTuple) (i : ℕ) (m : KeyMap)
    → find j (assign k i m) ≡ (if tuple_eq k j then some i else find j m)
unfolding find assign
find-assign k j i [] = refl
find-assign k j i ((l, h) ∷ m) =
    ground (arith, tuple_eq_iff l k, tuple_eq_iff l j, tuple_eq_iff k j, find-assign k j i m)
