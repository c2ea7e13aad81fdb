-- ===== src/Flow/Classifier/Laws.antt =====
-- The ids of flows, and their contexts, over calls of `get_or_create_flow`.
use hqts.Base.{
  ℕ, ◌+◌, ◌%◌, ◌^◌, ◌≤◌, ◌<◌, ◌≡◌, ◌↔◌, ap, ◌∙◌, sym, inl, inr, none, some, arith, lookup,
  Option-cases, Bool-cases,
}
use mathlib.Core.Option.{some-injective}
use hqts.Flow.Context.{FlowContext, flow_context, tail_drop}
use hqts.Flow.Identifier.{FiveTuple, tuple_eq, tuple_eq_iff}
use hqts.Flow.Table.{FlowTable, find, find-assign, lookup-emplace}
use hqts.Flow.Classifier.{FlowClassifier, get_or_create_flow, create_flow}

-- The ids handed out lie below the next one and have a context, and no two keys share one.
pub record IsClassified (c : FlowClassifier) (t : FlowTable) : Type 0 where
  pub no_wrap : c.next_flow_id < 2 ^ 64
  pub fresh : (i : ℕ) (x : FlowContext) → lookup i t ≡ some x → i < c.next_flow_id
  pub known :
      (k : FiveTuple) (i : ℕ)
      → find k c.flow_key_to_flow_id_map ≡ some i
      → (x : FlowContext) × (lookup i t ≡ some x)
  pub distinct :
      (j k : FiveTuple) (i : ℕ)
      → find j c.flow_key_to_flow_id_map ≡ some i
      → find k c.flow_key_to_flow_id_map ≡ some i
      → j ≡ k

get_found :
    (c : FlowClassifier) (t : FlowTable) (k : FiveTuple) (now : ℕ) (i : ℕ)
    → find k c.flow_key_to_flow_id_map ≡ some i
    → get_or_create_flow c t k now ≡ (c, t, i)
unfolding get_or_create_flow
get_found c t k now i e = rw (e, get_or_create_flow)

get_new :
    (c : FlowClassifier) (t : FlowTable) (k : FiveTuple) (now : ℕ)
    → find k c.flow_key_to_flow_id_map ≡ none
    → get_or_create_flow c t k now ≡ create_flow c t k now
unfolding get_or_create_flow
get_new c t k now e = rw (e, get_or_create_flow)

lookup_next :
    (c : FlowClassifier) (t : FlowTable) → IsClassified c t → lookup c.next_flow_id t ≡ none
lookup_next c t v = elim (Option-cases (lookup c.next_flow_id t)) [
  | inl e ↦ e
  | inr (x, e) ↦ absurd (omega (arith, v.fresh c.next_flow_id x e))
]

below_next :
    (c : FlowClassifier) (t : FlowTable) (k : FiveTuple) (i : ℕ)
    → IsClassified c t
    → find k c.flow_key_to_flow_id_map ≡ some i
    → i < c.next_flow_id
below_next c t k i v e = let (x, g) = v.known k i e in v.fresh i x g

create_flow-IsClassified :
    (c : FlowClassifier) (t : FlowTable) (k : FiveTuple) (now : ℕ)
    → IsClassified c t
    → c.next_flow_id + 1 < 2 ^ 64
    → let r = create_flow c t k now in IsClassified r.0 r.1
unfolding create_flow
create_flow-IsClassified c t k now v h =
    let n = c.next_flow_id in
    let free = lookup_next c t v in
    let ctx = flow_context n c.default_policy_id 0 tail_drop now in
    let wrap : (n + 1) % 2 ^ 64 ≡ n + 1 = omega arith in
    record {
      no_wrap = omega arith;
      fresh = λ i x e. ground (arith, wrap, lookup-emplace n i ctx t free, v.fresh i x);
      known = λ j i e.
          let f = rw find-assign at e in
          elim (Bool-cases (tuple_eq k j)) [
            | inl same ↦ (ctx, ground (arith, lookup-emplace n i ctx t free))
            | inr other ↦
                let old : find j c.flow_key_to_flow_id_map ≡ some i = ground arith in
                let (x, g) = v.known j i old in
                (x, ground (arith, lookup-emplace n i ctx t free, v.fresh i x g))
          ];
      distinct = λ a b i ea eb. ground (
        arith,
        find-assign k a n c.flow_key_to_flow_id_map,
        find-assign k b n c.flow_key_to_flow_id_map,
        tuple_eq_iff k a,
        tuple_eq_iff k b,
        below_next c t a i v,
        below_next c t b i v,
        v.distinct a b i,
      );
    }

create_flow-own :
    (c : FlowClassifier) (t : FlowTable) (k : FiveTuple) (now : ℕ)
    → find k (create_flow c t k now).0.flow_key_to_flow_id_map ≡ some c.next_flow_id
unfolding create_flow
create_flow-own c t k now =
    ground (arith, find-assign k k c.next_flow_id c.flow_key_to_flow_id_map, tuple_eq_iff k k)

create_flow-kept :
    (c : FlowClassifier) (t : FlowTable) (j k : FiveTuple) (now i : ℕ)
    → find j c.flow_key_to_flow_id_map ≡ some i
    → find k c.flow_key_to_flow_id_map ≡ none
    → find j (create_flow c t k now).0.flow_key_to_flow_id_map ≡ some i
unfolding create_flow
create_flow-kept c t j k now i e g = ground (
  arith,
  find-assign k j c.next_flow_id c.flow_key_to_flow_id_map,
  tuple_eq_iff k j,
  ap (λ (x : FiveTuple). find x c.flow_key_to_flow_id_map),
)

next_le :
    (c : FlowClassifier) (t : FlowTable) (k : FiveTuple) (now : ℕ)
    → c.next_flow_id + 2 < 2 ^ 64
    → (get_or_create_flow c t k now).0.next_flow_id ≤ c.next_flow_id + 1
unfolding get_or_create_flow create_flow
next_le c t k now h = ground arith

-- From classified flows with an id left, `get_or_create_flow` keeps the ids handed out distinct,
-- below the next one and known to the flow table, and the id that it returns is that of the 5-tuple
-- and has a context.
pub get_or_create_flow-IsClassified :
    (c : FlowClassifier) (t : FlowTable) (k : FiveTuple) (now : ℕ)
    → IsClassified c t
    → c.next_flow_id + 1 < 2 ^ 64
    → let (c', t', i) = get_or_create_flow c t k now in
      IsClassified c' t'
      × (find k c'.flow_key_to_flow_id_map ≡ some i)
      × ((x : FlowContext) × (lookup i t' ≡ some x))
unfolding create_flow
get_or_create_flow-IsClassified c t k now v h =
    elim (Option-cases (find k c.flow_key_to_flow_id_map)) [
      | inr (i, e) ↦ rw (get_found c t k now i e) (v, e, v.known k i e)
      | inl e ↦
          let w = create_flow-IsClassified c t k now v h in
          let own = create_flow-own c t k now in
          rw (get_new c t k now e) (w, own, w.known k c.next_flow_id own)
    ]

-- A flow that was seen keeps its id: asking for it again, at any time, returns the same id and
-- changes neither the classifier nor the table.
pub get_or_create_flow_stable :
    (c : FlowClassifier) (t : FlowTable) (k : FiveTuple) (now later : ℕ)
    → let (c', t', i) = get_or_create_flow c t k now in
      get_or_create_flow c' t' k later ≡ (c', t', i)
unfolding create_flow
get_or_create_flow_stable c t k now later = elim (Option-cases (find k c.flow_key_to_flow_id_map)) [
  | inr (i, e) ↦ rw (get_found c t k now i e) (get_found c t k later i e)
  | inl e ↦ rw (get_new c t k now e) (
      get_found (create_flow c t k now).0 (create_flow c t k now).1 k later c.next_flow_id
        (create_flow-own c t k now))
]

find-kept :
    (c : FlowClassifier) (t : FlowTable) (j k : FiveTuple) (now i : ℕ)
    → find j c.flow_key_to_flow_id_map ≡ some i
    → find j (get_or_create_flow c t k now).0.flow_key_to_flow_id_map ≡ some i
find-kept c t j k now i e = elim (Option-cases (find k c.flow_key_to_flow_id_map)) [
  | inr (h, g) ↦ rw (get_found c t k now h g) e
  | inl g ↦ rw (get_new c t k now g) (create_flow-kept c t j k now i e g)
]

-- From classified flows with two ids left, two flows asked for one after the other get the same id
-- exactly when their 5-tuples are equal.
pub get_or_create_flow_distinct :
    (c : FlowClassifier) (t : FlowTable) (j k : FiveTuple) (now later : ℕ)
    → IsClassified c t
    → c.next_flow_id + 2 < 2 ^ 64
    → let (c', t', i) = get_or_create_flow c t j now in
      let (_, _, h) = get_or_create_flow c' t' k later in (i ≡ h) ↔ (j ≡ k)
get_or_create_flow_distinct c t j k now later v room =
    let one = get_or_create_flow-IsClassified c t j now v (omega arith) in
    let c' = (get_or_create_flow c t j now).0 in
    let t' = (get_or_create_flow c t j now).1 in
    let i = (get_or_create_flow c t j now).2 in
    let c'' = (get_or_create_flow c' t' k later).0 in
    let two =
      get_or_create_flow-IsClassified c' t' k later one.0 (omega (arith, next_le c t j now room)) in
    let kept = find-kept c' t' j k later i one.1 in
    (
      λ e. two.0.distinct j k i kept (rw e two.1),
      λ e.
          some-injective _ _
            (sym kept ∙ ap (λ (x : FiveTuple). find x c''.flow_key_to_flow_id_map) e ∙ two.1),
    )
