-- ===== src/Flow/Identifier.antt =====
-- hqts/include/hqts/dataplane/flow_identifier.h. The hashes of the integer types belong to the
-- standard library and are arguments.
use Prim.Native.Nat.{bit_xor}
use hqts.Base.{
  ℕ, ◌+◌, ◌*◌, ◌/◌, ◌%◌, ◌==◌, ◌≡◌, ◌↔◌, ◌⊎◌, Bool, true, false, not, ◌&&◌, ltb, if◌then◌else◌,
  u64_mod, arith,
}

pub record FiveTuple : Type 0 where
  pub source_ip : ℕ
  pub dest_ip : ℕ
  pub source_port : ℕ
  pub dest_port : ℕ
  pub protocol : ℕ

-- operator==
pub tuple_eq : FiveTuple → FiveTuple → Bool
tuple_eq a b =
    a.source_ip == b.source_ip
    && a.dest_ip == b.dest_ip
    && a.source_port == b.source_port
    && a.dest_port == b.dest_port
    && a.protocol == b.protocol

-- operator<
unfoldable pub tuple_lt : FiveTuple → FiveTuple → Bool
tuple_lt a b =
    if not (a.source_ip == b.source_ip)
    then ltb a.source_ip b.source_ip
    else (if not (a.dest_ip == b.dest_ip)
        then ltb a.dest_ip b.dest_ip
        else (if not (a.source_port == b.source_port)
            then ltb a.source_port b.source_port
            else (if not (a.dest_port == b.dest_port)
                then ltb a.dest_port b.dest_port
                else ltb a.protocol b.protocol)))

-- seed ^= h + 0x9e3779b9 + (seed << 6) + (seed >> 2), on a 64-bit `size_t`.
pub combine : ℕ → ℕ → ℕ
combine seed h = bit_xor seed ((h + 0x9e37_79b9 + seed * 64 % u64_mod + seed / 4) % u64_mod)

-- std::hash<FiveTuple>
pub hash : (ℕ → ℕ) → (ℕ → ℕ) → (ℕ → ℕ) → FiveTuple → ℕ
unfolding combine
hash hash32 hash16 hash8 k =
    combine
      (combine
        (combine (combine (combine 0 (hash32 k.source_ip)) (hash32 k.dest_ip))
          (hash16 k.source_port))
        (hash16 k.dest_port))
      (hash8 k.protocol)

-- The test of equality holds of equal tuples, and of no others.
pub tuple_eq_iff : (a b : FiveTuple) → (tuple_eq a b ≡ true) ↔ (a ≡ b)
unfolding tuple_eq
tuple_eq_iff a b = (ground arith, ground arith)

-- `operator<` is the strict order that a `std::map` or `std::set` wants, and agrees with
-- `operator==`: of two tuples exactly one is less, or they are equal.
pub tuple_lt_total :
    (a b : FiveTuple)
    → ((tuple_lt a b ≡ true) × (tuple_lt b a ≡ false) × (tuple_eq a b ≡ false))
      ⊎ ((tuple_lt a b ≡ false) × (tuple_lt b a ≡ true) × (tuple_eq a b ≡ false))
      ⊎ ((tuple_lt a b ≡ false) × (tuple_lt b a ≡ false) × (tuple_eq a b ≡ true))
unfolding tuple_lt tuple_eq
tuple_lt_total a b = ground arith

-- `operator<` is transitive.
pub tuple_lt_trans :
    (a b c : FiveTuple) → tuple_lt a b ≡ true → tuple_lt b c ≡ true → tuple_lt a c ≡ true
unfolding tuple_lt
tuple_lt_trans a b c h k = ground arith
