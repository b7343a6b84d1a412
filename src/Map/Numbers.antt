-- ===== src/Map/Numbers.antt =====
-- Numbers as keys: account ids, sides and machine ids.
use Prim.Native.Nat.{compare}
use drgb_server.Prelude.{ℕ, arith}
use drgb_server.Map.{Order}

instance abbrev pub nat_order : Order ℕ
nat_order = record {
  cmp = compare;
  cmp-refl = λ a. ground arith;
  eq_of_cmp = λ a b h. ground arith;
}
