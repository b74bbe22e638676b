-- ===== src/Sequence/Laws.antt =====
-- What the comparisons and the widenings of sequence numbers compute.
use androix_xcb_libxcb.Base.{ℕ, ◌+◌, ◌%◌, ◌^◌, ◌≤◌, ◌<◌, ◌≡◌, ◌↔◌, true, arith}
use androix_xcb_libxcb.Sequence.{
  u64, u32, seq_lt, seq_le, seq_lt32, seq_eq32, seq_le32, widen16, widen32,
}

module _ (a b : ℕ) (ha : a < u64) (hb : b < u64) where
  pub seq_lt_iff : a < b + 2 ^ 63 → b < a + 2 ^ 63 → (seq_lt a b ≡ true) ↔ (a < b)
  unfolding seq_lt
  seq_lt_iff p q = ground arith

  pub seq_le_iff : a < b + 2 ^ 63 → b < a + 2 ^ 63 → (seq_le a b ≡ true) ↔ (a ≤ b)
  unfolding seq_le
  seq_le_iff p q = ground arith

-- The comparisons of 32 bits order two 64-bit numbers that are less than 2 ^ 31 apart.
module _ (a b : ℕ) (p : a < b + 2 ^ 31) (q : b < a + 2 ^ 31) where
  pub seq_lt32_iff : (seq_lt32 a b ≡ true) ↔ (a < b)
  unfolding seq_lt32
  seq_lt32_iff = ground arith

  pub seq_eq32_iff : (seq_eq32 a b ≡ true) ↔ (a ≡ b)
  unfolding seq_eq32
  seq_eq32_iff = ground arith

  pub seq_le32_iff : (seq_le32 a b ≡ true) ↔ (a ≤ b)
  unfolding seq_le32
  seq_le32_iff = ground arith

-- The widening of the low 16 bits of a sequence number gives that number back, if it lies less
-- than 2 ^ 16 after the last number read, and neither number is 2 ^ 64 or more.
pub widen16_recovers :
    (lastread s : ℕ)
    → lastread ≤ s
    → s < lastread + 0x10000
    → s < u64
    → widen16 lastread (s % 0x10000) ≡ s
unfolding widen16
widen16_recovers lastread s p q r = ground arith

-- The widening of the low 32 bits of a sequence number gives that number back, if it is at most
-- the last number sent and less than 2 ^ 32 before it.
pub widen32_recovers :
    (out_request s : ℕ)
    → s ≤ out_request
    → out_request < s + u32
    → out_request < u64
    → widen32 out_request (s % u32) ≡ s
unfolding widen32
widen32_recovers out_request s p q r = ground arith
