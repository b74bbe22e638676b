-- ===== src/Sequence.antt =====
-- xcbint.h: the comparison macros for sequence numbers; xcb_in.c: the widening of a 16-bit
-- sequence number (read_packet) and of a 32-bit one (xcb_wait_for_reply, discard_reply).
pub mod Laws
use androix_xcb_libxcb.Base.{
  ℕ, ◌+◌, ◌-◌, ◌*◌, ◌/◌, ◌%◌, ◌^◌, Bool, true, false, ◌||◌, not, ltb, leb, ◌==◌, if◌then◌else◌,
}

-- The moduli of uint64_t and of unsigned int.
abbrev pub u64 : ℕ
u64 = 2 ^ 64

abbrev pub u32 : ℕ
u32 = 2 ^ 32

abbrev pub sub64 : ℕ → ℕ → ℕ
sub64 a b = (a + u64 - b) % u64

-- XCB_SEQUENCE_COMPARE (a, op, b): the sign of the 64-bit difference.
unfoldable pub seq_lt : ℕ → ℕ → Bool
seq_lt a b = leb (2 ^ 63) (sub64 a b)

unfoldable pub seq_le : ℕ → ℕ → Bool
seq_le a b = leb (2 ^ 63) (sub64 a b) || sub64 a b == 0

-- XCB_SEQUENCE_COMPARE_32 (a, op, b). Both sides are converted to `int`, which keeps the lowest 32
-- bits; the difference of two `int`s is taken to wrap (in C its overflow is undefined).
abbrev pub diff32 : ℕ → ℕ → ℕ
diff32 a b = (a % u32 + u32 - b % u32) % u32

unfoldable pub seq_lt32 : ℕ → ℕ → Bool
seq_lt32 a b = leb (2 ^ 31) (diff32 a b)

unfoldable pub seq_eq32 : ℕ → ℕ → Bool
seq_eq32 a b = diff32 a b == 0

unfoldable pub seq_le32 : ℕ → ℕ → Bool
seq_le32 a b = leb (2 ^ 31) (diff32 a b) || diff32 a b == 0

-- The 16-bit number of a packet beside the last number read.
unfoldable pub widen16 : ℕ → ℕ → ℕ
unfolding seq_lt
widen16 lastread sequence =
    let request_read : ℕ = lastread / 0x10000 * 0x10000 + sequence in
    if seq_lt request_read lastread then (request_read + 0x10000) % u64 else request_read

-- The 32-bit number of a request beside the last number sent.
unfoldable pub widen32 : ℕ → ℕ → ℕ
widen32 out_request request =
    let widened_request : ℕ = out_request / u32 * u32 + request in
    if ltb out_request widened_request then sub64 widened_request u32 else widened_request
