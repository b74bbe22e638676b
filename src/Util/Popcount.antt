-- ===== src/Util/Popcount.antt =====
-- xcb_popcount.
pub mod Laws
use Prim.Native.Nat.{bit_and}
use androix_xcb_libxcb.Base.{ℕ, zero, suc, ◌+◌, ◌/◌, ◌%◌}
use androix_xcb_libxcb.Sequence.{u32, diff32}

unfoldable pub xcb_popcount : ℕ → ℕ
xcb_popcount mask =
    let y : ℕ = bit_and (mask / 2) 0o33333333333 in
    let y' : ℕ = diff32 (diff32 mask y) (bit_and (y / 2) 0o33333333333) in
    bit_and ((y' + y' / 8) % u32) 0o30707070707 % 0o77
