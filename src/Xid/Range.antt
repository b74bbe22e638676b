-- ===== src/Xid/Range.antt =====
-- Which ids are handed out, and in which order.
use Prim.Native.Nat.{bit_and, bit_or}
use androix_xcb_libxcb.Base.{
  ℕ, zero, suc, ◌+◌, ◌-◌, ◌*◌, ◌%◌, ◌^◌, ◌≡◌, ◌≤◌, ◌<◌, ◌≢◌, true, false, some, ◌==◌, arith, List,
  [], ◌∷◌, refl, ◌∙◌, ap,
}
use native.Mathlib.Nat.{pow-suc}
use androix_xcb_libxcb.Base.Bits.{bit_or-disjoint, lowest-odd, lowest_bit, zero-bit_or}
use androix_xcb_libxcb.Sequence.{u32}
use androix_xcb_libxcb.Conn.{Conn, Xid}
use androix_xcb_libxcb.Xid.{
  sub32, XcMisc, Generated, id, set_xid, hand_out, exhausted, new_range, generate_id, xid_init,
}

-- `left` ids are left of a range that ends at `max`; no sum of the code's wraps.
pub record IsRange (x : Xid) (left : ℕ) : Type 0 where
  pub inc_pos : 0 < x.inc
  pub inside : x.last + left * x.inc ≡ x.max
  pub room : x.max < u32
  pub started : x.inc ≤ x.max + 1

exhausted_lem : (x : Xid) (left : ℕ) → IsRange x left → exhausted x ≡ (left == 0)
unfolding exhausted
exhausted_lem x zero r = ground arith
exhausted_lem x (suc n) r = ground arith

-- The next `n` ids above `last`.
abbrev pub ids_above : ℕ → ℕ → ℕ → ℕ → List Generated
ids_above last inc base zero = []
ids_above last inc base (suc n) = id (bit_or (last + inc) base) ∷ ids_above (last + inc) inc base n

module _ (server : XcMisc) where
  -- Calling xcb_generate_id again and again.
  pub generate_ids : ℕ → Conn → List Generated
  generate_ids zero c = []
  generate_ids (suc n) c = let r = generate_id server c in r.0 ∷ generate_ids n r.1

  -- Within a range a call hands out the next id, and asks the server nothing.
  pub generate_id-within :
      (c : Conn) (left : ℕ)
      → c.has_error ≡ false
      → IsRange c.xid (suc left)
      → let c' = set_xid c (record c.xid { last = c.xid.last + c.xid.inc }) in
        (generate_id server c ≡ hand_out c') × IsRange c'.xid left
  unfolding generate_id
  generate_id-within c left ok r =
      let e = exhausted_lem c.xid (suc left) r in
      let w : (c.xid.last + c.xid.inc) % u32 ≡ c.xid.last + c.xid.inc = omega arith in
      (
        ground (arith, e, w),
        record { inc_pos = r.inc_pos; inside = omega arith; room = r.room; started = r.started },
      )

  -- While ids of the range are left, successive calls without an error hand out successive ids, the
  -- increment apart, each with the bits of the base.
  pub generate_ids-within :
      (n left : ℕ) (c : Conn)
      → c.has_error ≡ false
      → IsRange c.xid left
      → n ≤ left
      → generate_ids n c ≡ ids_above c.xid.last c.xid.inc c.xid.base n
  unfolding generate_ids
  generate_ids-within zero left c ok r h = refl
  generate_ids-within (suc n) zero c ok r h = absurd (omega arith)
  generate_ids-within (suc n) (suc left) c ok r h =
      let (e, r') = generate_id-within c left ok r in
      rw e (
        ap (◌∷◌ (id (bit_or (c.xid.last + c.xid.inc) c.xid.base)))
          (generate_ids-within n left _ ok r' (omega arith)))

  -- The call that finds a range used up, and the server with an answer for it, hands out the first id
  -- of the new range, and the rest of the range is left: `count` ids from `start_id` on. The
  -- connection has no error, the answer leaves the allocator alone, and the new range is above 0,
  -- starts at the increment or later and ends below 2 ^ 32.
  pub generate_id-IsRange :
      (c c' c'' : Conn) (start_id count : ℕ)
      → c.has_error ≡ false
      → IsRange c.xid 0
      → c.xid.last ≢ 0
      → server.extension c ≡ (true, c')
      → server.get_xid_range c' ≡ (some (start_id, count), c'')
      → c''.xid ≡ c.xid
      → 0 < start_id
      → 0 < count
      → count < u32
      → c.xid.inc ≤ start_id
      → start_id + (count - 1) * c.xid.inc < u32
      → ((generate_id server c).0 ≡ id (bit_or start_id c.xid.base))
        × IsRange (generate_id server c).1.xid (count - 1)
  unfolding generate_id new_range
  generate_id-IsRange c c' c'' start_id count ok r nz ext range same s n w i fits =
      let e = exhausted_lem c.xid 0 r in
      let m : c.xid.last ≡ c.xid.max = omega (arith, r.inside) in
      let k : sub32 count 1 ≡ count - 1 = omega arith in ground (arith, e, m, ext, range, same, k)

-- `n` successive ids from `start` on.
abbrev pub ids_up : ℕ → ℕ → List Generated
ids_up start zero = []
ids_up start (suc n) = id start ∷ ids_up (start + 1) n

ids_above-ids_up :
    (k b n last : ℕ)
    → last + n < 2 ^ k
    → ids_above last 1 (2 ^ k * b) n ≡ ids_up (last + 1 + 2 ^ k * b) n
ids_above-ids_up k b zero last h = refl
ids_above-ids_up k b (suc n) last h =
    let e = bit_or-disjoint k (last + 1) b (omega arith) in
    let f : last + 1 + 2 ^ k * b + 1 ≡ last + 1 + 1 + 2 ^ k * b = omega arith in
    rw (e, f)
      (ap (◌∷◌ (id (last + 1 + 2 ^ k * b))) (ids_above-ids_up k b n (last + 1) (omega arith)))

-- A fresh allocator whose mask has the `k` lowest bits, and a base above them.
xid_init-odd :
    (c : Conn)
    → c.setup.resource_id_mask < u32
    → c.setup.resource_id_mask % 2 ≡ 1
    → (xid_init c true).1
      ≡ set_xid c (record { last = 0; max = 0; base = c.setup.resource_id_base; inc = 1 })
unfolding xid_init
xid_init-odd c small odd =
    let e : sub32 0 c.setup.resource_id_mask ≡ u32 - c.setup.resource_id_mask = omega arith in
    let l : bit_and c.setup.resource_id_mask (u32 - c.setup.resource_id_mask) ≡ 1 =
      lowest-odd 31 c.setup.resource_id_mask small odd in
    rw (e, l)

first_id :
    (server : XcMisc) (c : Conn)
    → c.has_error ≡ false
    → c.xid.inc ≡ 1
    → c.xid.last ≡ 0
    → c.xid.max ≡ 0
    → generate_id server c ≡ hand_out (set_xid c (record c.xid { max = c.setup.resource_id_mask }))
unfolding generate_id exhausted
first_id server c ok i l m = ground arith

-- From initialisation on, if the server's mask has the `k` lowest bits (1 ≤ k ≤ 32) and its base is a
-- multiple of 2 ^ k, the first calls hand out base, base + 1, base + 2 and so on, up to base + mask,
-- whatever the server would answer. The connection has no error.
pub generate_ids-fresh :
    (server : XcMisc) (c : Conn) (k b n : ℕ)
    → c.has_error ≡ false
    → c.setup.resource_id_mask + 1 ≡ 2 ^ suc k
    → 2 ^ suc k ≤ u32
    → c.setup.resource_id_base ≡ 2 ^ suc k * b
    → n < 2 ^ suc k
    → generate_ids server (suc n) (xid_init c true).1 ≡ ids_up c.setup.resource_id_base (suc n)
unfolding generate_ids
generate_ids-fresh server c k b n ok mask small base h =
    let i = xid_init-odd c (omega arith) (omega (arith, pow-suc 2 k)) in
    let c' = set_xid c (record { last = 0; max = 0; base = c.setup.resource_id_base; inc = 1 }) in
    let f = first_id server c' ok refl refl refl in
    let w =
      generate_ids-within server n c.setup.resource_id_mask
        (set_xid c (record c'.xid { max = c.setup.resource_id_mask })) ok
        (record {
          inc_pos = omega arith;
          inside = omega arith;
          room = omega arith;
          started = omega arith;
        })
        (omega arith) in
    let u = ids_above-ids_up (suc k) b n 0 (omega arith) in
    rw (i, f, zero-bit_or c.setup.resource_id_base)
      (ap (◌∷◌ (id c.setup.resource_id_base))
        (w ∙ (ap (λ t. ids_above 0 1 t n) base ∙ (u ∙ ap (λ t. ids_up t n) (omega arith)))))

step_wide :
    (server : XcMisc) (c : Conn)
    → c.has_error ≡ false
    → 2 ≤ c.xid.inc
    → c.xid.max ≡ 0
    → c.xid.last + c.xid.inc + c.xid.inc ≤ u32
    → generate_id server c ≡ hand_out (set_xid c (record c.xid { last = c.xid.last + c.xid.inc }))
unfolding generate_id exhausted
step_wide server c ok two m h = ground arith

-- With an increment of 2 or more the range 0 .. 0 does not count as used up.
generate_ids_far :
    (server : XcMisc) (n : ℕ) (c : Conn)
    → c.has_error ≡ false
    → 2 ≤ c.xid.inc
    → c.xid.max ≡ 0
    → c.xid.last + n * c.xid.inc + c.xid.inc ≤ u32
    → generate_ids server n c ≡ ids_above c.xid.last c.xid.inc c.xid.base n
unfolding generate_ids
generate_ids_far server zero c ok two m h = refl
generate_ids_far server (suc n) c ok two m h = rw (step_wide server c ok two m (omega arith)) (
    ap (◌∷◌ (id (bit_or (c.xid.last + c.xid.inc) c.xid.base))) (
      generate_ids_far server n (set_xid c (record c.xid { last = c.xid.last + c.xid.inc })) ok two
        m (omega arith)))

one_le_pow : (k : ℕ) → 1 ≤ 2 ^ k
one_le_pow zero = omega arith
one_le_pow (suc k) = omega (arith, pow-suc 2 k, one_le_pow k)

-- A fresh allocator for a mask whose lowest bit is the bit `k`.
xid_init-lowest :
    (c : Conn) (k m : ℕ)
    → c.setup.resource_id_mask ≡ 2 ^ k * (2 * m + 1)
    → 0 < c.setup.resource_id_mask
    → c.setup.resource_id_mask < u32
    → (xid_init c true).1
      ≡ set_xid c (record { last = 0; max = 0; base = c.setup.resource_id_base; inc = 2 ^ k })
unfolding xid_init
xid_init-lowest c k m e pos small =
    let n : sub32 0 c.setup.resource_id_mask ≡ u32 - c.setup.resource_id_mask = omega arith in
    let l : bit_and c.setup.resource_id_mask (u32 - c.setup.resource_id_mask) ≡ 2 ^ k =
      lowest_bit k 31 m c.setup.resource_id_mask e pos small in
    rw (n, l)

-- From initialisation on, if the lowest bit of the server's mask is the bit `k + 1`, so that the mask
-- is above 0 and its bit 0 is clear, the calls hand out one multiple of 2 ^ (k + 1) after the other,
-- from the first above 0 on, each with the bits of the base, as long as 2 ^ 32 is not passed, and
-- whatever the rest of the mask and the server's answers would be. The mask is below 2 ^ 32, and the
-- connection has no error.
pub generate_ids-wide :
    (server : XcMisc) (c : Conn) (k m n : ℕ)
    → c.has_error ≡ false
    → c.setup.resource_id_mask ≡ 2 ^ suc k * (2 * m + 1)
    → 0 < c.setup.resource_id_mask
    → c.setup.resource_id_mask < u32
    → n * 2 ^ suc k + 2 ^ suc k ≤ u32
    → generate_ids server n (xid_init c true).1 ≡ ids_above 0 (2 ^ suc k) c.setup.resource_id_base n
generate_ids-wide server c k m n ok mask pos small h =
    let two : 2 ≤ 2 ^ suc k = omega (arith, pow-suc 2 k, one_le_pow k) in
    let x : Xid = record { last = 0; max = 0; base = c.setup.resource_id_base; inc = 2 ^ suc k } in
    ap (generate_ids server n) (xid_init-lowest c (suc k) m mask pos small)
    ∙ generate_ids_far server n (set_xid c x) ok two refl (omega (arith, h))
