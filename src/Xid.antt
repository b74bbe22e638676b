-- ===== src/Xid.antt =====
-- xcb_xid.c: the allocator of resource ids.
pub mod Range
use Prim.Native.Nat.{bit_and, bit_or}
use androix_xcb_libxcb.Base.{
  ℕ, ◌+◌, ◌-◌, ◌*◌, ◌%◌, ◌≡◌, Bool, true, false, Option, none, some, leb, ltb, ◌==◌, if◌then◌else◌,
  ◌&&◌, ◌||◌,
}
use androix_xcb_libxcb.Sequence.{u32}
use androix_xcb_libxcb.Conn.{Conn, Xid, Setup}

-- uint32_t subtraction and negation.
abbrev pub sub32 : ℕ → ℕ → ℕ
sub32 a b = (a + u32 - b) % u32

-- What generate_id asks the server through generated code: xcb_get_extension_data says whether the
-- XC-MISC extension is there, xcb_xc_misc_get_xid_range_reply gives the first id and the count of a
-- new range. Both move the connection.
pub record XcMisc : Type 0 where
  pub extension : Conn → Bool × Conn
  pub get_xid_range : Conn → Option (ℕ × ℕ) × Conn

-- The return value: an id, the -1 of a failure, or an assertion that fails.
pub data Generated : Type 0 where
  id : ℕ → Generated
  failed aborted : Generated

abbrev pub set_xid : Conn → Xid → Conn
set_xid c x = record c { xid = x }

-- `ret = c->xid.last | c->xid.base`
abbrev pub hand_out : Conn → Generated × Conn
hand_out c = (id (bit_or c.xid.last c.xid.base), c)

-- The test for an exhausted range.
unfoldable pub exhausted : Xid → Bool
exhausted x = leb ((sub32 x.max x.inc + 1) % u32) x.last

module _ (server : XcMisc) where
  -- The branch that asks for a new range.
  unfoldable pub new_range : Conn → Generated × Conn
  new_range c =
      let ext = server.extension c in
      let range = server.get_xid_range ext.1 in
      let c' = range.1 in
      if ext.0
      then elim range.0 [
        | none ↦ (failed, c')
        | some (start_id, count) ↦
            let x = record c'.xid {
              last = start_id;
              max = (start_id + sub32 count 1 * c'.xid.inc) % u32;
            } in
            if start_id == 0 && count == 1
            then (failed, c')
            else (if ltb 0 count && ltb 0 start_id then hand_out (set_xid c' x) else (aborted, c'))
      ]
      else (failed, ext.1)

  -- xcb_generate_id
  unfoldable pub generate_id : Conn → Generated × Conn
  generate_id c =
      let x = c.xid in
      if c.has_error
      then (failed, c)
      else (if exhausted x
          then (if x.last == x.max
              then (if x.last == 0
                  then hand_out (set_xid c (record x { max = c.setup.resource_id_mask }))
                  else new_range c)
              else (aborted, c))
          else hand_out (set_xid c (record x { last = (x.last + x.inc) % u32 })))

-- _xcb_xid_init; `mutex_init` says whether pthread_mutex_init succeeds.
unfoldable pub xid_init : Conn → Bool → Bool × Conn
xid_init c mutex_init =
    let mask : ℕ = c.setup.resource_id_mask in
    if mutex_init
    then (
      true,
      set_xid c (record {
        last = 0;
        max = 0;
        base = c.setup.resource_id_base;
        inc = bit_and mask (sub32 0 mask);
      }),
    )
    else (false, c)
