-- ===== src/Tests/Ids.antt =====
-- Resource ids.

use androix_xcb_libxcb.Base.{◌≡◌, refl, true, [], ◌∷◌, some, arith}
use androix_xcb_libxcb.Conn.{Conn}
use androix_xcb_libxcb.Xid.{XcMisc, id, xid_init}
use androix_xcb_libxcb.Xid.Range.{generate_ids, generate_ids-fresh, generate_ids-wide}
use androix_xcb_libxcb.Tests.Data.{start}

-- A server that gives ten ids from 0x100 on.
abbrev generous : XcMisc
generous = record { extension = λ c. (true, c); get_xid_range = λ c. (some (0x100, 10), c) }

generate_ids-fresh_example :
    generate_ids generous 3 (xid_init start true).1 ≡ id 0x400000 ∷ id 0x400001 ∷ id 0x400002 ∷ []
generate_ids-fresh_example =
    generate_ids-fresh generous start 20 2 2 refl refl (omega arith) refl (omega arith)

-- The mask 6 leaves the ids 0, 2, 4 and 6; the fifth id handed out is 10.
abbrev narrow : Conn
narrow = record start { setup = record start.setup { resource_id_mask = 6 } }

generate_ids-wide_example :
    generate_ids generous 5 (xid_init narrow true).1
    ≡ id 0x400002 ∷ id 0x400004 ∷ id 0x400006 ∷ id 0x400008 ∷ id 0x40000a ∷ []
generate_ids-wide_example =
    generate_ids-wide generous narrow 0 1 5 refl refl (omega arith) (omega arith) (omega arith)
