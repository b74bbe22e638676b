-- ===== src/Tests/Sending.antt =====
-- Numbers, lengths and vectors of requests.
use androix_xcb_libxcb.Base.{
  ℕ, ◌*◌, ◌%◌, ◌≡◌, refl, true, false, List, [], ◌∷◌, none, some, arith, map, length,
}
use androix_xcb_libxcb.Sequence.{u32}
use androix_xcb_libxcb.Conn.{Conn, no_workaround}
use androix_xcb_libxcb.Out.Number.{number_request}
use androix_xcb_libxcb.Out.Number.Laws.{number_request-zero}
use androix_xcb_libxcb.Out.Number.Recover.{
  Request, IsRecoverable, number_all, widen_all, number_all-IsRecoverable,
}
use androix_xcb_libxcb.Out.Vector.{Iovec, joined, write_vec, wrote, again, broken}
use androix_xcb_libxcb.Out.Vector.Laws.{write_vec_lem}
use androix_xcb_libxcb.Out.Length.{
  BigRequests, Part, bytes, pad, prepare, get_maximum_request_length, length_fields,
}
use androix_xcb_libxcb.Out.Length.Laws.{announced, wire, request_length}
use androix_xcb_libxcb.Tests.Data.{start, quiet, no_flags}

-- 65534 requests without a reply have been sent.
abbrev long_silent : Conn
long_silent = record start { output = record start.output { request = 65534 } }

abbrev void_request : Request
void_request = record {
  isvoid = true;
  workaround = no_workaround;
  flags = no_flags;
  allocated = true;
}

number_all-IsRecoverable_example :
    (l : List ℕ) × (c' : Conn) × (number_all
        (void_request ∷ void_request ∷ [])
        (λ _. true)
        long_silent
      ≡ some (l, c'))
    × (widen_all 0 (map (λ s. s % 0x10000) l) ≡ l)
    × IsRecoverable c'
number_all-IsRecoverable_example =
    number_all-IsRecoverable (void_request ∷ void_request ∷ []) (λ _. true) long_silent
      (record { behind = omega arith; near = omega arith }) (omega arith)

abbrev at_wrap : Conn
at_wrap = record start {
  output = record start.output { request = 0xffff_ffff };
  input = record quiet { request_expected = 0xffff_fff0 };
}

number_request-zero_example :
    (c' : Conn) × (number_request at_wrap false no_workaround no_flags true (λ _. true)
      ≡ some (false, c'))
    × (c'.output.request % u32 ≡ 0)
number_request-zero_example =
    number_request-zero at_wrap no_workaround no_flags true (λ _. true) 1 refl (omega arith)
      (omega arith) (omega arith)

abbrev parts : List Iovec
parts = (1 ∷ 2 ∷ 3 ∷ []) ∷ (4 ∷ 5 ∷ []) ∷ (6 ∷ []) ∷ []

write_vec_lem_example :
    ((write_vec start parts (wrote 4)).0 ≡ true)
    × (joined (write_vec start parts (wrote 4)).1 ≡ 5 ∷ 6 ∷ [])
    × ((write_vec start parts (wrote 4)).2 ≡ record start { sent = 1 ∷ 2 ∷ 3 ∷ 4 ∷ [] })
    × (write_vec start parts again ≡ (true, parts, start))
    × ((write_vec start parts broken).2.has_error ≡ true)
    × ((write_vec start parts (wrote 0)).2.has_error ≡ true)
write_vec_lem_example = write_vec_lem start parts 3 (omega arith)

-- A server with BIG-REQUESTS that takes a million units.
abbrev big_server : BigRequests
big_server = record {
  extension = λ c. (true, c);
  enable = λ c. (1, c);
  enable_reply = λ c cookie. (some 1000000, c);
}

-- The maximum of the setup is too small for a request of 3 units, so it takes the extended form.
abbrev strict : Conn
strict = record start { setup = record start.setup { maximum_request_length = 2 } }

abbrev request_parts : List Part
request_parts = bytes (7 ∷ 0 ∷ 0 ∷ 0 ∷ 9 ∷ 9 ∷ []) ∷ bytes (8 ∷ 8 ∷ 8 ∷ []) ∷ pad 3 ∷ []

abbrev sent_parts : List Iovec
sent_parts = (98 ∷ 0 ∷ 0 ∷ 0 ∷ 9 ∷ 9 ∷ []) ∷ (8 ∷ 8 ∷ 8 ∷ []) ∷ (0 ∷ 0 ∷ 0 ∷ []) ∷ []

request_length_example : announced (wire sent_parts 4) * 4 ≡ length (wire sent_parts 4)
unfolding prepare length_fields get_maximum_request_length
request_length_example =
    request_length big_server strict (get_maximum_request_length big_server strict).1 none 98
      request_parts 7 0 0 0 (9 ∷ 9 ∷ []) ((8 ∷ 8 ∷ 8 ∷ []) ∷ (0 ∷ 0 ∷ 0 ∷ []) ∷ []) sent_parts 4
      refl refl (omega arith) (omega arith) refl
