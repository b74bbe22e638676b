-- ===== src/Out/Number.antt =====
-- xcb_send_request, lines 208 to 234: the sequence number of a request, and the requests for input
-- focus that keep numbers recoverable.
pub mod Laws
pub mod Recover
use androix_xcb_libxcb.Base.{
  ℕ, zero, suc, ◌+◌, ◌-◌, ◌%◌, ◌^◌, Bool, true, false, Option, none, some, List, [], ◌∷◌, ltb, ◌==◌,
  if◌then◌else◌, ◌&&◌, ◌||◌, not,
}
use androix_xcb_libxcb.Sequence.{u64}
use androix_xcb_libxcb.Conn.{
  Conn, Workaround, no_workaround, glx_get_fb_configs_bug, external_socket_owner, Flags, nonzero,
  set_input,
}
use androix_xcb_libxcb.In.Expect.{expect_reply}
use androix_xcb_libxcb.In.Discard.{only_discard}

abbrev pub set_request : Conn → ℕ → Conn
set_request c n = record c { output = record c.output { request = n } }

abbrev pub set_expected : Conn → ℕ → Conn
set_expected c n = set_input c (record c.input { request_expected = n })

-- `request = ++c->out.request`
abbrev pub next_request : Conn → Conn
next_request c = set_request c ((c.output.request + 1) % u64)

-- The condition of the loop in lines 221 to 223; `request` is `c->out.request`.
unfoldable pub needs_sync : Conn → Bool → Bool
needs_sync c isvoid =
    (isvoid && c.output.request == (c.input.request_expected + 0xffff) % u64)
    || c.output.request == 0

-- The body: a request for input focus takes the number, and the request gets the next. The result
-- tells whether the body has run, which sets `prefix[0]`.
unfoldable pub sync : Conn → Bool → Conn
sync c allocated =
    let c' = (expect_reply c c.output.request no_workaround only_discard allocated).1 in
    next_request (set_expected c' c.output.request)

-- The loop, with fuel and the results of malloc.
unfoldable pub sync_loop : ℕ → Conn → Bool → (ℕ → Bool) → Option (Bool × Conn)
sync_loop zero c isvoid m = none
sync_loop (suc fuel) c isvoid m =
    let rest = sync_loop fuel (sync c (m fuel)) isvoid m in
    if needs_sync c isvoid
    then (elim rest [ none ↦ none | some (_, c') ↦ some (true, c') ])
    else some (false, c)

abbrev pub has_workaround : Workaround → Bool
has_workaround w = elim w [ no_workaround ↦ false | _ ↦ true ]

-- Lines 231 to 234.
unfoldable pub expect : Conn → Bool → Workaround → Flags → Bool → Conn
expect c isvoid workaround flags allocated =
    let c' = (expect_reply c c.output.request workaround flags allocated).1 in
    let c'' = if has_workaround workaround || nonzero flags then c' else c in
    if isvoid then c'' else set_expected c'' c''.output.request

-- Lines 215 to 234. The result holds `prefix[0] != 0`, and the number in `c->out.request`.
unfoldable pub number_request :
    Conn → Bool → Workaround → Flags → Bool → (ℕ → Bool) → Option (Bool × Conn)
number_request c isvoid workaround flags allocated m =
    elim (sync_loop 3 (next_request c) isvoid m) [
      | none ↦ none
      | some (synced, c') ↦ some (synced, expect c' isvoid workaround flags allocated)
    ]
