-- ===== src/In/Discard.antt =====
-- insert_pending_discard, discard_reply and xcb_discard_reply.
pub mod Laws
pub mod Walk
use androix_xcb_libxcb.Base.{
  ℕ, zero, suc, ◌+◌, Bool, true, false, List, [], ◌∷◌, Option, none, some, length, ◌==◌,
  if◌then◌else◌, ◌&&◌, set,
}
use androix_xcb_libxcb.Sequence.{seq_lt32, seq_le32, seq_eq32, widen32}
use androix_xcb_libxcb.Chain.{Chain, new, insert_at}
use androix_xcb_libxcb.Map.{map_remove}
use androix_xcb_libxcb.Conn.{Conn, In, PendingReply, Flags, no_workaround, conn_shutdown, set_input}
use androix_xcb_libxcb.In.Number.{pending_now}
use androix_xcb_libxcb.In.Poll.{has_current}

abbrev pub only_discard : Flags
only_discard = record { checked = false; raw = false; discard_reply = true }

-- insert_pending_discard at the slot `prev_next`.
unfoldable pub insert_pending_discard : Conn → ℕ → ℕ → Bool → Conn
insert_pending_discard c prev_next seq allocated =
    let pend : PendingReply = record {
      first_request = seq;
      last_request = seq;
      workaround = no_workaround;
      flags = only_discard;
    } in
    if allocated
    then set_input c
        (record c.input { pending_replies = insert_at c.input.pending_replies prev_next pend })
    else conn_shutdown c

-- `pend->flags |= XCB_REQUEST_DISCARD_REPLY`
abbrev pub mark_discard : PendingReply → PendingReply
mark_discard p = record p { flags = record p.flags { discard_reply = true } }

-- Lines 492 to 504: the slot at which the walk ends, and whether it is that of the request.
unfoldable pub find_pending : List PendingReply → ℕ → ℕ → Bool × ℕ
find_pending [] request prev_pend = (false, prev_pend)
find_pending (p ∷ ps) request prev_pend =
    let rest = find_pending ps request (suc prev_pend) in
    if seq_eq32 p.first_request request
    then (true, prev_pend)
    else (if seq_le32 p.first_request request then rest else (false, prev_pend))

-- `(*prev_pend)->flags |= XCB_REQUEST_DISCARD_REPLY`
unfoldable pub mark_at : List PendingReply → ℕ → List PendingReply
mark_at [] i = []
mark_at (p ∷ ps) zero = mark_discard p ∷ ps
mark_at (p ∷ ps) (suc i) = p ∷ mark_at ps i

abbrev pub mark_pending : Conn → ℕ → Conn
mark_pending c slot =
    let pending = c.input.pending_replies in
    set_input c
      (record c.input { pending_replies = record pending { nodes = mark_at pending.nodes slot } })

-- discard_reply
unfoldable pub discard_reply : Conn → ℕ → Bool → Conn
discard_reply c request allocated =
    let i = c.input in
    let stored = set_input c (record i { replies = (map_remove i.replies request).1 }) in
    let freed = set_input c (record i { current_reply = new }) in
    let found = find_pending i.pending_replies.nodes request 0 in
    if seq_lt32 request i.request_read
    then stored
    else (if seq_eq32 request i.request_read && has_current i
        then (elim (pending_now i) [
          | some _ ↦ mark_pending freed 0
          | none ↦ insert_pending_discard freed 0 i.request_read allocated
        ])
        else (if found.0
            then mark_pending c found.1
            else insert_pending_discard c found.1 (widen32 c.output.request request) allocated))

-- xcb_discard_reply
unfoldable pub xcb_discard_reply : Conn → ℕ → Bool → Conn
xcb_discard_reply c sequence allocated =
    if c.has_error then c else (if sequence == 0 then c else discard_reply c sequence allocated)
