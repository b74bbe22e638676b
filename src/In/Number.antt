-- ===== src/In/Number.antt =====
-- read_packet, its first part: the header of a packet, the number of the request it belongs to, and
-- what that number says about the requests before it.
pub mod Laws
use androix_xcb_libxcb.Base.{
  ℕ, zero, suc, ◌+◌, ◌-◌, ◌*◌, ◌%◌, Bool, true, false, List, [], ◌∷◌, Option, none, some, get_or,
  leb, ltb, ◌==◌, if◌then◌else◌, ◌&&◌, ◌||◌, not, length,
}
use androix_xcb_libxcb.Sequence.{u64, u32, sub64, seq_lt, seq_le, widen16}
use androix_xcb_libxcb.Chain.{Chain, new, unlink}
use androix_xcb_libxcb.Map.{map_put}
use androix_xcb_libxcb.Conn.{
  In, Packet, PendingReply, Workaround, no_workaround, glx_get_fb_configs_bug,
  external_socket_owner,
}

-- The bytes of a 16-bit and of a 32-bit number, on the little-endian hosts.
abbrev pub card16 : List ℕ → ℕ → ℕ
card16 b i = get_or b i 0 + 256 * get_or b (i + 1) 0

abbrev pub card32 : List ℕ → ℕ → ℕ
card32 b i = card16 b i + 0x10000 * card16 b (i + 2)

-- xcb_generic_reply_t
pub record GenericReply : Type 0 where
  pub response_type : ℕ
  pub sequence : ℕ
  pub len : ℕ

abbrev pub genrep : List ℕ → GenericReply
genrep b = record { response_type = get_or b 0 0; sequence = card16 b 2; len = card32 b 4 }

-- XCB_ERROR, XCB_REPLY, XCB_XGE_EVENT
abbrev pub xcb_error : ℕ
xcb_error = 0

abbrev pub xcb_reply : ℕ
xcb_reply = 1

abbrev pub xcb_xge_event : ℕ
xcb_xge_event = 35

abbrev pub is_external : PendingReply → Bool
is_external p = elim p.workaround [ external_socket_owner ↦ true | _ ↦ false ]

-- Lines 102 to 107: the number of the packet.
unfoldable pub read_number : In → ℕ → In
read_number i sequence =
    let request_read : ℕ = widen16 i.request_read sequence in
    record i {
      request_read = request_read;
      request_expected =
          if seq_le request_read i.request_expected then i.request_expected else request_read;
    }

-- Lines 109 to 118: replies to the request before go into the map. `i` has the new number.
unfoldable pub store_current : In → ℕ → Bool → In
store_current i lastread allocated =
    let moved = (map_put i.replies (lastread % u32) i.current_reply.nodes allocated).0 in
    elim i.current_reply.nodes [
      | [] ↦ i
      | _ ∷ _ ↦ record i { replies = moved; current_reply = new }
    ]

unfoldable pub complete_before : In → ℕ → Bool → In
unfolding store_current
complete_before i lastread allocated =
    if i.request_read == lastread
    then i
    else record (store_current i lastread allocated) { request_completed = sub64 i.request_read 1 }

-- The condition of the loop in lines 120 to 122.
unfoldable pub is_done : ℕ → PendingReply → Bool
is_done completed p = not (is_external p) && seq_le p.last_request completed

-- The loop over the first `n` nodes.
unfoldable pub drop_done : ℕ → ℕ → Chain PendingReply → Chain PendingReply
drop_done zero completed c = c
drop_done (suc n) completed c =
    let rest = drop_done n completed (unlink c 0) in
    elim c.nodes [ [] ↦ c | p ∷ _ ↦ if is_done completed p then rest else c ]

-- Lines 99 to 133. `keymap_notify` is the type of the one event without a sequence number, from the
-- generated xproto.h.
unfoldable pub number_packet : ℕ → In → GenericReply → Bool → In
number_packet keymap_notify i rep allocated =
    let numbered = complete_before (read_number i rep.sequence) i.request_read allocated in
    let pruned = record numbered {
      pending_replies =
          drop_done (length numbered.pending_replies.nodes) numbered.request_completed
            numbered.pending_replies;
    } in
    let done = record pruned { request_completed = pruned.request_read } in
    if rep.response_type % 0x80 == keymap_notify
    then i
    else (if rep.response_type == xcb_error then done else pruned)

-- Lines 137 to 142, and lines 478 to 483 of discard_reply: does the first pending reply cover the
-- request now read?
unfoldable pub covers : ℕ → PendingReply → Bool
covers request_read p =
    seq_le p.first_request request_read && (is_external p || seq_le request_read p.last_request)

unfoldable pub pending_now : In → Option PendingReply
unfolding covers
pending_now i = elim i.pending_replies.nodes [
  | [] ↦ none
  | p ∷ _ ↦ if covers i.request_read p then some p else none
]
