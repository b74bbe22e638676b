-- ===== src/In/Expect.antt =====
-- _xcb_in_init, _xcb_in_destroy, _xcb_in_wake_up_next_reader, _xcb_in_expect_reply and
-- _xcb_in_replies_done.
pub mod Laws
use androix_xcb_libxcb.Base.{
  ℕ, zero, suc, ◌+◌, ◌-◌, Bool, true, false, List, [], ◌∷◌, ◌++◌, Option, none, some, ◌==◌,
  if◌then◌else◌, get_elem?, set,
}
use androix_xcb_libxcb.Chain.{Chain, new, append}
use androix_xcb_libxcb.Map.{map_new, map_delete}
use androix_xcb_libxcb.Conn.{
  Conn, In, Packet, PendingReply, Workaround, no_workaround, Flags, reader, event, conn_shutdown,
  set_input, signal,
}
use androix_xcb_libxcb.In.Number.{is_external}

-- _xcb_in_init on the zeroed memory of xcb_connect_to_fd; `cond_init` says whether
-- pthread_cond_init succeeds.
unfoldable pub in_init : Bool → Bool → Option In
in_init cond_init allocated =
    if cond_init
    then (elim (map_new {A = List Packet} allocated) [
      | none ↦ none
      | some replies ↦ some (record {
        reading = 0;
        queue = [];
        request_expected = 0;
        request_read = 0;
        request_completed = 0;
        current_reply = new;
        replies = replies;
        events = new;
        readers = [];
        pending_replies = new;
        wakes = [];
      })
    ])
    else none

pub flatten_packets : List (List Packet) → List Packet
flatten_packets [] = []
flatten_packets (l ∷ ls) = l ++ flatten_packets ls

-- _xcb_in_destroy: the packets that are freed, in order.
unfoldable pub in_destroy : In → List Packet
unfolding flatten_packets
in_destroy i =
    i.current_reply.nodes ++ (flatten_packets (map_delete i.replies.nodes) ++ i.events.nodes)

-- _xcb_in_wake_up_next_reader
unfoldable pub wake_up_next_reader : In → In
wake_up_next_reader i = elim i.readers [ [] ↦ signal i event | r ∷ _ ↦ signal i (reader r.cond) ]

-- _xcb_in_expect_reply
unfoldable pub expect_reply : Conn → ℕ → Workaround → Flags → Bool → Bool × Conn
expect_reply c request workaround flags allocated =
    let pend : PendingReply = record {
      first_request = request;
      last_request = request;
      workaround = workaround;
      flags = flags;
    } in
    if allocated
    then (
      true,
      set_input c (record c.input { pending_replies = append c.input.pending_replies pend }),
    )
    else (false, conn_shutdown c)

-- _xcb_in_replies_done: the tail pointer leads to the last node, unless it points at the head.
unfoldable pub finish_external : PendingReply → ℕ → PendingReply
finish_external pend request =
    if is_external pend
    then record pend { last_request = request; workaround = no_workaround }
    else pend

unfoldable pub replies_done : Conn → Conn
unfolding finish_external
replies_done c =
    let pending = c.input.pending_replies in
    let last : ℕ = pending.tail - 1 in
    if pending.tail == 0 then c else elim (get_elem? pending.nodes last) [
      | none ↦ c
      | some pend ↦ set_input c (record c.input {
        pending_replies = record pending {
          nodes = set pending.nodes last (finish_external pend c.output.request);
        };
      })
    ]
