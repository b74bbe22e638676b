-- ===== src/Life/Calls.antt =====
-- What can become of a connection: calls of the library by any number of threads, whole or in pieces.
pub mod Laws
use androix_xcb_libxcb.Base.{
  ℕ, suc, ◌≡◌, refl, Bool, List, [], ◌∷◌, Option, some, get_elem?, arith, All, ◌||◌,
}
use androix_xcb_libxcb.Conn.{Conn, Flags, Packet}
use androix_xcb_libxcb.Connect.{Means, connect_to_fd}
use androix_xcb_libxcb.Connect.Calls.{Call}
use androix_xcb_libxcb.Connect.Greeting.{SetupFormat, AuthInfo}
use androix_xcb_libxcb.Ext.{QueryExtension, Ext, get_extension_data, prefetch_extension_data}
use androix_xcb_libxcb.In.Discard.{xcb_discard_reply}
use androix_xcb_libxcb.In.Poll.{Answer, xcb_poll_for_reply, xcb_poll_for_event}
use androix_xcb_libxcb.In.Read.{Mallocs}
use androix_xcb_libxcb.In.Wait.{wait_for_reply, wait_for_event, request_check}
use androix_xcb_libxcb.Out.Length.{BigRequests, Part, prefetch_maximum, get_maximum_request_length}
use androix_xcb_libxcb.Out.Request.{
  Extension, ProtocolRequest, Allocated, fill_header, send_request, take_socket,
}
use androix_xcb_libxcb.Out.Send.{writev, flush}
use androix_xcb_libxcb.Out.Vector.{Iovec}
use androix_xcb_libxcb.Wait.{Turn}
use androix_xcb_libxcb.Xid.{XcMisc, generate_id}
use androix_xcb_libxcb.Life.Beginning.{connect_to_fd-IsSound}
use androix_xcb_libxcb.Life.Evolves.{
  IsBytes, IsSound, Extends, Evolves, Evolves-refl, Evolves-trans,
}
use androix_xcb_libxcb.Life.Lengths.{
  prefetch_maximum-Evolves, get_maximum_request_length-Evolves, fill_header-Evolves,
}
use androix_xcb_libxcb.Life.Loan.{take_socket-Evolves}
use androix_xcb_libxcb.Life.Others.{
  generate_id-Evolves, get_extension_data-Evolves, prefetch_extension_data-Evolves,
}
use androix_xcb_libxcb.Life.Pieces.{Piece, Piece-Evolves}
use androix_xcb_libxcb.Life.Polling.{
  xcb_poll_for_reply-Evolves, xcb_poll_for_event-Evolves, xcb_discard_reply-Evolves,
}
use androix_xcb_libxcb.Life.Requests.{flush-Evolves, writev-Evolves, send_request-Evolves}
use androix_xcb_libxcb.Life.Rounds.{IsFair}
use androix_xcb_libxcb.Life.Waiting.{wait_for_reply-Evolves}
use androix_xcb_libxcb.Life.Checking.{wait_for_event-Evolves, request_check-Evolves}

module _ (size keymap_notify : ℕ) where
  -- `Reach c c'`: calls by any threads take `c` to `c'`. In the rounds that a call waits, other threads
  -- make calls, and so does the generated code through which a call asks the server.
  pub data Reach : Conn → Conn → Type 0 where
    stays : (c : Conn) → Reach c c
    follows : {a b c : Conn} → Reach a b → Reach b c → Reach a c
    -- a thread that has not come to the end of its call, or goes on with it
    piece : {c c' : Conn} → Piece size keymap_notify c c' → Reach c c'
    -- calls that do not wait
    polls_reply :
        (c : Conn) (request : ℕ) (error allocated : Bool)
        → Reach c (xcb_poll_for_reply c request error allocated).1
    polls_event :
        (c c' : Conn) (fuel : ℕ) (m : ℕ → Mallocs) (e : Option Packet)
        → xcb_poll_for_event fuel keymap_notify c m ≡ some (e, c')
        → Reach c c'
    discards :
        (c : Conn) (sequence : ℕ) (allocated : Bool)
        → Reach c (xcb_discard_reply c sequence allocated)
    -- calls that ask the server
    generates_id :
        (c : Conn) (server : XcMisc)
        → ((d : Conn) → Reach d (server.extension d).1)
        → ((d : Conn) → Reach d (server.get_xid_range d).1)
        → Reach c (generate_id server c).1
    gets_extension :
        (x : Ext Conn Packet) (server : QueryExtension Conn Packet) (ext : ℕ) (allocated : Bool)
        → ((d : Conn) (n : ℕ) → Reach d (server.query_extension d n).1)
        → ((d : Conn) (n : ℕ) → Reach d (server.query_extension_reply d n).1)
        → Reach x.connection (get_extension_data server x ext allocated).1.connection
    prefetches_extension :
        (x : Ext Conn Packet) (server : QueryExtension Conn Packet) (ext : ℕ) (allocated : Bool)
        → ((d : Conn) (n : ℕ) → Reach d (server.query_extension d n).1)
        → ((d : Conn) (n : ℕ) → Reach d (server.query_extension_reply d n).1)
        → Reach x.connection (prefetch_extension_data server x ext allocated).connection
    gets_maximum :
        (c : Conn) (server : BigRequests)
        → ((d : Conn) → Reach d (server.extension d).1)
        → ((d : Conn) → Reach d (server.enable d).1)
        → ((d : Conn) (n : ℕ) → Reach d (server.enable_reply d n).1)
        → Reach c (get_maximum_request_length server c).1
    prefetches_maximum :
        (c : Conn) (server : BigRequests)
        → ((d : Conn) → Reach d (server.extension d).1)
        → ((d : Conn) → Reach d (server.enable d).1)
        → ((d : Conn) (n : ℕ) → Reach d (server.enable_reply d n).1)
        → Reach c (prefetch_maximum server c)
    fills_header :
        (c : Conn) (server : BigRequests) (flags : Flags) (req : ProtocolRequest)
        (parts : List Part)
        → ((d : Conn) → Reach d (server.extension d).1)
        → ((d : Conn) → Reach d (server.enable d).1)
        → ((d : Conn) (n : ℕ) → Reach d (server.enable_reply d n).1)
        → ((ext : Extension) (d : Conn) → req.ext ≡ some ext → Reach d (ext.major_opcode d).1)
        → Reach c (fill_header server c flags req parts).1
    -- calls that wait
    sends_request :
        (c c' : Conn) (server : BigRequests) (turns left : List Turn) (flags : Flags)
        (parts : List Part) (req : ProtocolRequest) (m : Allocated) (number : ℕ)
        → ((d : Conn) → Reach d (server.extension d).1)
        → ((d : Conn) → Reach d (server.enable d).1)
        → ((d : Conn) (n : ℕ) → Reach d (server.enable_reply d n).1)
        → ((ext : Extension) (d : Conn) → req.ext ≡ some ext → Reach d (ext.major_opcode d).1)
        → ((i : ℕ) (t : Turn) → get_elem? turns i ≡ some t → (d : Conn) → Reach d (t.others d))
        → send_request size keymap_notify server turns c flags parts req m ≡ some (number, c', left)
        → Reach c c'
    takes_socket :
        (c c' : Conn) (turns left : List Turn) (return_socket closure : ℕ) (flags : Flags)
        (allocated ret : Bool) (number : Option ℕ)
        → ((i : ℕ) (t : Turn) → get_elem? turns i ≡ some t → (d : Conn) → Reach d (t.others d))
        → take_socket keymap_notify turns c return_socket closure flags allocated
          ≡ some (ret, number, c', left)
        → Reach c c'
    writes :
        (c c' : Conn) (turns left : List Turn) (vector : List Iovec) (requests : ℕ) (r : Bool)
        → ((i : ℕ) (t : Turn) → get_elem? turns i ≡ some t → (d : Conn) → Reach d (t.others d))
        → writev keymap_notify turns c vector requests ≡ some (r, c', left)
        → Reach c c'
    flushes :
        (c c' : Conn) (turns left : List Turn) (r : Bool)
        → ((i : ℕ) (t : Turn) → get_elem? turns i ≡ some t → (d : Conn) → Reach d (t.others d))
        → flush keymap_notify turns c ≡ some (r, c', left)
        → Reach c c'
    waits_reply :
        (c c' : Conn) (turns left : List Turn) (request cond : ℕ) (error allocated : Bool)
        (a : Answer)
        → ((i : ℕ) (t : Turn) → get_elem? turns i ≡ some t → (d : Conn) → Reach d (t.others d))
        → wait_for_reply keymap_notify turns c request cond error allocated ≡ some (a, c', left)
        → Reach c c'
    waits_event :
        (c c' : Conn) (turns left : List Turn) (ret : Option Packet)
        → ((i : ℕ) (t : Turn) → get_elem? turns i ≡ some t → (d : Conn) → Reach d (t.others d))
        → wait_for_event keymap_notify turns c ≡ some (ret, c', left)
        → Reach c c'
    checks :
        (c c' : Conn) (focus : Conn → Conn) (turns left : List Turn) (sequence cond : ℕ)
        (allocated : Bool) (error : Option Packet)
        → ((d : Conn) → Reach d (focus d))
        → ((i : ℕ) (t : Turn) → get_elem? turns i ≡ some t → (d : Conn) → Reach d (t.others d))
        → request_check keymap_notify focus turns c sequence cond allocated ≡ some (error, c', left)
        → Reach c c'
