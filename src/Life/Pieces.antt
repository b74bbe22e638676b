-- ===== src/Life/Pieces.antt =====
-- The pieces into which waiting cuts the calls: a thread that waits has let go of the lock, and other
-- threads find the connection as its last piece has left it.
use androix_xcb_libxcb.Base.{ℕ, ◌≡◌, Bool, true, List, [], Option, some}
use androix_xcb_libxcb.Conn.{Conn, Flags, Workaround, conn_shutdown, set_input}
use androix_xcb_libxcb.In.Poll.{get_event, poll_for_reply}
use androix_xcb_libxcb.In.Wait.{set_readers, wake_up}
use androix_xcb_libxcb.Conn.{Reader}
use androix_xcb_libxcb.Out.Number.{number_request}
use androix_xcb_libxcb.Out.Request.{set_moving, socket_back, hand_over}
use androix_xcb_libxcb.Out.Send.{finish_send, add_requests}
use androix_xcb_libxcb.Out.Vector.{Iovec, set_queue, write_block, buffered}
use androix_xcb_libxcb.Wait.{Turn, count_up, count_down, polled}
use androix_xcb_libxcb.Life.Evolves.{Evolves, conn_shutdown-Evolves, Evolves-trans}
use androix_xcb_libxcb.Life.Loan.{set_moving-Evolves, socket_back-Evolves, hand_over-Evolves}
use androix_xcb_libxcb.Life.Numbering.{number_request-Evolves}
use androix_xcb_libxcb.Life.Polling.{poll_for_reply-Evolves, get_event-Evolves}
use androix_xcb_libxcb.Life.Requests.{buffered-Evolves, add_requests-Evolves}
use androix_xcb_libxcb.Life.Sending.{clear-Evolves, finish_send-Evolves}
use androix_xcb_libxcb.Life.Rounds.{count_up-Evolves, count_down-Evolves, polled-Evolves}
use androix_xcb_libxcb.Life.Waiting.{set_readers-Evolves, wake_up-Evolves}

-- `size` is XCB_QUEUE_BUFFER_SIZE, and `keymap_notify` XCB_KEYMAP_NOTIFY.
pub data Piece (size keymap_notify : ℕ) : Conn → Conn → Type 0 where
  -- _xcb_conn_wait, up to the call of poll and from there on
  starts_poll : (c : Conn) (writer : Bool) → Piece size keymap_notify c (count_up c writer)
  ends_poll :
      (c : Conn) (writer : Bool) (vector : Option (List Iovec)) (t : Turn)
      → Piece size keymap_notify c (count_down (polled keymap_notify c vector t).2 writer)
  -- xcb_send_request: the number, a request that the queue has room for, a queue that is taken to be
  -- sent, and a failure
  numbers :
      (c c' : Conn) (isvoid synced allocated : Bool) (w : Workaround) (flags : Flags) (m : ℕ → Bool)
      → number_request c isvoid w flags allocated m ≡ some (synced, c')
      → Piece size keymap_notify c c'
  buffers :
      (c c' : Conn) (vector : List Iovec)
      → write_block size c vector ≡ buffered c'
      → Piece size keymap_notify c c'
  empties : (c : Conn) → Piece size keymap_notify c (set_queue c [])
  fails : (c : Conn) → Piece size keymap_notify c (conn_shutdown c)
  -- _xcb_out_send once all is written, and xcb_writev before it
  sent_all : (c : Conn) → Piece size keymap_notify c (finish_send c)
  counts : (c : Conn) (requests : ℕ) → Piece size keymap_notify c (add_requests c requests)
  -- the loan of the socket
  asks_back : (c : Conn) → Piece size keymap_notify c (set_moving c true)
  gets_back : (c : Conn) → Piece size keymap_notify c (socket_back c)
  lends :
      (c : Conn) (return_socket closure : ℕ) (flags : Flags) (allocated : Bool)
      → Piece size keymap_notify c (hand_over c return_socket closure flags allocated)
  -- waiting for a reply or an event: a reader comes or goes, a look, and the next reader's turn
  enlists : (c : Conn) (readers : List Reader) → Piece size keymap_notify c (set_readers c readers)
  looks :
      (c : Conn) (request : ℕ) (error allocated : Bool)
      → Piece size keymap_notify c (set_input c (poll_for_reply c.input request error allocated).1)
  takes_event : (c : Conn) → Piece size keymap_notify c (set_input c (get_event c.input).1)
  passes_on : (c : Conn) → Piece size keymap_notify c (wake_up c)

pub Piece-Evolves : {size k : ℕ} {c c' : Conn} → Piece size k c c' → Evolves size c c'
Piece-Evolves {size} (starts_poll c w) = count_up-Evolves size c w
Piece-Evolves {size} {k} (ends_poll c w v t) =
    let p = (polled k c v t).2 in
    Evolves-trans size c p (count_down p w) (polled-Evolves size k c v t)
      (count_down-Evolves size p w)
Piece-Evolves {size} (numbers c c' isvoid synced allocated w flags m e) =
    number_request-Evolves size c c' isvoid synced w flags allocated m e
Piece-Evolves {size} (buffers c c' vector e) = buffered-Evolves size c c' vector e
Piece-Evolves {size} (empties c) = clear-Evolves size c
Piece-Evolves {size} (fails c) = conn_shutdown-Evolves size c
Piece-Evolves {size} (sent_all c) = finish_send-Evolves size c
Piece-Evolves {size} (counts c requests) = add_requests-Evolves size c requests
Piece-Evolves {size} (asks_back c) = set_moving-Evolves size c true
Piece-Evolves {size} (gets_back c) = socket_back-Evolves size c
Piece-Evolves {size} (lends c r closure flags m) = hand_over-Evolves size c r closure flags m
Piece-Evolves {size} (enlists c l) = set_readers-Evolves size c l
Piece-Evolves {size} (looks c request error m) = poll_for_reply-Evolves size c request error m
Piece-Evolves {size} (takes_event c) = get_event-Evolves size c
Piece-Evolves {size} (passes_on c) = wake_up-Evolves size c
