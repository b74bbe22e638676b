-- ===== src/Life/Calls/Laws.antt =====
-- What every call keeps, also between its beginning and its end.
use androix_xcb_libxcb.Base.{
  ℕ, suc, ◌≡◌, refl, List, [], ◌∷◌, Option, some, get_elem?, arith, All, ◌||◌,
}
use androix_xcb_libxcb.Conn.{Conn}
use androix_xcb_libxcb.Connect.{Means, connect_to_fd}
use androix_xcb_libxcb.Connect.Calls.{Call}
use androix_xcb_libxcb.Connect.Greeting.{SetupFormat, AuthInfo}
use androix_xcb_libxcb.Wait.{Turn}
use androix_xcb_libxcb.Life.Beginning.{connect_to_fd-IsSound}
use androix_xcb_libxcb.Life.Evolves.{
  IsBytes, IsSound, Extends, Evolves, Evolves-refl, Evolves-trans,
}
use androix_xcb_libxcb.Life.Lengths.{
  prefetch_maximum-Evolves, get_maximum_request_length-Evolves, fill_header-Evolves,
}
use androix_xcb_libxcb.Life.Loan.{take_socket-Evolves}
use androix_xcb_libxcb.Life.Others.{
  generate_id-Evolves, get_extension_data-Evolves, prefetch_extension_data-Evolves,
}
use androix_xcb_libxcb.Life.Pieces.{Piece-Evolves}
use androix_xcb_libxcb.Life.Polling.{
  xcb_poll_for_reply-Evolves, xcb_poll_for_event-Evolves, xcb_discard_reply-Evolves,
}
use androix_xcb_libxcb.Life.Requests.{flush-Evolves, writev-Evolves, send_request-Evolves}
use androix_xcb_libxcb.Life.Rounds.{IsFair}
use androix_xcb_libxcb.Life.Waiting.{wait_for_reply-Evolves}
use androix_xcb_libxcb.Life.Checking.{wait_for_event-Evolves, request_check-Evolves}
use androix_xcb_libxcb.Life.Calls.{
  Reach, stays, follows, piece, polls_reply, polls_event, discards, generates_id, gets_extension,
  prefetches_extension, gets_maximum, prefetches_maximum, fills_header, sends_request, takes_socket,
  writes, flushes, waits_reply, waits_event, checks,
}

-- Rounds in which others keep the connection in order, one by one and all together.
All-IsFair :
    (size : ℕ) (turns : List Turn)
    → ((i : ℕ) (t : Turn) → get_elem? turns i ≡ some t → (d : Conn) → Evolves size d (t.others d))
    → All (IsFair size) turns
All-IsFair size [] h = tt
All-IsFair size (t ∷ turns) h =
    (record { others = h 0 t refl }, All-IsFair size turns (λ i u e. h (suc i) u e))

Reach-Evolves : {size k : ℕ} {c c' : Conn} → Reach size k c c' → Evolves size c c'
Reach-Evolves {size} {k} (stays c) = Evolves-refl size c
Reach-Evolves {size} {k} (follows {a} {b} {c} f g) =
    Evolves-trans size a b c (Reach-Evolves f) (Reach-Evolves g)
Reach-Evolves {size} {k} (piece p) = Piece-Evolves p
Reach-Evolves {size} {k} (polls_reply c request error m) =
    xcb_poll_for_reply-Evolves size c request error m
Reach-Evolves {size} {k} (polls_event c c' fuel m e h) =
    xcb_poll_for_event-Evolves size fuel k c m e c' h
Reach-Evolves {size} {k} (discards c n m) = xcb_discard_reply-Evolves size c n m
Reach-Evolves {size} {k} (generates_id c server x r) =
    generate_id-Evolves size server
      (record { extension = λ d. Reach-Evolves (x d); get_xid_range = λ d. Reach-Evolves (r d) }) c
Reach-Evolves {size} {k} (gets_extension x server ext m q r) =
    get_extension_data-Evolves size server
      (record {
        query_extension = λ d i. Reach-Evolves (q d i);
        query_extension_reply = λ d i. Reach-Evolves (r d i);
      })
      x ext m
Reach-Evolves {size} {k} (prefetches_extension x server ext m q r) =
    prefetch_extension_data-Evolves size server
      (record {
        query_extension = λ d i. Reach-Evolves (q d i);
        query_extension_reply = λ d i. Reach-Evolves (r d i);
      })
      x ext m
Reach-Evolves {size} {k} (gets_maximum c server x n r) =
    get_maximum_request_length-Evolves size server
      (record {
        extension = λ d. Reach-Evolves (x d);
        enable = λ d. Reach-Evolves (n d);
        enable_reply = λ d i. Reach-Evolves (r d i);
      })
      c
Reach-Evolves {size} {k} (prefetches_maximum c server x n r) =
    prefetch_maximum-Evolves size server
      (record {
        extension = λ d. Reach-Evolves (x d);
        enable = λ d. Reach-Evolves (n d);
        enable_reply = λ d i. Reach-Evolves (r d i);
      })
      c
Reach-Evolves {size} {k} (fills_header c server flags req parts x n r o) =
    fill_header-Evolves size server
      (record {
        extension = λ d. Reach-Evolves (x d);
        enable = λ d. Reach-Evolves (n d);
        enable_reply = λ d i. Reach-Evolves (r d i);
      })
      c flags req parts (record { major_opcode = λ ext d q. Reach-Evolves (o ext d q) })
Reach-Evolves {size} {k}
      (sends_request c c' server turns left flags parts req m number x n r o h e) =
    (send_request-Evolves size k server turns c flags parts req m number c' left
      (record {
        extension = λ d. Reach-Evolves (x d);
        enable = λ d. Reach-Evolves (n d);
        enable_reply = λ d i. Reach-Evolves (r d i);
      })
      (record { major_opcode = λ ext d q. Reach-Evolves (o ext d q) })
      (All-IsFair size turns (λ i t q d. Reach-Evolves (h i t q d))) e).0
Reach-Evolves {size} {k} (takes_socket c c' turns left r closure flags m ret number h e) =
    (take_socket-Evolves size k turns c r closure flags m ret number c' left
      (All-IsFair size turns (λ i t q d. Reach-Evolves (h i t q d))) e).0
Reach-Evolves {size} {k} (writes c c' turns left v n r h e) =
    (writev-Evolves size k turns c v n r c' left
      (All-IsFair size turns (λ i t q d. Reach-Evolves (h i t q d))) e).0
Reach-Evolves {size} {k} (flushes c c' turns left r h e) =
    (flush-Evolves size k turns c r c' left
      (All-IsFair size turns (λ i t q d. Reach-Evolves (h i t q d))) e).0
Reach-Evolves {size} {k} (waits_reply c c' turns left request cond error m a h e) =
    (wait_for_reply-Evolves size k turns c request cond error m a c' left
      (All-IsFair size turns (λ i t q d. Reach-Evolves (h i t q d))) e).0
Reach-Evolves {size} {k} (waits_event c c' turns left ret h e) =
    (wait_for_event-Evolves size k turns c ret c' left
      (All-IsFair size turns (λ i t q d. Reach-Evolves (h i t q d))) e).0
Reach-Evolves {size} {k} (checks c c' focus turns left sequence cond m error g h e) =
    (request_check-Evolves size k focus turns c sequence cond m error c' left
      (λ d. Reach-Evolves (g d)) (All-IsFair size turns (λ i t q d. Reach-Evolves (h i t q d))) e).0

-- A connection that xcb_connect_to_fd has returned is in order, and stays so, whatever calls any
-- threads make, whole or in pieces, and whatever fails in them: every tail pointer of the input side
-- is at its last link, the input queue and the output queue fit their buffers, the input queue holds
-- bytes, and all sequence numbers are below 2 ^ 64. What recv gives is bytes, and while
-- xcb_connect_to_fd waits, other threads do to the connection no more than such calls.
pub connect_to_fd-Reach :
    (size k fd : ℕ) (format : SetupFormat) (auth : Option AuthInfo) (m : Means) (c c' : Conn)
    (calls : List Call)
    → ((i : ℕ) (t : Turn) → get_elem? m.turns i ≡ some t → (d : Conn) → Reach size k d (t.others d))
    → All IsBytes m.socket
    → connect_to_fd format k fd auth m ≡ some (some c, calls)
    → Reach size k c c'
    → IsSound size c'
connect_to_fd-Reach size k fd format auth m c c' calls h y e r =
    let f = All-IsFair size m.turns (λ i t q d. Reach-Evolves (h i t q d)) in
    (Reach-Evolves r).sound (connect_to_fd-IsSound size format k fd auth m c calls y f e)

-- Whatever calls any threads make on a connection, whole or in pieces: an error stays, the setup stays,
-- and what has been sent stays sent, with what is sent later behind it.
pub Reach-Extends :
    (size k : ℕ) (c c' : Conn)
    → Reach size k c c'
    → ((c.has_error || c'.has_error) ≡ c'.has_error) × (c'.setup ≡ c.setup) × Extends c.sent c'.sent
Reach-Extends size k c c' r =
    let v = Reach-Evolves r in
    let e : (c.has_error || c'.has_error) ≡ c'.has_error = ground (arith, v.shut) in
    (e, v.setup, v.sent)
