-- ===== src/Life/Requests.antt =====
-- Sending requests, and what the caller has made.

use androix_xcb_libxcb.Base.{
  ℕ, ◌≡◌, inl, inr, Bool, false, List, [], some, arith, All, Bool-cases, Option-cases,
  if◌then◌else◌,
}
use androix_xcb_libxcb.Conn.{Conn, Flags, conn_shutdown}
use androix_xcb_libxcb.Out.Length.{BigRequests, Part, add_prefix}
use androix_xcb_libxcb.Out.Number.{number_request}
use androix_xcb_libxcb.Out.Request.{
  ProtocolRequest, request_workaround, fill_header, write_all, Allocated, transmit, claim_socket,
  send_request,
}
use androix_xcb_libxcb.Out.Request.Bytes.{write_block_cases}
use androix_xcb_libxcb.Out.Send.{out_send, wait_writing, add_requests, writev, flush}
use androix_xcb_libxcb.Out.Vector.{Iovec, set_queue, write_block, buffered}
use androix_xcb_libxcb.Out.Vector.Laws.{write_block-outgoing}
use androix_xcb_libxcb.Wait.{Turn}
use androix_xcb_libxcb.Life.Evolves.{
  Evolves, Evolves-refl, Evolves-trans, Evolves-eq, conn_shutdown-Evolves, set_output-Evolves,
}
use androix_xcb_libxcb.Life.Lengths.{IsFairServer, IsFairRequest, fill_header-Evolves}
use androix_xcb_libxcb.Life.Loan.{get_socket_back-Evolves}
use androix_xcb_libxcb.Life.Numbering.{number_request-Evolves}
use androix_xcb_libxcb.Life.Sending.{
  Ended, ended, and_then, out_send-Evolves, wait_writing-Evolves, flush_to-Evolves, clear-Evolves,
}
use androix_xcb_libxcb.Life.Rounds.{IsFair}

pub flush-Evolves :
    (size k : ℕ) (turns : List Turn) (c : Conn) (r : Bool) (c' : Conn) (left : List Turn)
    → All (IsFair size) turns
    → flush k turns c ≡ some (r, c', left)
    → Ended size c c' left
unfolding flush
flush-Evolves size k turns c r c' left f e = elim (Bool-cases c.has_error) [
  | inl bad ↦
      let q : c ≡ c' = ground (arith, e, bad) in
      let q' : turns ≡ left = ground (arith, e, bad) in
      ended size c c c' turns left q q' (Evolves-refl size c, f)
  | inr good ↦
      flush_to-Evolves size k turns c c.output.request r c' left f (ground (arith, e, good))
]

-- The count of the requests that the caller of xcb_writev has made.
pub add_requests-Evolves :
    (size : ℕ) (c : Conn) (requests : ℕ) → Evolves size c (add_requests c requests)
add_requests-Evolves size c requests =
    set_output-Evolves size c (add_requests c requests).output
      (record { queue = λ h. h; request = λ h. omega arith; written = λ h h'. h' })

pub writev-Evolves :
    (size k : ℕ) (turns : List Turn) (c : Conn) (v : List Iovec) (requests : ℕ) (r : Bool)
    (c' : Conn) (left : List Turn)
    → All (IsFair size) turns
    → writev k turns c v requests ≡ some (r, c', left)
    → Ended size c c' left
unfolding writev
writev-Evolves size k turns c v requests r c' left f e = elim (Bool-cases c.has_error) [
  | inl bad ↦
      let q : c ≡ c' = ground (arith, e, bad) in
      let q' : turns ≡ left = ground (arith, e, bad) in
      ended size c c c' turns left q q' (Evolves-refl size c, f)
  | inr good ↦
      let d = add_requests c requests in
      let a = add_requests-Evolves size c requests in
      let sent : out_send k turns d v ≡ some (r, c', left) = ground (arith, e, good) in
      and_then size c d c' left a (out_send-Evolves size k turns d v r c' left f sent)
]

-- A request that the queue has room for.
pub buffered-Evolves :
    (size : ℕ) (c c' : Conn) (v : List Iovec)
    → write_block size c v ≡ buffered c'
    → Evolves size c c'
buffered-Evolves size c c' v e = elim (write_block_cases size c v) [
  | inl (l, all) ↦
      let d = set_queue c l in
      let a = set_output-Evolves size c d.output (record {
        queue = λ h. (rw all at (write_block-outgoing size c v h)).1;
        request = λ h. h;
        written = λ h h'. h';
      }) in
      let q : d ≡ c' = ground (arith, e, all) in Evolves-eq size c d c' q a
  | inr (rest, full) ↦ absurd (ground (arith, e, full))
]

write_all-Evolves :
    (size k : ℕ) (turns : List Turn) (c : Conn) (v : List Iovec) (r : Bool) (c' : Conn)
    (left : List Turn)
    → All (IsFair size) turns
    → write_all size k turns c v ≡ some (r, c', left)
    → Ended size c c' left
unfolding write_all
write_all-Evolves size k turns c v r c' left f e = elim (write_block_cases size c v) [
  | inl (l, all) ↦
      let d = set_queue c l in
      let a = buffered-Evolves size c d v all in
      let q : d ≡ c' = ground (arith, e, all) in
      let q' : turns ≡ left = ground (arith, e, all) in ended size c d c' turns left q q' (a, f)
  | inr (rest, full) ↦
      let d = set_queue c [] in
      let sent : out_send k turns d rest ≡ some (r, c', left) = ground (arith, e, full) in
      and_then size c d c' left (clear-Evolves size c)
        (out_send-Evolves size k turns d rest r c' left f sent)
]

transmit-Evolves :
    (size k : ℕ) (turns : List Turn) (c : Conn) (flags : Flags) (req : ProtocolRequest)
    (vector : List Iovec × ℕ) (m : Allocated) (number : ℕ) (c' : Conn) (left : List Turn)
    → All (IsFair size) turns
    → transmit size k turns c flags req vector m ≡ some (number, c', left)
    → Ended size c c' left
unfolding transmit
transmit-Evolves size k turns c flags req (vector, longlen) m number c' left f e =
    let w = request_workaround req vector in
    elim (Option-cases
      (number_request c req.isvoid w (record flags { raw = false }) m.pending m.syncs)) [
        | inl short ↦ absurd (ground (arith, e, short))
        | inr ((synced, d), numbered) ↦
            let a =
              number_request-Evolves size c d req.isvoid synced w (record flags { raw = false })
                m.pending m.syncs numbered in
            elim (Option-cases (write_all size k turns d (add_prefix synced longlen vector))) [
              | inl short ↦ absurd (ground (arith, e, numbered, short))
              | inr ((b, x, l), written) ↦
                  let s =
                    write_all-Evolves size k turns d (add_prefix synced longlen vector) b x l f
                      written in
                  let y : Conn = if b then x else conn_shutdown x in
                  let z : Evolves size x y =
                    ground (arith, Evolves-refl size x, conn_shutdown-Evolves size x) in
                  let q : y ≡ c' = ground (arith, e, numbered, written) in
                  let q' : l ≡ left = ground (arith, e, numbered, written) in
                  ended size c y c' l left q q'
                    (Evolves-trans size c d y a (Evolves-trans size d x y s.0 z), s.1)
            ]
      ]

claim_socket-Evolves :
    (size : ℕ) (turns : List Turn) (c c' : Conn) (left : List Turn)
    → All (IsFair size) turns
    → claim_socket turns c ≡ some (c', left)
    → Ended size c c' left
unfolding claim_socket
claim_socket-Evolves size turns c c' left f e = elim (Option-cases (wait_writing turns c)) [
  | inl short ↦ absurd (ground (arith, e, short))
  | inr ((d, l), found) ↦
      let s = wait_writing-Evolves size turns c d l f found in
      let t = get_socket_back-Evolves size l d c' left s.1 (ground (arith, e, found)) in
      and_then size c d c' left s.0 t
]

pub send_request-Evolves :
    (size k : ℕ) (server : BigRequests) (turns : List Turn) (c : Conn) (flags : Flags)
    (parts : List Part) (req : ProtocolRequest) (m : Allocated) (number : ℕ) (c' : Conn)
    (left : List Turn)
    → IsFairServer size server
    → IsFairRequest size req
    → All (IsFair size) turns
    → send_request size k server turns c flags parts req m ≡ some (number, c', left)
    → Ended size c c' left
unfolding send_request
send_request-Evolves size k server turns c flags parts req m number c' left fs fr f e =
    let h = fill_header server c flags req parts in
    let a = fill_header-Evolves size server fs c flags req parts fr in
    elim (Bool-cases c.has_error) [
      | inl bad ↦
          let q : c ≡ c' = ground (arith, e, bad) in
          let q' : turns ≡ left = ground (arith, e, bad) in
          ended size c c c' turns left q q' (Evolves-refl size c, f)
      | inr good ↦ elim (Option-cases h.0) [
        | inl refused ↦
            let q : h.1 ≡ c' = ground (arith, e, good, refused) in
            let q' : turns ≡ left = ground (arith, e, good, refused) in
            ended size c h.1 c' turns left q q' (a, f)
        | inr (vector, filled) ↦ elim (Option-cases (claim_socket turns h.1)) [
          | inl short ↦ absurd (ground (arith, e, good, filled, short))
          | inr ((d, l), claimed) ↦
              let s = claim_socket-Evolves size turns h.1 d l f claimed in
              let t : transmit size k l d flags req vector m ≡ some (number, c', left) =
                ground (arith, e, good, filled, claimed) in
              let z = transmit-Evolves size k l d flags req vector m number c' left s.1 t in
              and_then size c h.1 c' left a (and_then size h.1 d c' left s.0 z)
        ]
      ]
    ]
