-- ===== src/Out/Request.antt =====
-- xcb_out.c: get_socket_back, xcb_take_socket, and xcb_send_request as a whole. Rounds of waiting come
-- as a list, as for _xcb_out_send; the result none means that the list is too short.
pub mod Laws
pub mod Bytes
pub mod Loan
use androix_xcb_libxcb.Base.{
  ℕ, zero, suc, ◌+◌, ◌-◌, ◌%◌, Bool, true, false, Option, none, some, List, [], ◌∷◌, ltb, ◌==◌,
  if◌then◌else◌, ◌&&◌, ◌||◌, not,
}
use androix_xcb_libxcb.Sequence.{u32}
use androix_xcb_libxcb.Conn.{
  Conn, Flags, nonzero, Workaround, external_socket_owner, conn_shutdown, set_input, signal,
  socket_owners,
}
use androix_xcb_libxcb.In.Expect.{expect_reply, replies_done}
use androix_xcb_libxcb.Out.Number.{number_request}
use androix_xcb_libxcb.Out.Vector.{Iovec, Written, buffered, send, write_block}
use androix_xcb_libxcb.Out.Length.{
  BigRequests, Part, fill_parts, prepare, add_prefix, workaround_of,
}
use androix_xcb_libxcb.Out.Send.{out_send, wait_writing, flush_to}
use androix_xcb_libxcb.Wait.{Turn, is_some}

-- Lines 60 and 61.
unfoldable pub wait_moving : List Turn → Conn → Option (Conn × List Turn)
wait_moving [] c =
    if is_some c.output.return_socket && c.output.socket_moving then none else some (c, [])
wait_moving (t ∷ turns) c =
    let rest = wait_moving turns (t.others c) in
    if is_some c.output.return_socket && c.output.socket_moving then rest else some (c, t ∷ turns)

abbrev pub set_moving : Conn → Bool → Conn
set_moving c moving = record c { output = record c.output { socket_moving = moving } }

-- Lines 69 to 74.
unfoldable pub socket_back : Conn → Conn
socket_back c = replies_done (record c {
  input = signal c.input socket_owners;
  output = record c.output { socket_moving = false; return_socket = none; socket_closure = none };
})

-- get_socket_back. The call of `return_socket` is a round in which the lock is released: its effect is
-- part of what the other code does in that round.
unfoldable pub get_socket_back : List Turn → Conn → Option (Conn × List Turn)
get_socket_back turns c = elim (wait_moving turns c) [
  | none ↦ none
  | some (c', left) ↦ elim c'.output.return_socket [
    | none ↦ some (c', left)
    | some _ ↦ elim left [
      | [] ↦ none
      | t ∷ ts ↦ some (socket_back (t.others (set_moving c' true)), ts)
    ]
  ]
]

-- Lines 266 to 274, once all is written. The result of _xcb_in_expect_reply is not used.
unfoldable pub hand_over : Conn → ℕ → ℕ → Flags → Bool → Conn
hand_over c return_socket closure flags allocated =
    let c' = record c {
      output = record c.output {
        return_socket = some return_socket;
        socket_closure = some closure;
      };
    } in
    if nonzero flags
    then (expect_reply c' c'.output.request external_socket_owner flags allocated).1
    else c'

-- xcb_take_socket: its `ret`, the number in `*sent` if that is set, the connection and the rounds left.
unfoldable pub take_socket :
    ℕ → List Turn → Conn → ℕ → ℕ → Flags → Bool → Option (Bool × Option ℕ × Conn × List Turn)
take_socket keymap_notify turns c return_socket closure flags allocated =
    let taken : Option (Bool × Option ℕ × Conn × List Turn) = elim (get_socket_back turns c) [
      | none ↦ none
      | some (c', left) ↦ elim (flush_to keymap_notify left c' c'.output.request) [
        | none ↦ none
        | some (true, d, ts) ↦
            some
              (true, some d.output.request, hand_over d return_socket closure flags allocated, ts)
        | some (false, d, ts) ↦ some (false, none, d, ts)
      ]
    ] in
    if c.has_error then some (false, none, c, turns) else taken

-- An extension as a request names it: whether it is the one named GLX, and xcb_get_extension_data with
-- the major opcode of an extension that is present.
pub record Extension : Type 0 where
  pub is_glx : Bool
  pub major_opcode : Conn → Option ℕ × Conn

-- xcb_protocol_request_t; `count` is the length of the vector.
pub record ProtocolRequest : Type 0 where
  pub ext : Option Extension
  pub opcode : ℕ
  pub isvoid : Bool

-- Lines 146 to 198: the vector and `prefix[2]`, or none for a request that is refused. A raw vector has
-- no padding.
unfoldable pub fill_header :
    BigRequests → Conn → Flags → ProtocolRequest → List Part → Option (List Iovec × ℕ) × Conn
fill_header server c flags req parts =
    let prepared : Option (List Iovec × ℕ) × Conn = elim req.ext [
      | none ↦ prepare server c none req.opcode parts
      | some ext ↦
          let found = ext.major_opcode c in
          elim found.0 [
            | none ↦ (none, conn_shutdown found.1)
            | some major ↦ prepare server found.1 (some major) req.opcode parts
          ]
    ] in
    if flags.raw then (some (fill_parts parts, 0), c) else prepared

abbrev pub first_part : List Iovec → Iovec
first_part [] = []
first_part (v ∷ vs) = v

-- Lines 203 to 206.
abbrev pub request_workaround : ProtocolRequest → List Iovec → Workaround
request_workaround req vector =
    let glx : Bool = elim req.ext [ none ↦ false | some ext ↦ ext.is_glx ] in
    workaround_of (glx && not req.isvoid) req.opcode (first_part vector)

-- write_block and the call that it ends in; `size` is XCB_QUEUE_BUFFER_SIZE.
unfoldable pub write_all : ℕ → ℕ → List Turn → Conn → List Iovec → Option (Bool × Conn × List Turn)
write_all size keymap_notify turns c vector = elim (write_block size c vector) [
  | buffered c' ↦ some (true, c', turns)
  | send c' rest ↦ out_send keymap_notify turns c' rest
]

-- What the results of malloc are for: the pending reply, and those of the requests for input focus.
pub record Allocated : Type 0 where
  pub pending : Bool
  pub syncs : ℕ → Bool

-- Lines 215 to 255, with the lock held and the socket back.
unfoldable pub transmit :
    ℕ
    → ℕ
    → List Turn
    → Conn
    → Flags
    → ProtocolRequest
    → List Iovec × ℕ
    → Allocated
    → Option (ℕ × Conn × List Turn)
transmit size keymap_notify turns c flags req (vector, longlen) m =
    elim (number_request c req.isvoid (request_workaround req vector) (record flags { raw = false })
      m.pending m.syncs) [
        | none ↦ none
        | some (synced, c') ↦
            elim (write_all size keymap_notify turns c' (add_prefix synced longlen vector)) [
              | none ↦ none
              | some (true, d, left) ↦ some (c'.output.request % u32, d, left)
              | some (false, d, left) ↦ some (0, conn_shutdown d, left)
            ]
      ]

-- Lines 209 to 213: no other thread writes, and the socket is back.
unfoldable pub claim_socket : List Turn → Conn → Option (Conn × List Turn)
claim_socket turns c = elim (wait_writing turns c) [
  | none ↦ none
  | some (c', left) ↦ get_socket_back left c'
]

-- xcb_send_request: the sequence number (0 for a failure), the connection and the rounds left.
unfoldable pub send_request :
    ℕ
    → ℕ
    → BigRequests
    → List Turn
    → Conn
    → Flags
    → List Part
    → ProtocolRequest
    → Allocated
    → Option (ℕ × Conn × List Turn)
send_request size keymap_notify server turns c flags parts req m =
    let filled = fill_header server c flags req parts in
    let sent : Option (ℕ × Conn × List Turn) = elim filled.0 [
      | none ↦ some (0, filled.1, turns)
      | some vector ↦ elim (claim_socket turns filled.1) [
        | none ↦ none
        | some (c', left) ↦ transmit size keymap_notify left c' flags req vector m
      ]
    ] in
    if c.has_error then some (0, c, turns) else sent
