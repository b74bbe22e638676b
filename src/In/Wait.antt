-- ===== src/In/Wait.antt =====
-- xcb_wait_for_reply, xcb_wait_for_event and xcb_request_check. Rounds of waiting come as a list; the
-- result none means that the list is too short.
pub mod Readers
pub mod Laws
pub mod Failure
pub mod Filling
pub mod Incoming
pub mod Arrival
pub mod Handed
pub mod Wakes
use androix_xcb_libxcb.Base.{
  ℕ, Bool, true, false, Option, none, some, List, [], ◌∷◌, ◌==◌, if◌then◌else◌, ◌&&◌, ◌||◌, not,
}
use androix_xcb_libxcb.Sequence.{seq_lt32, seq_le32, widen32}
use androix_xcb_libxcb.Conn.{Conn, In, Reader, Packet, set_input}
use androix_xcb_libxcb.In.Expect.{wake_up_next_reader}
use androix_xcb_libxcb.In.Poll.{get_event, Answer, poll_for_reply}
use androix_xcb_libxcb.Out.Send.{flush_to}
use androix_xcb_libxcb.Wait.{Turn, is_some, conn_wait}

-- Lines 383 to 393: the reader goes behind all whose request is not after its own.
unfoldable pub insert_reader : List Reader → Reader → List Reader
insert_reader [] r = r ∷ []
insert_reader (p ∷ ps) r =
    let rest = insert_reader ps r in if seq_le32 p.request r.request then p ∷ rest else r ∷ p ∷ ps

-- Lines 399 to 409; the reader is known by its condition variable, which is its own.
unfoldable pub remove_reader : List Reader → Reader → List Reader
remove_reader [] r = []
remove_reader (p ∷ ps) r =
    let rest = remove_reader ps r in
    if seq_le32 p.request r.request then (if p.cond == r.cond then ps else p ∷ rest) else p ∷ ps

abbrev pub set_readers : Conn → List Reader → Conn
set_readers c readers = set_input c (record c.input { readers = readers })

abbrev pub no_answer : Answer
no_answer = record { reply = none; error = none }

-- Lines 395 to 397. `allocated` is the result of malloc in the poll that finds a reply.
unfoldable pub wait_loop :
    ℕ → List Turn → Conn → ℕ → Bool → Bool → Option (Answer × Conn × List Turn)
wait_loop keymap_notify [] c request error allocated =
    let p = poll_for_reply c.input request error allocated in
    elim p.0 [ none ↦ none | some a ↦ some (a, set_input c p.1, []) ]
wait_loop keymap_notify (t ∷ turns) c request error allocated =
    let p = poll_for_reply c.input request error allocated in
    let w = conn_wait keymap_notify (set_input c p.1) none t in
    let rest = wait_loop keymap_notify turns w.2 request error allocated in
    elim p.0 [
      | some a ↦ some (a, set_input c p.1, t ∷ turns)
      | none ↦ if w.0 then rest else some (no_answer, w.2, turns)
    ]

-- Lines 379 to 410; `cond` names the condition variable of the call.
unfoldable pub wait_as_reader :
    ℕ → List Turn → Conn → ℕ → ℕ → Bool → Bool → Option (Answer × Conn × List Turn)
wait_as_reader keymap_notify turns c request cond error allocated =
    let r : Reader = record { request = request; cond = cond } in
    elim (wait_loop keymap_notify turns (set_readers c (insert_reader c.input.readers r)) request
      error allocated) [
        | none ↦ none
        | some (a, c', left) ↦ some (a, set_readers c' (remove_reader c'.input.readers r), left)
      ]

abbrev pub wake_up : Conn → Conn
wake_up c = set_input c (wake_up_next_reader c.input)

-- xcb_wait_for_reply; the two pointers are those of an Answer.
unfoldable pub wait_for_reply :
    ℕ → List Turn → Conn → ℕ → ℕ → Bool → Bool → Option (Answer × Conn × List Turn)
wait_for_reply keymap_notify turns c request cond error allocated =
    let written : Option (Bool × Conn × List Turn) =
      if is_some c.output.return_socket
      then some (true, c, turns)
      else flush_to keymap_notify turns c (widen32 c.output.request request) in
    let waited : Option (Answer × Conn × List Turn) = elim written [
      | none ↦ none
      | some (false, c', left) ↦ some (no_answer, wake_up c', left)
      | some (true, c', left) ↦
          elim (wait_as_reader keymap_notify left c' request cond error allocated) [
            | none ↦ none
            | some (a, d, ts) ↦ some (a, wake_up d, ts)
          ]
    ] in
    if c.has_error then some (no_answer, c, turns) else waited

-- Lines 552 to 554.
unfoldable pub event_loop : ℕ → List Turn → Conn → Option (Option Packet × Conn × List Turn)
event_loop keymap_notify [] c =
    let e = get_event c.input in
    elim e.0 [ none ↦ none | some ret ↦ some (some ret, set_input c e.1, []) ]
event_loop keymap_notify (t ∷ turns) c =
    let e = get_event c.input in
    let w = conn_wait keymap_notify (set_input c e.1) none t in
    let rest = event_loop keymap_notify turns w.2 in
    elim e.0 [
      | some ret ↦ some (some ret, set_input c e.1, t ∷ turns)
      | none ↦ if w.0 then rest else some (none, w.2, turns)
    ]

-- xcb_wait_for_event
unfoldable pub wait_for_event : ℕ → List Turn → Conn → Option (Option Packet × Conn × List Turn)
wait_for_event keymap_notify turns c =
    let waited : Option (Option Packet × Conn × List Turn) =
      elim (event_loop keymap_notify turns c) [
        | none ↦ none
        | some (ret, c', left) ↦ some (ret, wake_up c', left)
      ] in
    if c.has_error then some (none, c, turns) else waited

-- xcb_request_check without its assertions; `focus` is the generated request for input focus and the
-- wait for its reply.
unfoldable pub request_check :
    ℕ → (Conn → Conn) → List Turn → Conn → ℕ → ℕ → Bool → Option (Option Packet × Conn × List Turn)
request_check keymap_notify focus turns c sequence cond allocated =
    let open_request : Bool =
      not (seq_lt32 sequence c.input.request_expected)
      && not (seq_le32 sequence c.input.request_completed) in
    let c' : Conn = if open_request then focus c else c in
    let checked : Option (Option Packet × Conn × List Turn) =
      elim (wait_for_reply keymap_notify turns c' sequence cond true allocated) [
        | none ↦ none
        | some (a, d, left) ↦ some (a.error, d, left)
      ] in
    if c.has_error then some (none, c, turns) else checked
