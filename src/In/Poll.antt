-- ===== src/In/Poll.antt =====
-- get_event, poll_for_reply, xcb_poll_for_reply and xcb_poll_for_event.
pub mod Laws
pub mod Events
use androix_xcb_libxcb.Base.{
  ℕ, Bool, true, false, List, [], ◌∷◌, Option, none, some, get_or, length, ◌==◌, if◌then◌else◌,
  ◌&&◌,
}
use androix_xcb_libxcb.Sequence.{seq_lt32, seq_eq32}
use androix_xcb_libxcb.Chain.{Chain, pop, unlink}
use androix_xcb_libxcb.Map.{Map, map_put, map_remove}
use androix_xcb_libxcb.Conn.{Conn, In, Packet, set_input}
use androix_xcb_libxcb.In.Number.{xcb_error}
use androix_xcb_libxcb.In.Read.{Mallocs, in_read}

-- get_event
unfoldable pub get_event : In → Option Packet × In
get_event i = elim (pop i.events) [
  | none ↦ (none, i)
  | some (ret, rest) ↦ (some ret, record i { events = rest })
]

-- What a caller finds in `*reply` and `*error` (none is null).
pub record Answer : Type 0 where
  pub reply : Option Packet
  pub error : Option Packet

-- Lines 315 to 317: take the first reply out of the map, and put the others back.
unfoldable pub take_stored : In → ℕ → Bool → Option Packet × In
take_stored i request allocated =
    let (found, rest) = map_remove i.replies request in
    elim found [
      | none ↦ (none, record i { replies = rest })
      | some [] ↦ (none, record i { replies = rest })
      | some (head ∷ []) ↦ (some head, record i { replies = rest })
      | some (head ∷ p ∷ ps) ↦
          (some head, record i { replies = (map_put rest request (p ∷ ps) allocated).0 })
    ]

-- Lines 323 to 326.
unfoldable pub take_current : In → Option Packet × In
take_current i = elim (pop i.current_reply) [
  | none ↦ (none, i)
  | some (head, rest) ↦ (some head, record i { current_reply = rest })
]

abbrev pub has_current : In → Bool
has_current i = elim i.current_reply.nodes [ [] ↦ false | _ ∷ _ ↦ true ]

-- Lines 337 to 354: where the packet goes; `error` says whether the caller passed a pointer for it.
unfoldable pub answer : Option Packet → Bool → Answer
answer none error = record { reply = none; error = none }
answer (some head) error =
    if get_or head.bytes 0 0 == xcb_error
    then record { reply = none; error = if error then some head else none }
    else record { reply = some head; error = none }

-- poll_for_reply; the result `none` is its 0, that more replies may come.
unfoldable pub poll_for_reply : In → ℕ → Bool → Bool → Option Answer × In
unfolding take_stored take_current answer
poll_for_reply i request error allocated =
    let stored = take_stored i request allocated in
    let current = take_current i in
    if request == 0
    then (some (answer none error), i)
    else (if seq_lt32 request i.request_read
        then (some (answer stored.0 error), stored.1)
        else (if seq_eq32 request i.request_read && has_current i
            then (some (answer current.0 error), current.1)
            else (if seq_eq32 request i.request_completed
                then (some (answer none error), i)
                else (none, i))))

-- xcb_poll_for_reply
unfoldable pub xcb_poll_for_reply : Conn → ℕ → Bool → Bool → Option Answer × Conn
xcb_poll_for_reply c request error allocated =
    let r = poll_for_reply c.input request error allocated in
    if c.has_error
    then (some (record { reply = none; error = none }), c)
    else (r.0, set_input c r.1)

-- xcb_poll_for_event, with the fuel and the constant of `in_read`; the outer `none` is a lack of
-- fuel.
unfoldable pub xcb_poll_for_event : ℕ → ℕ → Conn → (ℕ → Mallocs) → Option (Option Packet × Conn)
unfolding get_event
xcb_poll_for_event fuel keymap_notify c m =
    let first = get_event c.input in
    let next = in_read fuel keymap_notify (set_input c first.1) m in
    if c.has_error then some (none, c) else elim first.0 [
      | some ret ↦ some (some ret, set_input c first.1)
      | none ↦ elim next [
        | none ↦ none
        | some (true, c') ↦ some ((get_event c'.input).0, set_input c' (get_event c'.input).1)
        | some (false, c') ↦ some (none, c')
      ]
    ]
