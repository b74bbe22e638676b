-- ===== src/In/Poll/Events.antt =====
-- The events handed out, and what polling keeps.
use androix_xcb_libxcb.Base.{ℕ, ◌≡◌, inl, inr, List-cases, Bool, [], ◌∷◌, arith, head?, drop}
use androix_xcb_libxcb.Chain.{pop}
use androix_xcb_libxcb.Chain.Laws.{unlink-nodes, unlink-IsLinked}
use androix_xcb_libxcb.Map.Laws.{map_put-IsLinked, map_remove_cases}
use androix_xcb_libxcb.Conn.{In}
use androix_xcb_libxcb.In.Number.Laws.{IsValid}
use androix_xcb_libxcb.In.Poll.{get_event, take_stored, take_current, poll_for_reply}

-- In a valid state get_event hands out the oldest event, or none if there is none, takes just that
-- out of the queue, changes nothing else, and leaves a valid state.
pub get_event_lem :
    (i : In)
    → IsValid i
    → ((get_event i).0 ≡ head? i.events.nodes)
      × ((get_event i).1.events.nodes ≡ drop 1 i.events.nodes)
      × ((get_event i).1 ≡ record i { events = (get_event i).1.events })
      × IsValid (get_event i).1
unfolding get_event pop
get_event_lem i v = elim (List-cases i.events.nodes) [
  | inl none_ ↦ ground (arith, none_, v)
  | inr (e, es, l) ↦ ground (arith, l, v, unlink-IsLinked i.events 0, unlink-nodes i.events 0)
]

take_stored-IsValid :
    (i : In) (request : ℕ) (m : Bool) → IsValid i → IsValid (take_stored i request m).1
unfolding take_stored
take_stored-IsValid i request m v = elim (map_remove_cases i.replies request v.stored) [
  | inl (r, _) ↦ ground (arith, r, v)
  | inr ([], m', r, l, _, _) ↦ ground (arith, r, l, v)
  | inr (p ∷ [], m', r, l, _, _) ↦ ground (arith, r, l, v)
  | inr (p ∷ q ∷ ps, m', r, l, _, _) ↦
      ground (arith, r, l, v, map_put-IsLinked m' request (q ∷ ps) m l)
]

take_current-IsValid : (i : In) → IsValid i → IsValid (take_current i).1
unfolding take_current pop
take_current-IsValid i v = elim (List-cases i.current_reply.nodes) [
  | inl none_ ↦ ground (arith, none_, v)
  | inr (e, es, l) ↦ ground (arith, l, v, unlink-IsLinked i.current_reply 0)
]

-- poll_for_reply keeps every tail pointer of the input state at its last link, also if malloc fails.
pub poll_for_reply-IsValid :
    (i : In) (request : ℕ) (error m : Bool)
    → IsValid i
    → IsValid (poll_for_reply i request error m).1
unfolding poll_for_reply
poll_for_reply-IsValid i request error m v =
    ground (arith, take_stored-IsValid i request m v, take_current-IsValid i v)
