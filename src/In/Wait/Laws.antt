-- ===== src/In/Wait/Laws.antt =====
-- xcb_wait_for_event and xcb_wait_for_reply: what they return, and what they leave.
use androix_xcb_libxcb.Base.{
  ℕ, ◌≡◌, ◌≢◌, refl, ap, ◌∙◌, sym, inl, inr, Bool, true, false, List, [], ◌∷◌, Option, none, some,
  ◌==◌, arith, Option-cases, All, List-cases,
}
use androix_xcb_libxcb.Sequence.{widen32, seq_lt}
use androix_xcb_libxcb.Conn.{Conn, In, Packet, Reader, set_input}
use androix_xcb_libxcb.In.Expect.{wake_up_next_reader}
use androix_xcb_libxcb.In.Poll.{
  get_event, Answer, answer, poll_for_reply, take_stored, take_current,
}
use androix_xcb_libxcb.In.Poll.Laws.{waiting, Pollable, poll_next, handed_out, answer_lem}
use androix_xcb_libxcb.In.Wait.{
  insert_reader, remove_reader, set_readers, wait_loop, wait_as_reader, wake_up, wait_for_reply,
  event_loop, wait_for_event,
}
use androix_xcb_libxcb.In.Wait.Readers.{remove_reader-insert_reader}
use androix_xcb_libxcb.Out.Send.{flush_to}
use androix_xcb_libxcb.Wait.{Turn, conn_wait}
use androix_xcb_libxcb.Wait.Failure.{conn_wait-failed}

event_loop-none :
    (k : ℕ) (turns : List Turn) (c c' : Conn) (left : List Turn)
    → event_loop k turns c ≡ some (none, c', left)
    → c'.has_error ≡ true
unfolding event_loop
event_loop-none k [] c c' left e = ground (arith, e)
event_loop-none k (t ∷ turns) c c' left e =
    let p = get_event c.input in
    let w = conn_wait k (set_input c p.1) none t in
    let ih = event_loop-none k turns w.2 c' left in
    ground (arith, e, ih, conn_wait-failed k (set_input c p.1) none t)

-- xcb_wait_for_event returns no event only for a connection that is shut down, be it before the call or
-- by a failure while it waits.
pub wait_for_event-none :
    (k : ℕ) (turns : List Turn) (c c' : Conn) (left : List Turn)
    → wait_for_event k turns c ≡ some (none, c', left)
    → c'.has_error ≡ true
unfolding wait_for_event wake_up_next_reader
wait_for_event-none k turns c c' left e = elim (Option-cases (event_loop k turns c)) [
  | inl short ↦ ground (arith, e, short)
  | inr ((ret, d, ts), found) ↦ elim (Option-cases ret) [
    | inl n ↦
        ground
          (arith, e, found, n, event_loop-none k turns c d ts (found ∙ ap (λ x. some (x, d, ts)) n))
    | inr (p, l) ↦ ground (arith, e, found, l)
  ]
]

pub poll_for_reply-readers :
    (i : In) (request : ℕ) (error m : Bool)
    → (poll_for_reply i request error m).1.readers ≡ i.readers
unfolding poll_for_reply take_stored take_current
poll_for_reply-readers i request error m = ground arith

pub wake_up-waiting :
    (c : Conn) (request : ℕ) → waiting (wake_up c).input request ≡ waiting c.input request
unfolding wake_up_next_reader
wake_up-waiting c request = elim (List-cases c.input.readers) [
  | inl e ↦ rw (e, wake_up_next_reader) refl
  | inr (r, rs, e) ↦ rw (e, wake_up_next_reader) refl
]

pub wake_up-readers : (c : Conn) → (wake_up c).input.readers ≡ c.input.readers
unfolding wake_up_next_reader
wake_up-readers c = ground arith

pub wait_loop-found :
    (k : ℕ) (turns : List Turn) (c : Conn) (request : ℕ) (error m : Bool) (a : Answer) (i : In)
    → poll_for_reply c.input request error m ≡ (some a, i)
    → wait_loop k turns c request error m ≡ some (a, set_input c i, turns)
unfolding wait_loop
wait_loop-found k [] c request error m a i e = ground (arith, e)
wait_loop-found k (t ∷ turns) c request error m a i e = ground (arith, e)

pub wait_for_reply-found :
    (k : ℕ) (turns : List Turn) (c : Conn) (request cond : ℕ) (error m : Bool) (a : Answer)
    (c' : Conn) (left : List Turn)
    → c.has_error ≡ false
    → c.output.return_socket ≡ none
    → seq_lt c.output.request_written (widen32 c.output.request request) ≡ false
    → wait_as_reader k turns c request cond error m ≡ some (a, c', left)
    → wait_for_reply k turns c request cond error m ≡ some (a, wake_up c', left)
unfolding wait_for_reply flush_to
wait_for_reply-found k turns c request cond error m a c' left ok own written e =
    ground (arith, ok, own, written, e)

-- xcb_wait_for_reply when a packet waits for the request already: it returns the first of them at
-- once, as a reply or as an error by its first byte, the others go on waiting, and the list of
-- readers is as it was. The connection has no error, its socket is not lent, the request, other
-- than 0, is written, no reader has the condition variable of the call, and malloc succeeds. Every
-- tail pointer of the input state is at its last link, and the map holds at most one list for the
-- request, one that is not empty.
pub wait_for_reply-ready :
    (k : ℕ) (turns : List Turn) (c : Conn) (request cond : ℕ) (error : Bool) (p : Packet)
    (ps : List Packet)
    → c.has_error ≡ false
    → c.output.return_socket ≡ none
    → seq_lt c.output.request_written (widen32 c.output.request request) ≡ false
    → All (λ r. (r.cond == cond) ≡ false) c.input.readers
    → Pollable c.input request
    → request ≢ 0
    → waiting c.input request ≡ p ∷ ps
    → (c' : Conn) × (wait_for_reply k turns c request cond error true
        ≡ some (handed_out p error, c', turns))
      × (waiting c'.input request ≡ ps)
      × (c'.input.readers ≡ c.input.readers)
unfolding wait_as_reader wake_up_next_reader
wait_for_reply-ready k turns c request cond error p ps ok own written others v nz w =
    let r : Reader = record { request = request; cond = cond } in
    let in_line = set_readers c (insert_reader c.input.readers r) in
    let v' : Pollable in_line.input request = record {
      valid = record {
        current = v.valid.current;
        stored = v.valid.stored;
        events = v.valid.events;
        pending = v.valid.pending;
      };
      one = v.one;
    } in
    let (i', e, w', _, _, _) = poll_next in_line.input request error p ps v' nz w in
    let rd : i'.readers ≡ insert_reader c.input.readers r =
      sym (ap (λ (x : Option Answer × In). x.1.readers) e)
      ∙ poll_for_reply-readers in_line.input request error true in
    let out : remove_reader i'.readers r ≡ c.input.readers =
      ap (λ l. remove_reader l r) rd ∙ remove_reader-insert_reader c.input.readers r others in
    let loop = wait_loop-found k turns in_line request error true (answer (some p) error) i' e in
    let left = set_readers (set_input in_line i') (remove_reader i'.readers r) in
    let whole : wait_as_reader k turns c request cond error true
        ≡ some (answer (some p) error, left, turns) =
      rw (loop, wait_as_reader) refl in
    (
      wake_up left,
      wait_for_reply-found k turns c request cond error true (answer (some p) error) left turns ok
            own written whole
          ∙ ap (λ a. some (a, wake_up left, turns)) (answer_lem p error),
      wake_up-waiting left request ∙ w',
      wake_up-readers left ∙ out,
    )
