-- ===== src/In/Wait/Handed.antt =====
-- xcb_wait_for_reply, when another thread reads the reply.
use mathlib.Core.Path.{subst}
use androix_xcb_libxcb.Base.{
  ℕ, ◌<◌, ◌≡◌, ◌≢◌, refl, sym, ap, ◌∙◌, Bool, true, false, List, ◌∷◌, Option, none, some, arith,
  ◌&&◌, ◌==◌, ◌++◌, All,
}
use androix_xcb_libxcb.Conn.{Conn, In, Packet, Reader, set_input}
use androix_xcb_libxcb.In.Poll.{Answer, answer, has_current}
use androix_xcb_libxcb.In.Poll.Laws.{waiting, Pollable, poll_next, handed_out, answer_lem}
use androix_xcb_libxcb.In.Wait.{
  insert_reader, remove_reader, set_readers, wait_loop, wait_as_reader, wake_up, wait_for_reply,
}
use androix_xcb_libxcb.In.Wait.Arrival.{poll_for_reply-nothing, wait_loop-next}
use androix_xcb_libxcb.In.Wait.Laws.{
  wait_loop-found, wait_for_reply-found, wake_up-waiting, wake_up-readers, poll_for_reply-readers,
}
use androix_xcb_libxcb.In.Wait.Readers.{IsLater, insert_reader-append, remove_reader-append}
use androix_xcb_libxcb.Sequence.{seq_lt, seq_le32, seq_lt32, seq_eq32, widen32}
use androix_xcb_libxcb.Wait.{Turn, conn_wait}

-- A thread that finds another polling leaves the round to it.
conn_wait-busy :
    (k : ℕ) (c : Conn) (t : Turn)
    → 0 < c.input.reading
    → conn_wait k c none t ≡ (true, none, t.others c)
unfolding conn_wait
conn_wait-busy k c t busy = ground (arith, busy)

-- xcb_wait_for_reply while another thread polls, with the list of readers as the calls leave it.
handed_over :
    (k : ℕ) (c : Conn) (t : Turn) (turns : List Turn) (request cond : ℕ) (error : Bool) (p : Packet)
    (ps : List Packet)
    → c.has_error ≡ false
    → c.output.return_socket ≡ none
    → seq_lt c.output.request_written (widen32 c.output.request request) ≡ false
    → 0 < c.input.reading
    → request ≢ 0
    → seq_lt32 request c.input.request_read ≡ false
    → (seq_eq32 request c.input.request_read && has_current c.input) ≡ false
    → seq_eq32 request c.input.request_completed ≡ false
    → let r : Reader = record { request = request; cond = cond } in
      let d = t.others (set_readers c (insert_reader c.input.readers r)) in
      Pollable d.input request
      → waiting d.input request ≡ p ∷ ps
      → (c' : Conn) × (wait_for_reply k (t ∷ turns) c request cond error true
          ≡ some (answer (some p) error, c', turns))
        × (waiting c'.input request ≡ ps)
        × (c'.input.readers ≡ remove_reader d.input.readers r)
unfolding wait_as_reader
handed_over k c t turns request cond error p ps ok own written busy nz past now done v w =
    let r : Reader = record { request = request; cond = cond } in
    let in_line = set_readers c (insert_reader c.input.readers r) in
    let d = t.others in_line in
    let nothing = poll_for_reply-nothing in_line.input request error nz past now done in
    let (i', e, w', _, _, _) = poll_next d.input request error p ps v nz w in
    let rd : i'.readers ≡ d.input.readers =
      sym (ap (λ (x : Option Answer × In). x.1.readers) e)
      ∙ poll_for_reply-readers d.input request error true in
    let loop : wait_loop k (t ∷ turns) in_line request error true
        ≡ some (answer (some p) error, set_input d i', turns) =
      wait_loop-next k turns in_line d t request error nothing (conn_wait-busy k in_line t busy)
      ∙ wait_loop-found k turns d request error true (answer (some p) error) i' e in
    let left = set_readers (set_input d i') (remove_reader i'.readers r) in
    let whole : wait_as_reader k (t ∷ turns) c request cond error true
        ≡ some (answer (some p) error, left, turns) =
      rw (loop, wait_as_reader) refl in
    (
      wake_up left,
      wait_for_reply-found k (t ∷ turns) c request cond error true (answer (some p) error) left
          turns ok own written whole,
      wake_up-waiting left request ∙ w',
      wake_up-readers left ∙ ap (λ l. remove_reader l r) rd,
    )

-- xcb_wait_for_reply while another thread polls: for that round it stands in the list of readers,
-- behind those whose requests are not after its own and before the first whose request is. Then it
-- returns the first packet that the other threads have read for its request, as a reply or as an error
-- by its first byte; the others go on waiting, and it is taken out of the list of readers that the
-- round left, whose other members stay in their order. The connection has no error, its socket is not
-- lent, the request, other than 0, is written, nothing has been read for it before, and it was not
-- complete; malloc succeeds. After the round every tail pointer of the input state is at its last
-- link, the map holds at most one list for the request, one that is not empty, and those in front of
-- the caller in the list have other condition variables and requests that are not after its own.
pub wait_for_reply-handed :
    (k : ℕ) (c : Conn) (t : Turn) (turns : List Turn) (request cond : ℕ) (error : Bool) (p : Packet)
    (ps : List Packet) (before after front back : List Reader)
    → c.has_error ≡ false
    → c.output.return_socket ≡ none
    → seq_lt c.output.request_written (widen32 c.output.request request) ≡ false
    → 0 < c.input.reading
    → request ≢ 0
    → seq_lt32 request c.input.request_read ≡ false
    → (seq_eq32 request c.input.request_read && has_current c.input) ≡ false
    → seq_eq32 request c.input.request_completed ≡ false
    → c.input.readers ≡ before ++ after
    → All (λ q. seq_le32 q.request request ≡ true) before
    → IsLater request after
    → All (λ q. (seq_le32 q.request request ≡ true) × ((q.cond == cond) ≡ false)) front
    → let r : Reader = record { request = request; cond = cond } in
      let d = t.others (set_readers c (before ++ r ∷ after)) in
      d.input.readers ≡ front ++ r ∷ back
      → Pollable d.input request
      → waiting d.input request ≡ p ∷ ps
      → (c' : Conn) × (wait_for_reply k (t ∷ turns) c request cond error true
          ≡ some (handed_out p error, c', turns))
        × (waiting c'.input request ≡ ps)
        × (c'.input.readers ≡ front ++ back)
wait_for_reply-handed k c t turns request cond error p ps before after front back ok own written
      busy nz past now done split a l f here v w =
    let r : Reader = record { request = request; cond = cond } in
    let after_round : List Reader → In = λ rs. (t.others (set_readers c rs)).input in
    let place : insert_reader c.input.readers r ≡ before ++ r ∷ after =
      ap (λ rs. insert_reader rs r) split ∙ insert_reader-append before after r a l in
    let (c', e, left, out) =
      handed_over k c t turns request cond error p ps ok own written busy nz past now done
        (subst (λ rs. Pollable (after_round rs) request) (sym place) v)
        (ap (λ rs. waiting (after_round rs) request) place ∙ w) in
    (
      c',
      e ∙ ap (λ b. some (b, c', turns)) (answer_lem p error),
      left,
      out
          ∙ (ap (λ rs. remove_reader (after_round rs).readers r) place
              ∙ (ap (λ rs. remove_reader rs r) here ∙ remove_reader-append front back r f)),
    )
