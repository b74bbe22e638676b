-- ===== src/In/Wait/Arrival.antt =====
-- xcb_wait_for_reply, when the reply comes while it waits.

use androix_xcb_libxcb.Base.{
  ℕ, ◌%◌, ◌≡◌, ◌≢◌, refl, ap, ◌∙◌, Bool, true, false, List, [], ◌∷◌, Option, none, some, arith,
  ◌&&◌, ◌==◌,
}
use androix_xcb_libxcb.Chain.Laws.{IsLinked, chain_of}
use androix_xcb_libxcb.Conn.{Conn, In, Packet, Reader, set_input}
use androix_xcb_libxcb.Conn.Socket.{got}
use androix_xcb_libxcb.In.Number.{genrep}
use androix_xcb_libxcb.In.Poll.{Answer, answer, poll_for_reply, has_current}
use androix_xcb_libxcb.In.Poll.Laws.{take_current_lem, handed_out, answer_lem}
use androix_xcb_libxcb.In.Read.{read_packet}
use androix_xcb_libxcb.In.Read.Deliver.{packet_of}
use androix_xcb_libxcb.In.Read.Loop.{read_packet-IsValid}
use androix_xcb_libxcb.In.Wait.{
  insert_reader, remove_reader, set_readers, wait_loop, wait_as_reader, wake_up, wait_for_reply,
}
use androix_xcb_libxcb.In.Wait.Laws.{wait_loop-found, wait_for_reply-found}
use androix_xcb_libxcb.Sequence.{u32, seq_lt, seq_lt32, seq_eq32, widen32}
use androix_xcb_libxcb.Wait.{Turn, conn_wait, polled, read_input, count_up, count_down}
use androix_xcb_libxcb.In.Wait.Filling.{filled}
use androix_xcb_libxcb.In.Wait.Incoming.{
  IsArriving, granted, filled-IsValid, current_is, read_input_lem, read_number_is,
}

-- The poll that follows finds the packet.
poll_for_reply-current :
    (i : In) (s request : ℕ) (error : Bool) (p : Packet)
    → request ≢ 0
    → request ≡ s % u32
    → i.request_read ≡ s
    → IsLinked i.current_reply
    → i.current_reply.nodes ≡ p ∷ []
    → poll_for_reply i request error true
      ≡ (some (answer (some p) error), record i { current_reply = chain_of [] })
unfolding poll_for_reply seq_lt32 seq_eq32
poll_for_reply-current i s request error p nz same read l one =
    let q : i.request_read % u32 ≡ request = omega (arith, read, same) in
    ground (arith, nz, q, take_current_lem i p [] l one, one)

-- The poll before finds nothing.
pub poll_for_reply-nothing :
    (i : In) (request : ℕ) (error : Bool)
    → request ≢ 0
    → seq_lt32 request i.request_read ≡ false
    → (seq_eq32 request i.request_read && has_current i) ≡ false
    → seq_eq32 request i.request_completed ≡ false
    → poll_for_reply i request error true ≡ (none, i)
unfolding poll_for_reply
poll_for_reply-nothing i request error nz past now done = ground (arith, nz, past, now, done)

no_current :
    (i : In) (s request : ℕ)
    → request ≡ s % u32
    → (seq_eq32 request i.request_read && has_current i) ≡ false
    → (i.request_read == s && has_current i) ≡ false
unfolding seq_eq32
no_current i s request same now = ground (arith, same, now)

-- A round in which another thread does nothing, poll tells that the socket can be read, and all calls
-- of malloc succeed.
pub record IsReadable (t : Turn) : Type 0 where
  pub idle : (c : Conn) → t.others c ≡ c
  pub ready : t.ready ≡ some (true, false)
  pub mallocs : (n : ℕ) → t.mallocs n ≡ granted

conn_wait-readable :
    (k : ℕ) (c d : Conn) (t : Turn)
    → IsReadable t
    → c.input.reading ≡ 0
    → read_input k (count_up c false) t.mallocs ≡ (true, d)
    → conn_wait k c none t ≡ (true, none, count_down d false)
unfolding conn_wait polled
conn_wait-readable k c d t r free e =
    let up = count_up c false in
    let read : read_input k (t.others up) t.mallocs ≡ (true, d) =
      ap (λ x. read_input k x t.mallocs) (r.idle up) ∙ e in
    let p : polled k (t.others up) none t ≡ (true, none, d) = ground (arith, r.ready, read) in
    ground (arith, free, p)

pub wait_loop-next :
    (k : ℕ) (turns : List Turn) (c c' : Conn) (t : Turn) (request : ℕ) (error : Bool)
    → poll_for_reply c.input request error true ≡ (none, c.input)
    → conn_wait k c none t ≡ (true, none, c')
    → wait_loop k (t ∷ turns) c request error true ≡ wait_loop k turns c' request error true
unfolding wait_loop
wait_loop-next k turns c c' t request error nothing waited =
    let p = poll_for_reply c.input request error true in
    let w : conn_wait k (set_input c p.1) none t ≡ (true, none, c') =
      ap (λ i. conn_wait k (set_input c i) none t) (ap (λ (x : Option Answer × In). x.1) nothing)
      ∙ waited in
    ground (arith, nothing, w)

-- xcb_wait_for_reply when the reply, or the checked error, comes while it waits: one round is
-- enough, and it returns just that packet, its bytes in order, as a reply or as an error by its
-- first byte. The connection has no error, its socket is not lent, the request, other than 0, is
-- written, and no other thread polls. Every tail pointer of the input state is at its last link.
-- Nothing has been read for the request yet, and it is not complete. The packet's full number is
-- that of the request, at or after the last number read and less than 2 ^ 16 after it, below 2 ^ 64
-- as the number expected is, and less than 2 ^ 63 from that; its type is not that of the event
-- without a number. The packet comes whole in one recv, of 32 bytes or more, into the empty queue,
-- which it fits; nothing follows it on the socket. Its pending reply does not say that it is
-- dropped, and for an error says that it is checked. In the round poll reports that the socket can
-- be read, the other threads do nothing, and all calls of malloc succeed.
pub wait_for_reply-arrives :
    (k s : ℕ) (c : Conn) (bytes : List ℕ) (t : Turn) (turns : List Turn) (request cond : ℕ)
    (error : Bool)
    → c.has_error ≡ false
    → c.output.return_socket ≡ none
    → seq_lt c.output.request_written (widen32 c.output.request request) ≡ false
    → c.input.reading ≡ 0
    → request ≢ 0
    → request ≡ s % u32
    → seq_lt32 request c.input.request_read ≡ false
    → (seq_eq32 request c.input.request_read && has_current c.input) ≡ false
    → seq_eq32 request c.input.request_completed ≡ false
    → IsArriving k c.input s bytes
    → c.socket ≡ got bytes ∷ []
    → IsReadable t
    → (c' : Conn) × (wait_for_reply k (t ∷ turns) c request cond error true
        ≡ some (handed_out (packet_of (genrep bytes).response_type s bytes []) error, c', turns))
unfolding wait_as_reader
wait_for_reply-arrives k s c bytes t turns request cond error ok own written free nz same past now
      done a come r =
    let x : Reader = record { request = request; cond = cond } in
    let p = packet_of (genrep bytes).response_type s bytes [] in
    let d = set_readers c (insert_reader c.input.readers x) in
    let up = count_up d false in
    let a' : IsArriving k up.input s bytes = record {
      valid = record {
        current = a.valid.current;
        stored = a.valid.stored;
        events = a.valid.events;
        pending = a.valid.pending;
      };
      empty = a.empty;
      head = a.head;
      room = a.room;
      numbered = a.numbered;
      sequence = a.sequence;
      from = a.from;
      to = a.to;
      low = a.low;
      expected = a.expected;
      near = a.near;
      behind = a.behind;
      whole = a.whole;
      kept = a.kept;
    } in
    let f = (read_packet k (filled up bytes) granted).1 in
    let w = count_down f false in
    let nothing = poll_for_reply-nothing d.input request error nz past now done in
    let fresh = no_current up.input s request same now in
    let read = read_input_lem k s up bytes a' t.mallocs r.mallocs come in
    let waited = conn_wait-readable k d f t r free read in
    let found =
      poll_for_reply-current w.input s request error p nz same (read_number_is k s up bytes a')
        (read_packet-IsValid k (filled up bytes) granted (filled-IsValid k s up bytes a')).current
        (current_is k s up bytes a' fresh) in
    let loop =
      wait_loop-found k turns w request error true (answer (some p) error)
        (record w.input { current_reply = chain_of [] }) found in
    let z = set_input w (record w.input { current_reply = chain_of [] }) in
    let all : wait_loop k (t ∷ turns) d request error true
        ≡ some (answer (some p) error, z, turns) =
      wait_loop-next k turns d w t request error nothing waited ∙ loop in
    let out = set_readers z (remove_reader z.input.readers x) in
    let reader : wait_as_reader k (t ∷ turns) c request cond error true
        ≡ some (answer (some p) error, out, turns) =
      rw (all, wait_as_reader) refl in
    (
      wake_up out,
      wait_for_reply-found k (t ∷ turns) c request cond error true (answer (some p) error) out turns
            ok own written reader
          ∙ ap (λ a. some (a, wake_up out, turns)) (answer_lem p error),
    )
