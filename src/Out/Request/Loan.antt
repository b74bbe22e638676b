-- ===== src/Out/Request/Loan.antt =====
-- xcb_take_socket: what the new owner of the socket can rely on.
use androix_xcb_libxcb.Base.{
  ℕ, ◌≤◌, ◌<◌, ◌≡◌, ap, ◌∙◌, inl, inr, Bool, true, false, List, [], ◌∷◌, ◌++◌, none, some, length,
  append-nil, arith, All, List-cases,
}
use androix_xcb_libxcb.Conn.{Conn, Out, Flags}
use androix_xcb_libxcb.In.Expect.{expect_reply}
use androix_xcb_libxcb.Sequence.{seq_lt}
use androix_xcb_libxcb.Out.Request.{wait_moving, get_socket_back, hand_over, take_socket}
use androix_xcb_libxcb.Out.Send.{out_send, flush_to}
use androix_xcb_libxcb.Out.Send.Laws.{IsWilling, out_send_total}
use androix_xcb_libxcb.Out.Vector.{set_queue}
use androix_xcb_libxcb.Wait.{Turn}

get_socket_back-free :
    (turns : List Turn) (c : Conn)
    → c.output.return_socket ≡ none
    → get_socket_back turns c ≡ some (c, turns)
unfolding get_socket_back wait_moving
get_socket_back-free [] c own = ground (arith, own)
get_socket_back-free (t ∷ turns) c own = ground (arith, own)

flush_to-sends :
    (k : ℕ) (turns : List Turn) (c : Conn) (b : ℕ) (q : List ℕ) (request : ℕ)
    → seq_lt c.output.request_written request ≡ true
    → c.output.queue ≡ b ∷ q
    → flush_to k turns c request ≡ out_send k turns (set_queue c []) (c.output.queue ∷ [])
unfolding flush_to
flush_to-sends k turns c b q request behind e = ground (arith, behind, e)

take_socket-flushed :
    (k : ℕ) (turns left : List Turn) (c d : Conn) (return_socket closure : ℕ) (flags : Flags)
    (m : Bool)
    → c.has_error ≡ false
    → c.output.return_socket ≡ none
    → flush_to k turns c c.output.request ≡ some (true, d, left)
    → take_socket k turns c return_socket closure flags m
      ≡ some (true, some d.output.request, hand_over d return_socket closure flags m, left)
unfolding take_socket
take_socket-flushed k turns left c d return_socket closure flags m ok own e =
    ground (arith, ok, e, get_socket_back-free turns c own)

-- What the hand-over leaves of the output side.
hand_over-output :
    (c : Conn) (return_socket closure : ℕ) (flags : Flags) (m : Bool)
    → let d = hand_over c return_socket closure flags m in
      (d.sent ≡ c.sent)
      × (d.output
          ≡ record c.output { return_socket = some return_socket; socket_closure = some closure })
unfolding hand_over expect_reply
hand_over-output c return_socket closure flags m = ground arith

-- xcb_take_socket with bytes in the queue and requests not yet written, on a connection without an
-- error whose socket is not lent: with as many rounds as there are bytes it succeeds, when in each
-- poll reports that the socket can be written and not that it can be read, so that nothing comes
-- in, the socket takes a byte or more, and other threads leave the output side alone and what is
-- sent, and no thread is writing before. Everything in the queue is sent before the socket is lent,
-- the number that the caller gets is that of the last request, and all requests up to it count as
-- written, as the assertion demands.
pub take_socket_lem :
    (k : ℕ) (turns : List Turn) (c : Conn) (return_socket closure : ℕ) (flags : Flags) (m : Bool)
    → All IsWilling turns
    → c.has_error ≡ false
    → c.output.return_socket ≡ none
    → c.output.writing ≡ 0
    → seq_lt c.output.request_written c.output.request ≡ true
    → 0 < length c.output.queue
    → length c.output.queue ≤ length turns
    → (c' : Conn) × (left : List Turn) × (take_socket k turns c return_socket closure flags m
        ≡ some (true, some c.output.request, c', left))
      × (c'.sent ≡ c.sent ++ c.output.queue)
      × (c'.output ≡ record c.output {
        return_socket = some return_socket;
        socket_closure = some closure;
        queue = [];
        request_written = c.output.request;
      })
take_socket_lem k turns c return_socket closure flags m w ok own idle behind some_bytes enough =
    elim (List-cases c.output.queue) [
      | inl e ↦ absurd (omega (arith, ap length e))
      | inr (b, q, e) ↦
          let one = append-nil c.output.queue in
          let (d, left, s, sent, output) =
            out_send_total k turns (set_queue c []) (c.output.queue ∷ []) w idle
              (omega (arith, ap length one)) (omega (arith, ap length one)) in
          let flushed = flush_to-sends k turns c b q c.output.request behind e ∙ s in
          let h = hand_over-output d return_socket closure flags m in
          (
            hand_over d return_socket closure flags m,
            left,
            take_socket-flushed k turns left c d return_socket closure flags m ok own flushed
                ∙ ap
                    (λ (o : Out).
                      some (true, some o.request, hand_over d return_socket closure flags m, left))
                    output,
            h.0 ∙ (sent ∙ ap (λ l. c.sent ++ l) one),
            h.1
                ∙ ap
                    (λ (o : Out). record o {
                      return_socket = some return_socket;
                      socket_closure = some closure;
                    })
                    output,
          )
    ]
