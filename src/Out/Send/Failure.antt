-- ===== src/Out/Send/Failure.antt =====
-- When sending fails, the connection has been shut down.
use androix_xcb_libxcb.Base.{
  ℕ, ◌≡◌, refl, ap, ◌∙◌, inl, inr, true, false, List, [], ◌∷◌, some, arith, Option-cases,
  get_option,
}
use androix_xcb_libxcb.Conn.{Conn}
use androix_xcb_libxcb.Out.Send.{send_loop, finish_send, out_send, flush_to}
use androix_xcb_libxcb.Out.Vector.{Iovec, set_queue}
use androix_xcb_libxcb.Wait.{Turn, conn_wait}
use androix_xcb_libxcb.Wait.Failure.{conn_wait-failed}

send_loop-failed :
    (k : ℕ) (turns : List Turn) (c : Conn) (v : List Iovec) (c' : Conn) (left : List Turn)
    → send_loop k turns c v ≡ some (false, c', left)
    → c'.has_error ≡ true
unfolding send_loop
send_loop-failed k turns c [] c' left e = absurd (ground (arith, e))
send_loop-failed k [] c (v ∷ vs) c' left e = absurd (ground (arith, e))
send_loop-failed k (t ∷ turns) c (v ∷ vs) c' left e =
    let r = conn_wait k c (some (v ∷ vs)) t in
    let ih = send_loop-failed k turns r.2 (get_option r.1 []) c' left in
    ground (arith, e, ih, conn_wait-failed k c (some (v ∷ vs)) t)

finish_send-has_error : (c : Conn) → (finish_send c).has_error ≡ c.has_error
unfolding finish_send
finish_send-has_error c = refl

out_send-failed :
    (k : ℕ) (turns : List Turn) (c : Conn) (v : List Iovec) (c' : Conn) (left : List Turn)
    → out_send k turns c v ≡ some (false, c', left)
    → c'.has_error ≡ true
unfolding out_send
out_send-failed k turns c v c' left e = elim (Option-cases (send_loop k turns c v)) [
  | inl short ↦ absurd (ground (arith, e, short))
  | inr ((ret, d, l), found) ↦
      let q : c' ≡ finish_send d = ground (arith, e, found) in
      let bad : ret ≡ false = ground (arith, e, found) in
      ap (λ (x : Conn). x.has_error) q
      ∙ (finish_send-has_error d
          ∙ send_loop-failed k turns c v d l (found ∙ ap (λ b. some (b, d, l)) bad))
]

pub flush_to-failed :
    (k : ℕ) (turns : List Turn) (c : Conn) (request : ℕ) (c' : Conn) (left : List Turn)
    → flush_to k turns c request ≡ some (false, c', left)
    → c'.has_error ≡ true
unfolding flush_to
flush_to-failed k turns c request c' left e =
    ground (arith, e, out_send-failed k turns (set_queue c []) (c.output.queue ∷ []) c' left)
