-- ===== src/Connect/Alone.antt =====
-- Sending while no other thread has the connection: only what is sent changes.
use androix_xcb_libxcb.Base.{
  ℕ, zero, suc, ◌+◌, ◌-◌, ◌≡◌, refl, sym, ap, ◌∙◌, inl, inr, Bool, true, false, List, [], ◌∷◌,
  Option, some, min, length, ltb, get_option, arith, All, Bool-cases, Option-cases,
}
use androix_xcb_libxcb.Conn.{Conn}
use androix_xcb_libxcb.Out.Send.{send_loop, finish_send, out_send}
use androix_xcb_libxcb.Out.Send.Laws.{IsWilling, polled-willing}
use androix_xcb_libxcb.Out.Vector.{Iovec, write_vec, wrote, joined}
use androix_xcb_libxcb.Wait.{Turn, conn_wait, polled, count_up, count_down}

-- A round in which the socket takes a byte or more, and no other thread does anything.
pub record IsAlone (t : Turn) : Type 0 where
  pub willing : IsWilling t
  pub idle : (c : Conn) → t.others c ≡ c

pub All-IsWilling : (turns : List Turn) → All IsAlone turns → All IsWilling turns
All-IsWilling [] a = tt
All-IsWilling (t ∷ turns) a = (a.0.willing, All-IsWilling turns a.1)

write_vec_kept :
    (c : Conn) (v : List Iovec) (n : ℕ)
    → (write_vec c v (wrote n)).0 ≡ true
    → (write_vec c v (wrote n)).2 ≡ record c { sent = (write_vec c v (wrote n)).2.sent }
unfolding write_vec
write_vec_kept c v zero e = cc e
write_vec_kept c v (suc n) e = refl

conn_wait_alone :
    (k : ℕ) (c : Conn) (v : List Iovec) (t : Turn) (a : IsAlone t)
    → ltb 0 c.output.writing ≡ false
    → let x =
        write_vec (count_up c true) v (wrote (min (suc a.willing.room) (length (joined v)))) in
      conn_wait k c (some v) t ≡ (x.0, some x.1, count_down x.2 true)
unfolding conn_wait
conn_wait_alone k c v t a free =
    let up = count_up c true in
    let p : polled k (t.others up) (some v) t ≡ polled k up (some v) t =
      ap (λ d. polled k d (some v) t) (a.idle up) in
    ground (arith, free, p ∙ polled-willing k up v t a.willing)

conn_wait_kept :
    (k : ℕ) (c : Conn) (v : List Iovec) (t : Turn)
    → IsAlone t
    → let r = conn_wait k c (some v) t in r.0 ≡ true → r.2 ≡ record c { sent = r.2.sent }
unfolding conn_wait
conn_wait_kept k c v t a ok = elim (Bool-cases (ltb 0 c.output.writing)) [
  | inl busy ↦
      rw (busy, conn_wait)
        (a.idle c ∙ ap (λ (x : Conn). record c { sent = x.sent }) (sym (a.idle c)))
  | inr free ↦
      let up = count_up c true in
      let e = conn_wait_alone k c v t a free in
      let n : ℕ = min (suc a.willing.room) (length (joined v)) in
      let w =
        write_vec_kept up v n (sym (ap (λ (x : Bool × Option (List Iovec) × Conn). x.0) e) ∙ ok) in
      let d = ap (λ x. count_down x true) w in
      let s : List ℕ = (write_vec up v (wrote n)).2.sent in
      let reading : c.input.reading + 1 - 1 ≡ c.input.reading = omega arith in
      let writing : c.output.writing + 1 - 1 ≡ c.output.writing = omega arith in
      let back : count_down (record up { sent = s }) true ≡ record c { sent = s } =
        ap
          (λ (i : ℕ). record (count_down (record up { sent = s }) true) {
            input = record c.input { reading = i };
          })
          reading
        ∙ ap (λ (o : ℕ). record c { sent = s; output = record c.output { writing = o } }) writing in
      let z = ap (λ (x : Bool × Option (List Iovec) × Conn). x.2) e ∙ (d ∙ back) in
      z ∙ ap (λ l. record c { sent = l }) (sym (ap (λ (x : Conn). x.sent) z))
]

send_loop_kept :
    (k : ℕ) (turns : List Turn) (c : Conn) (v : List Iovec) (c' : Conn) (left : List Turn)
    → All IsAlone turns
    → send_loop k turns c v ≡ some (true, c', left)
    → c' ≡ record c { sent = c'.sent }
unfolding send_loop
send_loop_kept k turns c [] c' left a e =
    let q : c' ≡ c = ground (arith, e) in
    q ∙ ap (λ l. record c { sent = l }) (sym (ap (λ (x : Conn). x.sent) q))
send_loop_kept k [] c (v ∷ vs) c' left a e = absurd (ground (arith, e))
send_loop_kept k (t ∷ turns) c (v ∷ vs) c' left a e =
    let r = conn_wait k c (some (v ∷ vs)) t in
    elim (Bool-cases r.0) [
      | inl ok ↦
          let e' : send_loop k turns r.2 (get_option r.1 []) ≡ some (true, c', left) =
            ground (arith, e, ok) in
          let ih = send_loop_kept k turns r.2 (get_option r.1 []) c' left a.1 e' in
          ih ∙ ap (λ (x : Conn). record x { sent = c'.sent }) (conn_wait_kept k c (v ∷ vs) t a.0 ok)
      | inr bad ↦ absurd (ground (arith, e, bad))
    ]

-- What _xcb_out_send changes when no other thread does anything.
pub out_send-alone :
    (k : ℕ) (turns : List Turn) (c : Conn) (v : List Iovec) (c' : Conn) (left : List Turn)
    → All IsAlone turns
    → out_send k turns c v ≡ some (true, c', left)
    → c' ≡ finish_send (record c { sent = c'.sent })
unfolding out_send finish_send
out_send-alone k turns c v c' left a e = elim (Option-cases (send_loop k turns c v)) [
  | inl short ↦ absurd (ground (arith, short, e))
  | inr ((ret, d, l), found) ↦
      let q : c' ≡ finish_send d = ground (arith, found, e) in
      let ok : ret ≡ true = ground (arith, found, e) in
      let f : send_loop k turns c v ≡ some (true, d, l) = found ∙ ap (λ b. some (b, d, l)) ok in
      let s : d.sent ≡ c'.sent = sym (ap (λ (x : Conn). x.sent) q) in
      q
      ∙ (ap finish_send (send_loop_kept k turns c v d l a f)
          ∙ ap (λ x. finish_send (record c { sent = x })) s)
]
