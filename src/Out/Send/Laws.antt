-- ===== src/Out/Send/Laws.antt =====
-- What is sent, and that sending ends.
use androix_xcb_libxcb.Base.{
  ℕ, zero, suc, ◌-◌, ◌≤◌, ◌<◌, ◌≡◌, refl, sym, ap, ◌∙◌, inl, inr, ◌⊎◌, Bool, true, false, List, [],
  ◌∷◌, ◌++◌, some, length, min, ltb, ltb→lt, drop, append-nil, if◌then◌else◌, arith, Bool-cases,
  Option-cases, List-cases, get_option, All, length-append, length-drop,
}
use androix_xcb_libxcb.Conn.{Conn, Out}
use androix_xcb_libxcb.Out.Vector.{Iovec, set_queue, joined, wrote, write_vec, advance}
use androix_xcb_libxcb.Out.Vector.Laws.{advance-joined}
use androix_xcb_libxcb.Wait.{Turn, conn_wait, polled, write_ready, count_up}
use androix_xcb_libxcb.Wait.Laws.{IsPolite, conn_wait-Conveyed}
use androix_xcb_libxcb.Sequence.{seq_lt}
use androix_xcb_libxcb.Out.Send.{send_loop, finish_send, out_send, flush_to, flush}

send_loop-next :
    (k : ℕ) (t : Turn) (turns : List Turn) (c : Conn) (v : Iovec) (vs : List Iovec)
    → let r = conn_wait k c (some (v ∷ vs)) t in
      send_loop k (t ∷ turns) c (v ∷ vs)
      ≡ (if r.0 then send_loop k turns r.2 (get_option r.1 []) else some (false, r.2, turns))
unfolding send_loop
send_loop-next k t turns c v vs = refl

-- Whatever comes back, what was sent is followed by what was not, and the output side is as it was.
pub send_loop-prefix :
    (k : ℕ) (turns : List Turn) (c : Conn) (v : List Iovec) (ret : Bool) (c' : Conn)
    (left : List Turn)
    → All IsPolite turns
    → send_loop k turns c v ≡ some (ret, c', left)
    → (rest : List ℕ) × (c'.sent ++ rest ≡ c.sent ++ joined v)
      × (c'.output ≡ c.output)
      × ((ret ≡ false) ⊎ (rest ≡ []))
unfolding send_loop
send_loop-prefix k turns c [] ret c' left p e = ([], ground (arith, e), ground (arith, e), inr refl)
send_loop-prefix k [] c (v ∷ vs) ret c' left p e = absurd (ground (arith, e))
send_loop-prefix k (t ∷ turns) c (v ∷ vs) ret c' left p e =
    let r = conn_wait k c (some (v ∷ vs)) t in
    let w = conn_wait-Conveyed k c (v ∷ vs) t p.0 in
    elim (Bool-cases r.0) [
      | inl more ↦
          let e' : send_loop k turns r.2 (get_option r.1 []) ≡ some (ret, c', left) =
            rw more at e in
          let (rest, b, o, d) =
            send_loop-prefix k turns r.2 (get_option r.1 []) ret c' left p.1 e' in
          (rest, b ∙ w.bytes, o ∙ w.output, d)
      | inr stop ↦
          let e' : some (false, r.2, turns) ≡ some (ret, c', left) = rw stop at e in
          let q : c' ≡ r.2 = ground (arith, e') in
          let f : ret ≡ false = ground (arith, e') in
          (
            joined (get_option r.1 []),
            ap (λ (x : Conn). x.sent ++ joined (get_option r.1 [])) q ∙ w.bytes,
            ap (λ (x : Conn). x.output) q ∙ w.output,
            inl f,
          )
    ]

-- The bytes and the output side after _xcb_out_send.
pub out_send-sent :
    (k : ℕ) (turns : List Turn) (c : Conn) (v : List Iovec) (c' : Conn) (left : List Turn)
    → All IsPolite turns
    → out_send k turns c v ≡ some (true, c', left)
    → (c'.sent ≡ c.sent ++ joined v)
      × (c'.output ≡ record c.output { request_written = c.output.request })
unfolding out_send finish_send
out_send-sent k turns c v c' left p e = elim (Option-cases (send_loop k turns c v)) [
  | inl short ↦ absurd (ground (arith, short, e))
  | inr ((ret, d, l), found) ↦
      let q : c' ≡ finish_send d = ground (arith, found, e) in
      let yes_ret : ret ≡ true = ground (arith, found, e) in
      let (rest, bytes, output, last) = send_loop-prefix k turns c v ret d l p found in
      let none_left : rest ≡ [] = ground (arith, last, yes_ret) in
      (
        ap (λ (x : Conn). x.sent) q
            ∙ (sym (append-nil d.sent) ∙ (ap (λ l. d.sent ++ l) (sym none_left) ∙ bytes)),
        ap (λ (x : Conn). x.output) q
            ∙ ap (λ (o : Out). record o { request_written = o.request }) output,
      )
]

-- A round in which the socket takes at least one byte, and nothing comes in.
pub record IsWilling (t : Turn) : Type 0 where
  pub polite : IsPolite t
  pub ready : t.ready ≡ some (false, true)
  pub room : ℕ
  pub written : t.written ≡ wrote (suc room)

write_vec-pos :
    (c : Conn) (v : List Iovec) (n : ℕ)
    → 0 < n
    → let r = write_vec c v (wrote n) in (r.0 ≡ true) × (r.1 ≡ (advance v n).0)
unfolding write_vec
write_vec-pos c v zero h = absurd (omega arith)
write_vec-pos c v (suc n) h = (refl, refl)

pub polled-willing :
    (k : ℕ) (c : Conn) (v : List Iovec) (t : Turn) (w : IsWilling t)
    → let x = write_vec c v (wrote (min (suc w.room) (length (joined v)))) in
      polled k c (some v) t ≡ (x.0, some x.1, x.2)
unfolding polled write_ready
polled-willing k c v t w = rw (w.ready, polled, w.written) refl

conn_wait-willing :
    (k : ℕ) (c : Conn) (v : List Iovec) (t : Turn) (w : IsWilling t)
    → c.output.writing ≡ 0
    → 0 < length (joined v)
    → let r = conn_wait k c (some v) t in
      (r.0 ≡ true) × (get_option r.1 [] ≡ (advance v (min (suc w.room) (length (joined v)))).0)
unfolding conn_wait
conn_wait-willing k c v t w idle some_bytes =
    let d = t.others (count_up c true) in
    let x = write_vec-pos d v (min (suc w.room) (length (joined v))) (omega arith) in
    let free : ltb 0 c.output.writing ≡ false = ap (ltb 0) idle in
    rw (free, conn_wait, polled-willing k d v t w) x

-- Nothing is left of a vector, or it has bytes.
advance-left :
    (v : List Iovec) (n : ℕ) → ((advance v n).0 ≡ []) ⊎ (0 < length (joined (advance v n).0))
unfolding advance
advance-left [] n = inl refl
advance-left (v ∷ vs) n = elim (Bool-cases (ltb (min (length v) n) (length v))) [
  | inl part ↦ rw part (
      inr (
        omega (
          arith,
          length-drop (min (length v) n) v,
          ltb→lt _ _ part,
          length-append (drop (min (length v) n) v) (joined vs),
        )))
  | inr all ↦ rw all (advance-left vs (n - min (length v) n))
]

-- _xcb_out_send ends: as many rounds as there are bytes are enough, if the socket takes a byte or more
-- in each, no thread is writing and the vector has bytes, or is empty.
send_loop_total :
    (k : ℕ) (turns : List Turn) (c : Conn) (v : List Iovec)
    → All IsWilling turns
    → c.output.writing ≡ 0
    → ((v ≡ []) ⊎ (0 < length (joined v)))
    → length (joined v) ≤ length turns
    → (c' : Conn) × (left : List Turn) × (send_loop k turns c v ≡ some (true, c', left))
unfolding send_loop
send_loop_total k turns c [] w idle some_bytes enough = (c, turns, refl)
send_loop_total k [] c (v ∷ vs) w idle some_bytes enough = absurd (ground (arith, some_bytes))
send_loop_total k (t ∷ turns) c (v ∷ vs) w idle some_bytes enough =
    let n : ℕ = min (suc w.0.room) (length (joined (v ∷ vs))) in
    let pos : 0 < length (joined (v ∷ vs)) = ground (arith, some_bytes) in
    let r = conn_wait k c (some (v ∷ vs)) t in
    let g = conn_wait-willing k c (v ∷ vs) t w.0 idle pos in
    let o = conn_wait-Conveyed k c (v ∷ vs) t w.0.polite in
    let idle' : r.2.output.writing ≡ 0 = ap (λ (x : Out). x.writing) o.output ∙ idle in
    let less : length (joined (get_option r.1 [])) ≤ length turns = omega (
      arith,
      pos,
      ap (λ l. length (joined l)) g.1,
      ap length (advance-joined (v ∷ vs) n (omega arith)).0,
      length-drop n (joined (v ∷ vs)),
    ) in
    let nonempty : (get_option r.1 [] ≡ []) ⊎ (0 < length (joined (get_option r.1 []))) =
      rw (g.1) (advance-left (v ∷ vs) n) in
    rw (g.0) (send_loop_total k turns r.2 (get_option r.1 []) w.1 idle' nonempty less)

All-IsPolite : (turns : List Turn) → All IsWilling turns → All IsPolite turns
All-IsPolite [] w = tt
All-IsPolite (t ∷ turns) w = (w.0.polite, All-IsPolite turns w.1)

-- _xcb_out_send with enough rounds: it succeeds, sends all bytes of the vector in order, and notes that
-- all requests are written.
pub out_send_total :
    (k : ℕ) (turns : List Turn) (c : Conn) (v : List Iovec)
    → All IsWilling turns
    → c.output.writing ≡ 0
    → 0 < length (joined v)
    → length (joined v) ≤ length turns
    → (c' : Conn) × (left : List Turn) × (out_send k turns c v ≡ some (true, c', left))
      × (c'.sent ≡ c.sent ++ joined v)
      × (c'.output ≡ record c.output { request_written = c.output.request })
unfolding out_send
out_send_total k turns c v w idle some_bytes enough =
    let (c', left, e) = send_loop_total k turns c v w idle (inr some_bytes) enough in
    let e' : out_send k turns c v ≡ some (true, finish_send c', left) = rw (e, out_send) refl in
    let s = out_send-sent k turns c v (finish_send c') left (All-IsPolite turns w) e' in
    (finish_send c', left, e', s.0, s.1)

flush-sends :
    (k : ℕ) (turns : List Turn) (c : Conn) (b : ℕ) (q : List ℕ)
    → c.has_error ≡ false
    → seq_lt c.output.request_written c.output.request ≡ true
    → c.output.queue ≡ b ∷ q
    → flush k turns c ≡ out_send k turns (set_queue c []) (c.output.queue ∷ [])
unfolding flush flush_to
flush-sends k turns c b q ok behind e = ground (arith, ok, behind, e)

-- xcb_flush with bytes in the queue and requests not yet written: as many rounds as there are bytes
-- are enough, if in each poll reports that the socket can be written and not that it can be read,
-- so that nothing comes in, the socket takes a byte or more, and other threads leave the output
-- side alone and what is sent; no thread is writing before, and the connection has no error. It
-- succeeds, everything in the queue is sent, in order and behind what was sent before, the queue is
-- empty, and all requests count as written.
pub flush_lem :
    (k : ℕ) (turns : List Turn) (c : Conn)
    → All IsWilling turns
    → c.has_error ≡ false
    → c.output.writing ≡ 0
    → seq_lt c.output.request_written c.output.request ≡ true
    → 0 < length c.output.queue
    → length c.output.queue ≤ length turns
    → (c' : Conn) × (left : List Turn) × (flush k turns c ≡ some (true, c', left))
      × (c'.sent ≡ c.sent ++ c.output.queue)
      × (c'.output ≡ record c.output { queue = []; request_written = c.output.request })
flush_lem k turns c w ok idle behind some_bytes enough = elim (List-cases c.output.queue) [
  | inl e ↦ absurd (omega (arith, ap length e))
  | inr (b, q, e) ↦
      let one = append-nil c.output.queue in
      let (c', left, s, sent, output) =
        out_send_total k turns (set_queue c []) (c.output.queue ∷ []) w idle
          (omega (arith, ap length one)) (omega (arith, ap length one)) in
      (
        c',
        left,
        flush-sends k turns c b q ok behind e ∙ s,
        sent ∙ ap (λ l. c.sent ++ l) one,
        output,
      )
]
