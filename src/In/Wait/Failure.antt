-- ===== src/In/Wait/Failure.antt =====
-- When xcb_wait_for_reply returns neither a reply nor an error.
use androix_xcb_libxcb.Base.{
  ℕ, ◌≡◌, refl, sym, ap, ◌∙◌, inl, inr, ◌⊎◌, Bool, true, false, List, [], ◌∷◌, Option, none, some,
  ◌==◌, ◌||◌, if◌then◌else◌, arith, Bool-cases, Option-cases, List-cases, ◌≢◌, ◌&&◌,
}
use mathlib.Core.Path.{subst}
use androix_xcb_libxcb.Sequence.{widen32, seq_lt32, seq_eq32}
use androix_xcb_libxcb.Conn.{Conn, In, Packet, Reader, set_input}
use androix_xcb_libxcb.In.Expect.{wake_up_next_reader}
use androix_xcb_libxcb.In.Poll.{
  Answer, answer, poll_for_reply, take_stored, take_current, has_current,
}
use androix_xcb_libxcb.Chain.{pop}
use androix_xcb_libxcb.In.Wait.{
  insert_reader, remove_reader, set_readers, wait_loop, wait_as_reader, wake_up, wait_for_reply,
}
use androix_xcb_libxcb.Out.Send.{flush_to}
use androix_xcb_libxcb.Wait.{Turn, conn_wait, is_some}
use androix_xcb_libxcb.Out.Send.Failure.{flush_to-failed}
use androix_xcb_libxcb.Wait.Failure.{conn_wait-failed}

-- A reply for the request can no longer come.
abbrev pub is_past : ℕ → In → Bool
is_past request i =
    request == 0 || (seq_lt32 request i.request_read || seq_eq32 request i.request_completed)

take_stored-request_read :
    (i : In) (request : ℕ) (m : Bool) → (take_stored i request m).1.request_read ≡ i.request_read
unfolding take_stored
take_stored-request_read i request m = ground arith

-- A packet is handed out as a reply or as an error.
answer-some :
    (p : Packet) → (answer (some p) true).reply ≡ none → (answer (some p) true).error ≢ none
unfolding answer
answer-some p r e = ground (arith, r, e)

take_current-some : (i : In) → has_current i ≡ true → (p : Packet) × ((take_current i).0 ≡ some p)
unfolding take_current pop
take_current-some i h = elim (List-cases i.current_reply.nodes) [
  | inl e ↦ absurd (ground (arith, e, h))
  | inr (p, ps, e) ↦ (p, ground (arith, e))
]

poll_for_reply-none :
    (i i' : In) (request : ℕ) (m : Bool) (a : Answer)
    → poll_for_reply i request true m ≡ (some a, i')
    → a.reply ≡ none
    → a.error ≡ none
    → is_past request i' ≡ true
unfolding poll_for_reply
poll_for_reply-none i i' request m a e r r' = elim (Bool-cases (request == 0)) [
  | inl zero_ ↦ rw zero_ refl
  | inr nz ↦ elim (Bool-cases (seq_lt32 request i.request_read)) [
    | inl past ↦
        let q : i' ≡ (take_stored i request m).1 = ground (arith, e, nz, past) in
        let same : i'.request_read ≡ i.request_read =
          ap (λ (x : In). x.request_read) q ∙ take_stored-request_read i request m in
        rw (nz, same, past) refl
    | inr now ↦ elim (Bool-cases (seq_eq32 request i.request_read && has_current i)) [
      | inl here ↦
          let (p, found) = take_current-some i (ground (arith, here)) in
          let q : a ≡ answer (some p) true = ground (arith, e, nz, now, here, found) in
          absurd (
            answer-some p (ap (λ (x : Answer). x.reply) (sym q) ∙ r)
              (ap (λ (x : Answer). x.error) (sym q) ∙ r'))
      | inr gone ↦ elim (Bool-cases (seq_eq32 request i.request_completed)) [
        | inl done ↦
            let q : i' ≡ i = ground (arith, e, nz, now, gone, done) in rw (q, nz, done, now) refl
        | inr open_ ↦ absurd (ground (arith, e, nz, now, gone, open_))
      ]
    ]
  ]
]

-- What the absence of an answer means.
abbrev pub Silent : ℕ → Conn → Type 0
Silent request c = (c.has_error ≡ true) ⊎ (is_past request c.input ≡ true)

-- A poll that gives the answer of a round without one.
polled-none :
    (c c' : Conn) (request : ℕ) (m : Bool) (a : Answer) (i : In)
    → poll_for_reply c.input request true m ≡ (some a, i)
    → c' ≡ set_input c i
    → a.reply ≡ none
    → a.error ≡ none
    → Silent request c'
polled-none c c' request m a i e q r r' = inr (
    ap (λ (x : Conn). is_past request x.input) q ∙ poll_for_reply-none c.input i request m a e r r')

wait_loop-none :
    (k : ℕ) (turns : List Turn) (c : Conn) (request : ℕ) (m : Bool) (a : Answer) (c' : Conn)
    (left : List Turn)
    → wait_loop k turns c request true m ≡ some (a, c', left)
    → a.reply ≡ none
    → a.error ≡ none
    → Silent request c'
unfolding wait_loop
wait_loop-none k [] c request m a c' left e r r' =
    let p = poll_for_reply c.input request true m in
    elim (Option-cases p.0) [
      | inl n ↦ absurd (ground (arith, e, n))
      | inr (b, f) ↦
          let same : b ≡ a = ground (arith, e, f) in
          polled-none c c' request m a p.1 (ap (λ x. (x, p.1)) (f ∙ ap some same))
            (ground (arith, e, f)) r r'
    ]
wait_loop-none k (t ∷ turns) c request m a c' left e r r' =
    let p = poll_for_reply c.input request true m in
    let d = set_input c p.1 in
    let w = conn_wait k d none t in
    elim (Option-cases p.0) [
      | inl n ↦ elim (Bool-cases w.0) [
        | inl go ↦ wait_loop-none k turns w.2 request m a c' left (ground (arith, e, n, go)) r r'
        | inr stop ↦
            let q : c' ≡ w.2 = ground (arith, e, n, stop) in
            inl (ap (λ (x : Conn). x.has_error) q ∙ conn_wait-failed k d none t stop)
      ]
      | inr (b, f) ↦
          let same : b ≡ a = ground (arith, e, f) in
          polled-none c c' request m a p.1 (ap (λ x. (x, p.1)) (f ∙ ap some same))
            (ground (arith, e, f)) r r'
    ]

Silent-set_readers :
    (request : ℕ) (c : Conn) (l : List Reader) → Silent request c → Silent request (set_readers c l)
Silent-set_readers request c l s = s

Silent-wake_up : (request : ℕ) (c : Conn) → Silent request c → Silent request (wake_up c)
unfolding wake_up_next_reader
Silent-wake_up request c s = elim (List-cases c.input.readers) [
  | inl e ↦ rw (e, wake_up_next_reader) s
  | inr (r, rs, e) ↦ rw (e, wake_up_next_reader) s
]

wake_up-has_error : (c : Conn) → (wake_up c).has_error ≡ c.has_error
wake_up-has_error c = refl

wait_as_reader-none :
    (k : ℕ) (turns : List Turn) (c : Conn) (request cond : ℕ) (m : Bool) (a : Answer) (c' : Conn)
    (left : List Turn)
    → wait_as_reader k turns c request cond true m ≡ some (a, c', left)
    → a.reply ≡ none
    → a.error ≡ none
    → Silent request c'
unfolding wait_as_reader
wait_as_reader-none k turns c request cond m a c' left e r r' =
    let me : Reader = record { request = request; cond = cond } in
    let d = set_readers c (insert_reader c.input.readers me) in
    elim (Option-cases (wait_loop k turns d request true m)) [
      | inl n ↦ absurd (ground (arith, e, n))
      | inr ((b, x, l), f) ↦
          let same : b ≡ a = ground (arith, e, f) in
          let q : c' ≡ set_readers x (remove_reader x.input.readers me) = ground (arith, e, f) in
          let s =
            wait_loop-none k turns d request m b x l f (ap (λ (y : Answer). y.reply) same ∙ r)
              (ap (λ (y : Answer). y.error) same ∙ r') in
          subst (Silent request) (sym q)
            (Silent-set_readers request x (remove_reader x.input.readers me) s)
    ]

-- xcb_wait_for_reply with a pointer for the error returns neither a reply nor an error only if the
-- connection has been shut down, before the call or by a failure while it sends or waits, or if no
-- reply can come any more: the request is 0, before the one now read, or completed.
pub wait_for_reply-none :
    (k : ℕ) (turns : List Turn) (c : Conn) (request cond : ℕ) (m : Bool) (a : Answer) (c' : Conn)
    (left : List Turn)
    → wait_for_reply k turns c request cond true m ≡ some (a, c', left)
    → a.reply ≡ none
    → a.error ≡ none
    → (c'.has_error ≡ true)
      ⊎ ((request == 0
            || (seq_lt32 request c'.input.request_read
                || seq_eq32 request c'.input.request_completed))
          ≡ true)
unfolding wait_for_reply
wait_for_reply-none k turns c request cond m a c' left e r r' =
    let widened : ℕ = widen32 c.output.request request in
    let flushed = flush_to k turns c widened in
    let written : Option (Bool × Conn × List Turn) =
      if is_some c.output.return_socket then some (true, c, turns) else flushed in
    elim (Bool-cases c.has_error) [
      | inl shut ↦
          let q : c' ≡ c = ground (arith, e, shut) in inl (ap (λ (x : Conn). x.has_error) q ∙ shut)
      | inr ok ↦ elim (Option-cases written) [
        | inl n ↦ absurd (ground (arith, e, ok, n))
        | inr ((done, d, l), f) ↦ elim (Bool-cases done) [
          | inr bad ↦
              let q : c' ≡ wake_up d = ground (arith, e, ok, f, bad) in
              let lost : flushed ≡ some (false, d, l) = ground (arith, f, bad) in
              inl (
                ap (λ (x : Conn). x.has_error) q
                ∙ (wake_up-has_error d ∙ flush_to-failed k turns c widened d l lost))
          | inl good ↦ elim (Option-cases (wait_as_reader k l d request cond true m)) [
            | inl n ↦ absurd (ground (arith, e, ok, f, good, n))
            | inr ((b, x, ts), g) ↦
                let same : b ≡ a = ground (arith, e, ok, f, good, g) in
                let q : c' ≡ wake_up x = ground (arith, e, ok, f, good, g) in
                let s =
                  wait_as_reader-none k l d request cond m b x ts g
                    (ap (λ (y : Answer). y.reply) same ∙ r)
                    (ap (λ (y : Answer). y.error) same ∙ r') in
                subst (Silent request) (sym q) (Silent-wake_up request x s)
          ]
        ]
      ]
    ]
