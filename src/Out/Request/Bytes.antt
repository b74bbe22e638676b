-- ===== src/Out/Request/Bytes.antt =====
-- What sending and numbering a request do to the bytes on their way.
use androix_xcb_libxcb.Base.{
  ℕ, zero, suc, ◌+◌, ◌≤◌, ◌<◌, ◌≡◌, refl, sym, ap, ◌∙◌, inl, inr, ◌⊎◌, Bool, true, List, [], ◌∷◌,
  ◌++◌, some, length, append_assoc, append-nil, arith, Bool-cases, Option-cases, List-cases, All,
  length-append,
}
use androix_xcb_libxcb.Conn.{Conn, Out, Flags, Workaround}
use androix_xcb_libxcb.Out.Vector.{
  Iovec, joined, set_queue, copy_parts, write_block, buffered, send,
}
use androix_xcb_libxcb.Out.Vector.Laws.{write_block-outgoing}
use androix_xcb_libxcb.In.Expect.{expect_reply}
use androix_xcb_libxcb.Out.Number.{
  next_request, needs_sync, sync, sync_loop, expect, number_request,
}
use androix_xcb_libxcb.Out.Send.Laws.{IsWilling, out_send_total}
use androix_xcb_libxcb.Wait.{Turn}
use androix_xcb_libxcb.Out.Request.{write_all}

pub write_block_cases :
    (size : ℕ) (c : Conn) (v : List Iovec)
    → ((q : List ℕ) × (write_block size c v ≡ buffered (set_queue c q)))
      ⊎ ((rest : List Iovec) × (write_block size c v ≡ send (set_queue c []) rest))
unfolding write_block
write_block_cases size c v = elim (List-cases (copy_parts size c.output.queue v).1) [
  | inl done ↦ inl ((copy_parts size c.output.queue v).0, rw (done, write_block) refl)
  | inr (x, xs, e) ↦ inr ((copy_parts size c.output.queue v).0 ∷ x ∷ xs, rw (e, write_block) refl)
]

-- Bytes on their way: `bytes` more than before, with the numbers of requests as they were, and the
-- queue within its size.
pub record Added (size : ℕ) (c : Conn) (bytes : List ℕ) (c' : Conn) : Type 0 where
  pub on_the_way : c'.sent ++ c'.output.queue ≡ (c.sent ++ c.output.queue) ++ bytes
  pub request : c'.output.request ≡ c.output.request
  pub room : length c'.output.queue ≤ size

pub write_all_total :
    (size k : ℕ) (turns : List Turn) (c : Conn) (v : List Iovec)
    → All IsWilling turns
    → c.output.writing ≡ 0
    → length c.output.queue ≤ size
    → 0 < length (joined v)
    → length c.output.queue + length (joined v) ≤ length turns
    → (c' : Conn) × (left : List Turn) × (write_all size k turns c v ≡ some (true, c', left))
      × Added size c (joined v) c'
unfolding write_all
write_all_total size k turns c v w idle fits some_bytes enough =
    let all : List ℕ = c.output.queue ++ joined v in
    let n = length-append c.output.queue (joined v) in
    elim (write_block_cases size c v) [
      | inl (q, e) ↦
          let o = rw e at (write_block-outgoing size c v fits) in
          (
            set_queue c q,
            turns,
            rw (e, write_all) refl,
            record {
              on_the_way =
                  ap (λ l. c.sent ++ l) o.0 ∙ sym (append_assoc c.sent c.output.queue (joined v));
              request = refl;
              room = o.1;
            },
          )
      | inr (rest, e) ↦
          let o = rw e at (write_block-outgoing size c v fits) in
          let same : joined rest ≡ all = sym (append-nil (joined rest)) ∙ o.0 in
          let (c', left, s, sent, output) =
            out_send_total k turns (set_queue c []) rest w idle (omega (arith, ap length same, n))
              (omega (arith, ap length same, n)) in
          let empty : c'.output.queue ≡ [] = ap (λ (x : Out). x.queue) output in
          (
            c',
            left,
            rw (e, write_all) s,
            record {
              on_the_way =
                  ap (λ l. c'.sent ++ l) empty
                  ∙ (append-nil c'.sent
                      ∙ (sent
                          ∙ (ap (λ l. c.sent ++ l) same
                              ∙ sym (append_assoc c.sent c.output.queue (joined v)))));
              request = ap (λ (x : Out). x.request) output;
              room = omega (arith, ap length empty);
            },
          )
    ]

-- Numbering a request leaves bytes and writers alone.
pub record Numbering (c c' : Conn) : Type 0 where
  pub sent : c'.sent ≡ c.sent
  pub queue : c'.output.queue ≡ c.output.queue
  pub writing : c'.output.writing ≡ c.output.writing

sync-Numbering : (c : Conn) (m : Bool) → Numbering c (sync c m)
unfolding sync expect_reply
sync-Numbering c m = ground arith

sync_loop-Numbering :
    (fuel : ℕ) (c c' : Conn) (isvoid synced : Bool) (m : ℕ → Bool)
    → sync_loop fuel c isvoid m ≡ some (synced, c')
    → Numbering c c'
unfolding sync_loop
sync_loop-Numbering zero c c' isvoid synced m e = absurd (ground (arith, e))
sync_loop-Numbering (suc fuel) c c' isvoid synced m e =
    let s = sync-Numbering c (m fuel) in
    elim (Bool-cases (needs_sync c isvoid)) [
      | inr stop ↦ ground (arith, stop, e)
      | inl more ↦ elim (Option-cases (sync_loop fuel (sync c (m fuel)) isvoid m)) [
        | inl short ↦ absurd (ground (arith, more, short, e))
        | inr ((b, d), found) ↦
            let r = sync_loop-Numbering fuel (sync c (m fuel)) d isvoid b m found in
            ground (arith, more, found, e, r, s)
      ]
    ]

expect-Numbering :
    (c : Conn) (isvoid : Bool) (w : Workaround) (f : Flags) (a : Bool)
    → Numbering c (expect c isvoid w f a)
unfolding expect expect_reply
expect-Numbering c isvoid w f a = ground arith

pub number_request-Numbering :
    (c c' : Conn) (isvoid synced : Bool) (w : Workaround) (f : Flags) (a : Bool) (m : ℕ → Bool)
    → number_request c isvoid w f a m ≡ some (synced, c')
    → Numbering c c'
unfolding number_request
number_request-Numbering c c' isvoid synced w f a m e =
    elim (Option-cases (sync_loop 3 (next_request c) isvoid m)) [
      | inl short ↦ absurd (ground (arith, short, e))
      | inr ((b, d), found) ↦
          let r = sync_loop-Numbering 3 (next_request c) d isvoid b m found in
          let x = expect-Numbering d isvoid w f a in ground (arith, found, e, r, x)
    ]
