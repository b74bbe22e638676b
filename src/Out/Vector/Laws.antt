-- ===== src/Out/Vector/Laws.antt =====
-- No byte is lost, doubled or moved on the way out.
use androix_xcb_libxcb.Base.{
  ℕ, suc, ◌+◌, ◌-◌, ◌≤◌, ◌≡◌, inl, inr, refl, ap, sym, ◌∙◌, true, take, List, [], ◌∷◌, ◌++◌, drop,
  length, min, leb, arith, Bool-cases, append_assoc, append-nil, length-append, leb→le, lt→ltb,
  ltb_irrefl, List-cases, drop-part, drop-plus,
}
use native.Mathlib.Decide.{dec_lt}
use androix_xcb_libxcb.Conn.{Conn}
use androix_xcb_libxcb.Out.Vector.{
  Iovec, copy_parts, Written, buffered, send, write_block, advance, joined, wrote, again, broken,
  write_vec,
}

copy_parts-joined :
    (size : ℕ) (q : List ℕ) (v : List Iovec)
    → let r = copy_parts size q v in r.0 ++ joined r.1 ≡ q ++ joined v
unfolding copy_parts
copy_parts-joined size q [] = refl
copy_parts-joined size q (v ∷ vs) = elim (Bool-cases (leb (length q + length v) size)) [
  | inl fits ↦ rw fits (copy_parts-joined size (q ++ v) vs ∙ append_assoc q v (joined vs))
  | inr full ↦ rw full
]

copy_parts-le :
    (size : ℕ) (q : List ℕ) (v : List Iovec)
    → length q ≤ size
    → length (copy_parts size q v).0 ≤ size
unfolding copy_parts
copy_parts-le size q [] h = h
copy_parts-le size q (v ∷ vs) h = elim (Bool-cases (leb (length q + length v) size)) [
  | inl fits ↦
      rw fits (copy_parts-le size (q ++ v) vs (omega (arith, leb→le _ _ fits, length-append q v)))
  | inr full ↦ rw full h
]

-- What has to reach the server after a write_block.
abbrev pub outgoing : Written → List ℕ
outgoing (buffered c) = c.output.queue
outgoing (send c vector) = joined vector ++ c.output.queue

abbrev pub left_in_queue : Written → List ℕ
left_in_queue (buffered c) = c.output.queue
left_in_queue (send c vector) = c.output.queue

-- After write_block, what is queued or being sent is what was queued before, followed by all bytes of
-- the vector in order; and the queue is within its size, if it was before.
pub write_block-outgoing :
    (size : ℕ) (c : Conn) (vector : List Iovec)
    → length c.output.queue ≤ size
    → (outgoing (write_block size c vector) ≡ c.output.queue ++ joined vector)
      × (length (left_in_queue (write_block size c vector)) ≤ size)
unfolding write_block
write_block-outgoing size c vector h =
    let j = copy_parts-joined size c.output.queue vector in
    let l = copy_parts-le size c.output.queue vector h in
    elim (List-cases (copy_parts size c.output.queue vector).1) [
      | inl done ↦
          rw (done, write_block)
            (
              sym (append-nil (copy_parts size c.output.queue vector).0)
                  ∙ (ap (λ t. (copy_parts size c.output.queue vector).0 ++ joined t) (sym done)
                      ∙ j),
              l,
            )
      | inr (v, vs, e) ↦
          rw (e, write_block)
            (
              append-nil _
                  ∙ (ap (λ t. (copy_parts size c.output.queue vector).0 ++ joined t) (sym e) ∙ j),
              omega arith,
            )
    ]

-- Taking `n` bytes off a vector takes the first `n` of its bytes, and no part of a byte count is left
-- over, if the vector holds `n` bytes; so the assertion that ends write_vec holds.
pub advance-joined :
    (v : List Iovec) (n : ℕ)
    → n ≤ length (joined v)
    → (joined (advance v n).0 ≡ drop n (joined v)) × ((advance v n).1 ≡ 0)
unfolding advance
advance-joined [] n h = let z : n ≡ 0 = omega arith in rw z (refl, refl)
advance-joined (v ∷ vs) n h = elim (dec_lt n (length v)) [
  | yes part ↦
      let m : min (length v) n ≡ n = omega arith in
      rw (m, lt→ltb n (length v) part) (sym (drop-part v (joined vs) n (omega arith)), omega arith)
  | no all ↦
      let m : min (length v) n ≡ length v = omega arith in
      let ih = advance-joined vs (n - length v) (omega (arith, length-append v (joined vs))) in
      rw (m, ltb_irrefl (length v)) (ih.0 ∙ sym (drop-plus v (joined vs) n (omega arith)), ih.1)
]

-- After a write of some bytes, no more than there are, the vector holds the bytes that were not
-- written, in order, those that were are sent, and the connection is as it was otherwise; after EAGAIN
-- nothing has changed; any other result shuts the connection down.
pub write_vec_lem :
    (c : Conn) (v : List Iovec) (n : ℕ)
    → suc n ≤ length (joined v)
    → ((write_vec c v (wrote (suc n))).0 ≡ true)
      × (joined (write_vec c v (wrote (suc n))).1 ≡ drop (suc n) (joined v))
      × ((write_vec c v (wrote (suc n))).2 ≡ record c { sent = c.sent ++ take (suc n) (joined v) })
      × (write_vec c v again ≡ (true, v, c))
      × ((write_vec c v broken).2.has_error ≡ true)
      × ((write_vec c v (wrote 0)).2.has_error ≡ true)
unfolding write_vec
write_vec_lem c v n h = (refl, (advance-joined v (suc n) h).0, refl, refl, refl, refl)
