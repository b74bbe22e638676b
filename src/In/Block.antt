-- ===== src/In/Block.antt =====
-- _xcb_in_read_block: bytes from the input queue, and then from the socket.
use androix_xcb_libxcb.Base.{
  ℕ, ◌+◌, ◌-◌, ◌≤◌, ◌<◌, ◌≡◌, refl, ap, sym, ◌∙◌, true, List, ◌++◌, Option, none, some, take, drop,
  length, min, arith, ltb, ◌==◌, if◌then◌else◌, zero, suc, length-drop, length-append, Bool-cases,
  ltb→lt, ltb→le, lt→ltb, ltb_irrefl, inl, inr, ◌⊎◌, Option-cases, take-all, take-plus, take-part,
  drop-all, drop-plus, drop-part,
}
use native.Mathlib.Decide.{dec_le}
use androix_xcb_libxcb.Conn.{Conn, conn_shutdown, set_input}
use androix_xcb_libxcb.Conn.Socket.{read_block, arriving, read_block-stream, read_block-short}

-- The result `none` stands for a return value of 0 or less; the C function returns `len` on success,
-- which is 0 for no bytes.
unfoldable pub in_read_block : Conn → ℕ → Option (List ℕ) × Conn
in_read_block c len =
    let queue = c.input.queue in
    let done : ℕ = min len (length queue) in
    let c' = set_input c (record c.input { queue = drop done queue }) in
    let ret = read_block c.socket (len - done) in
    let c'' = record c' { socket = ret.1 } in
    if ltb done len
    then elim ret.0 [
      | none ↦ (none, conn_shutdown c'')
      | some buf ↦ (some (take done queue ++ buf), c'')
    ]
    else (if len == 0 then none else some (take done queue), c')

-- All the bytes that the connection will still read.
abbrev pub stream : Conn → List ℕ
stream c = c.input.queue ++ arriving c.socket

-- What a read of a block leaves alone.
pub record Kept (c c' : Conn) : Type 0 where
  pub output : c'.output ≡ c.output
  pub sent : c'.sent ≡ c.sent
  pub input : c'.input ≡ record c.input { queue = c'.input.queue }

pub in_read_block-Kept : (c : Conn) (len : ℕ) → Kept c (in_read_block c len).1
unfolding in_read_block
in_read_block-Kept c len = ground arith

-- A read of `len` bytes, when that many will come, returns the next `len` bytes of the stream, queue
-- first, leaves the stream at the byte after them, and reports no error.
pub in_read_block-stream :
    (c : Conn) (len : ℕ)
    → 0 < len
    → len ≤ length (stream c)
    → ((in_read_block c len).0 ≡ some (take len (stream c)))
      × (stream (in_read_block c len).1 ≡ drop len (stream c))
      × ((in_read_block c len).1.has_error ≡ c.has_error)
unfolding in_read_block
in_read_block-stream c len h le = elim (Bool-cases (ltb (length c.input.queue) len)) [
  | inl more ↦
      let q = c.input.queue in
      let p = ltb→lt _ _ more in
      let r =
        read_block-stream c.socket (len - length q)
          (omega (arith, length-append q (arriving c.socket))) in
      let m : min len (length q) ≡ length q = omega arith in
      ground (
        arith,
        m,
        ap (λ k. take k q) m ∙ take-all (length q) q (omega arith),
        ap (λ k. drop k q) m ∙ drop-all (length q) q (omega arith),
        ap (λ k. read_block c.socket (len - k)) m,
        r.0,
        r.1,
        take-plus q (arriving c.socket) len (omega arith),
        drop-plus q (arriving c.socket) len (omega arith),
      )
  | inr enough ↦
      let q = c.input.queue in
      let p = ltb→le _ _ enough in
      let m : min len (length q) ≡ len = omega arith in
      rw (m, ltb_irrefl len)
        (
          ground (arith, take-part q (arriving c.socket) len p),
          sym (drop-part q (arriving c.socket) len p),
          refl,
        )
]

-- If the stream ends before, the read fails and the connection is shut down.
pub in_read_block-short :
    (c : Conn) (len : ℕ)
    → length (stream c) < len
    → ((in_read_block c len).0 ≡ none) × ((in_read_block c len).1.has_error ≡ true)
unfolding in_read_block
in_read_block-short c len h =
    let q = c.input.queue in
    let m : min len (length q) ≡ length q = omega (arith, length-append q (arriving c.socket)) in
    rw
      (
        m,
        lt→ltb (length q) len (omega (arith, length-append q (arriving c.socket))),
        read_block-short c.socket (len - length q)
            (omega (arith, length-append q (arriving c.socket))),
      )
      (refl, refl)

in_read_block-zero : (c : Conn) → (in_read_block c 0).0 ≡ none
unfolding in_read_block
in_read_block-zero c = ground arith

in_read_block-consumes :
    (c : Conn) (len : ℕ) (b : List ℕ)
    → (in_read_block c len).0 ≡ some b
    → (0 < len) × (length (stream (in_read_block c len).1) + len ≡ length (stream c))
in_read_block-consumes c zero b e = cc (in_read_block-zero c)
in_read_block-consumes c (suc n) b e = elim (dec_le (suc n) (length (stream c))) [
  | yes p ↦
      let r = in_read_block-stream c (suc n) (omega arith) p in
      (omega arith, omega (arith, ap length r.1, length-drop (suc n) (stream c)))
  | no p ↦ cc ((in_read_block-short c (suc n) (omega arith)).0)
]

-- A read fails, or takes at least one byte.
pub in_read_block_cases :
    (c : Conn) (len : ℕ)
    → ((in_read_block c len).0 ≡ none)
      ⊎ ((b : List ℕ) × ((in_read_block c len).0 ≡ some b)
          × (length (stream (in_read_block c len).1) < length (stream c)))
in_read_block_cases c len = elim (Option-cases (in_read_block c len).0) [
  | inl lost ↦ inl lost
  | inr (b, found) ↦ inr (b, found, omega (arith, in_read_block-consumes c len b found))
]
