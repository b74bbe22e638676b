-- ===== src/Life/Octets.antt =====
-- The bytes that come, and the numbers in them.
use androix_xcb_libxcb.Base.{
  ℕ, zero, suc, ◌-◌, ◌%◌, ◌<◌, ◌≡◌, sym, inl, inr, Bool, true, false, List, [], ◌∷◌, Option, length,
  take, drop, get_or, leb, All, All-append, arith, Bool-cases, List-cases, ◌==◌,
}
use mathlib.Core.Path.{subst}
use androix_xcb_libxcb.Conn.{Conn, In, PendingReply}
use androix_xcb_libxcb.Conn.Socket.{Recv, read_block, got, would_block, failed}
use androix_xcb_libxcb.Sequence.{widen16, u64}
use androix_xcb_libxcb.In.Number.{
  GenericReply, genrep, xcb_error, read_number, complete_before, store_current, number_packet,
}
use androix_xcb_libxcb.In.Read.{wake_reader, deliver, fill_queue, in_queue_size}
use androix_xcb_libxcb.Chain.{append}
use androix_xcb_libxcb.In.Read.Deliver.{packet_of}
use androix_xcb_libxcb.Life.Evolves.{IsOctets, IsBytes, IsBounded}

-- The same bytes and numbers.
record SameNumbers (i i' : In) : Type 0 where
  queue : i'.queue ≡ i.queue
  read : i'.request_read ≡ i.request_read
  expected : i'.request_expected ≡ i.request_expected
  completed : i'.request_completed ≡ i.request_completed

SameNumbers-IsBounded : (i i' : In) → SameNumbers i i' → IsBounded i → IsBounded i'
SameNumbers-IsBounded i i' e b = (
  subst IsOctets (sym e.queue) b.0,
  omega (arith, e.read, b.1),
  omega (arith, e.expected, b.2),
  omega (arith, e.completed, b.3),
)

pub All-take : (n : ℕ) (l : List ℕ) → IsOctets l → IsOctets (take n l)
All-take zero l h = tt
All-take (suc n) [] h = tt
All-take (suc n) (b ∷ bs) h = (h.0, All-take n bs h.1)

pub All-drop : (n : ℕ) (l : List ℕ) → IsOctets l → IsOctets (drop n l)
All-drop zero l h = h
All-drop (suc n) [] h = tt
All-drop (suc n) (b ∷ bs) h = All-drop n bs h.1

pub read_block-IsBytes : (s : List Recv) (n : ℕ) → All IsBytes s → All IsBytes (read_block s n).1
unfolding read_block
read_block-IsBytes s zero h = h
read_block-IsBytes [] (suc n) h = tt
read_block-IsBytes (got [] ∷ s) (suc n) h = h.1
read_block-IsBytes (got (b ∷ bs) ∷ s) (suc n) h = elim (Bool-cases (leb (length bs) n)) [
  | inl all ↦ rw all (read_block-IsBytes s (n - length bs) h.1)
  | inr part ↦ rw part (All-drop n bs h.0.1, h.1)
]
read_block-IsBytes (would_block true ∷ s) (suc n) h = read_block-IsBytes s (suc n) h.1
read_block-IsBytes (would_block false ∷ s) (suc n) h = h.1
read_block-IsBytes (failed ∷ s) (suc n) h = h.1

widen16-lt :
    (lastread sequence : ℕ) → sequence < 0x10000 → lastread < u64 → widen16 lastread sequence < u64
unfolding widen16
widen16-lt lastread sequence h r = ground (arith, h, r)

read_number-IsBounded :
    (i : In) (sequence : ℕ) → sequence < 0x10000 → IsBounded i → IsBounded (read_number i sequence)
unfolding read_number
read_number-IsBounded i sequence h (o, r, x, d) =
    let w = widen16-lt i.request_read sequence h r in
    let y : (read_number i sequence).request_expected < u64 = ground (arith, w, x) in (o, w, y, d)

complete_before-IsBounded :
    (i : In) (lastread : ℕ) (m : Bool) → IsBounded i → IsBounded (complete_before i lastread m)
unfolding complete_before store_current
complete_before-IsBounded i lastread m b =
    let j = complete_before i lastread m in
    let q : j.queue ≡ i.queue = ground arith in
    let r : j.request_read ≡ i.request_read = ground arith in
    let x : j.request_expected ≡ i.request_expected = ground arith in
    let d : j.request_completed < u64 = ground (arith, b.1, b.3) in
    (subst IsOctets (sym q) b.0, omega (arith, r, b.1), omega (arith, x, b.2), d)

pub number_packet-IsBounded :
    (k : ℕ) (i : In) (rep : GenericReply) (m : Bool)
    → rep.sequence < 0x10000
    → IsBounded i
    → IsBounded (number_packet k i rep m)
unfolding number_packet
number_packet-IsBounded k i rep m h b =
    let n = read_number i rep.sequence in
    let a =
      complete_before-IsBounded n i.request_read m (read_number-IsBounded i rep.sequence h b) in
    let j = number_packet k i rep m in
    let o : IsOctets j.queue = elim (Bool-cases (rep.response_type % 0x80 == k)) [
      | inl keymap ↦ rw (keymap, number_packet) b.0
      | inr other ↦ elim (Bool-cases (rep.response_type == xcb_error)) [
        | inl bad ↦ rw (other, bad, number_packet) a.0
        | inr fine ↦ rw (other, fine, number_packet) a.0
      ]
    ] in
    let (_, r, x, d) = a in
    let (_, r', x', d') = b in
    (o, ground (arith, r, r'), ground (arith, x, x'), ground (arith, r, d, d'))

get_or-lt : (l : List ℕ) (i : ℕ) → IsOctets l → get_or l i 0 < 256
get_or-lt [] i h = omega arith
get_or-lt (b ∷ bs) zero h = h.0
get_or-lt (b ∷ bs) (suc i) h = get_or-lt bs i h.1

-- The number in a header has 16 bits.
pub header-lt : (l : List ℕ) → IsOctets l → (genrep l).sequence < 0x10000
header-lt l h = let low = get_or-lt l 2 h in let high = get_or-lt l 3 h in omega (arith, low, high)

wake_reader-SameNumbers : (i : In) → SameNumbers i (wake_reader i)
unfolding wake_reader
wake_reader-SameNumbers i = ground arith

pub deliver-IsBounded :
    (c : Conn) (p : Option PendingReply) (rt : ℕ) (bytes extra : List ℕ) (m : Bool)
    → IsBounded c.input
    → IsBounded (deliver c p rt bytes extra m).1.input
unfolding deliver
deliver-IsBounded c p rt bytes extra m =
    let j = (deliver c p rt bytes extra m).1.input in
    let w = wake_reader-SameNumbers (record c.input {
      current_reply = append c.input.current_reply (packet_of rt c.input.request_read bytes extra);
    }) in
    let q : j.queue ≡ c.input.queue = ground (arith, w.queue) in
    let r : j.request_read ≡ c.input.request_read = ground (arith, w.read) in
    let x : j.request_expected ≡ c.input.request_expected = ground (arith, w.expected) in
    let d : j.request_completed ≡ c.input.request_completed = ground (arith, w.completed) in
    SameNumbers-IsBounded c.input j (record { queue = q; read = r; expected = x; completed = d })

-- One recv into the queue.
pub fill_queue-IsOctets :
    (c : Conn)
    → IsOctets c.input.queue
    → All IsBytes c.socket
    → IsOctets (fill_queue c).2.input.queue × All IsBytes (fill_queue c).2.socket
unfolding fill_queue
fill_queue-IsOctets c q h = elim (List-cases c.socket) [
  | inl e ↦ rw (e, fill_queue) (q, h)
  | inr (got bs, s, e) ↦
      let b = rw e at h in
      let room : ℕ = in_queue_size - length c.input.queue in
      let l = All-drop room bs b.0 in
      let a = All-append (λ x. x < 256) c.input.queue (take room bs) q (All-take room bs b.0) in
      elim (List-cases (drop room bs)) [
        | inl fits ↦ rw (e, fits, fill_queue) (a, b.1)
        | inr (x, xs, more) ↦ rw (e, more, fill_queue) (a, (rw more at l, b.1))
      ]
  | inr (would_block p, s, e) ↦ rw (e, fill_queue) (q, (rw e at h).1)
  | inr (failed, s, e) ↦ rw (e, fill_queue) (q, (rw e at h).1)
]
