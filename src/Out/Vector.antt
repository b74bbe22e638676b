-- ===== src/Out/Vector.antt =====
-- write_block of xcb_out.c and write_vec of xcb_conn.c: vectors of bytes on their way out.
pub mod Laws
use androix_xcb_libxcb.Base.{
  ℕ, zero, suc, ◌+◌, ◌-◌, Bool, true, false, Option, none, some, List, [], ◌∷◌, ◌++◌, take, drop,
  length, min, leb, ltb, ◌==◌, if◌then◌else◌, ◌&&◌, ◌||◌, not,
}
use androix_xcb_libxcb.Conn.{Conn, Out, conn_shutdown}

abbrev pub set_queue : Conn → List ℕ → Conn
set_queue c q = record c { output = record c.output { queue = q } }

-- struct iovec: the bytes from `iov_base` on, `iov_len` of them.
abbrev pub Iovec : Type 0
Iovec = List ℕ

-- The loop of write_block: parts go into the queue while they fit. `size` is XCB_QUEUE_BUFFER_SIZE.
-- The parts that are left come with the queue.
unfoldable pub copy_parts : ℕ → List ℕ → List Iovec → List ℕ × List Iovec
copy_parts size queue [] = (queue, [])
copy_parts size queue (v ∷ vector) =
    let more = copy_parts size (queue ++ v) vector in
    if leb (length queue + length v) size then more else (queue, v ∷ vector)

-- write_block: all is in the queue, or the call of _xcb_out_send that it ends in, with its vector.
pub data Written : Type 0 where
  buffered : Conn → Written
  send : Conn → List Iovec → Written

unfoldable pub write_block : ℕ → Conn → List Iovec → Written
write_block size c vector =
    let r = copy_parts size c.output.queue vector in
    elim r.1 [ [] ↦ buffered (set_queue c r.0) | v ∷ vs ↦ send (set_queue c []) (r.0 ∷ v ∷ vs) ]

abbrev pub joined : List Iovec → List ℕ
joined [] = []
joined (v ∷ vs) = v ++ joined vs

-- The loop of write_vec: `n` bytes are taken off the vector. The number that comes with what is left
-- is what the assertion at the end compares with 0.
unfoldable pub advance : List Iovec → ℕ → List Iovec × ℕ
advance [] n = ([], n)
advance (v ∷ vector) n =
    let cur : ℕ = min (length v) n in
    let more = advance vector (n - cur) in
    if ltb cur (length v) then (drop cur v ∷ vector, n - cur) else more

-- What writev returns: a number of bytes, the error EAGAIN, or 0 or another error.
pub data Writev : Type 0 where
  wrote : ℕ → Writev
  again broken : Writev

-- write_vec; the vector that is left has no parts just when `*vector` becomes null.
unfoldable pub write_vec : Conn → List Iovec → Writev → Bool × List Iovec × Conn
write_vec c vector again = (true, vector, c)
write_vec c vector broken = (false, vector, conn_shutdown c)
write_vec c vector (wrote zero) = (false, vector, conn_shutdown c)
write_vec c vector (wrote (suc n)) =
    (true, (advance vector (suc n)).0, record c { sent = c.sent ++ take (suc n) (joined vector) })
