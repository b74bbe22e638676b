-- ===== src/Wait.antt =====
-- _xcb_conn_wait: one round of waiting, for a condition or for the socket.
pub mod Laws
pub mod Failure
use androix_xcb_libxcb.Base.{
  ℕ, zero, suc, ◌+◌, ◌-◌, Bool, true, false, List, Option, none, some, length, min, ltb,
  if◌then◌else◌, ◌&&◌,
}
use androix_xcb_libxcb.Conn.{Conn, conn_shutdown, set_input}
use androix_xcb_libxcb.In.Block.{stream}
use androix_xcb_libxcb.In.Read.{Mallocs, fill_queue, in_read}
use androix_xcb_libxcb.Out.Vector.{Iovec, joined, Writev, wrote, again, broken, write_vec}

-- What a thread meets in one round. `others` is what the other threads do to the connection while the
-- lock is released. `ready` is what poll says (none if it fails or reports what was not asked for):
-- whether the socket can be read, and whether it can be written. The last two are the results of malloc
-- while packets are read, and of writev, where `wrote n` is room for n bytes.
pub record Turn : Type 0 where
  pub others : Conn → Conn
  pub ready : Option (Bool × Bool)
  pub mallocs : ℕ → Mallocs
  pub written : Writev

-- writev takes no more bytes than it is given.
abbrev pub taken : Writev → List Iovec → Writev
taken (wrote n) vector = wrote (min n (length (joined vector)))
taken again vector = again
taken broken vector = broken

-- _xcb_in_read with fuel that is enough, so that the first case does not occur.
unfoldable pub read_input : ℕ → Conn → (ℕ → Mallocs) → Bool × Conn
read_input keymap_notify c m =
    elim (in_read (suc (length (stream (fill_queue c).2))) keymap_notify c m) [
      | none ↦ (false, c)
      | some r ↦ r
    ]

abbrev pub is_some {ℓ} : {A : Type ℓ} → Option A → Bool
is_some none = false
is_some (some _) = true

-- The counters of threads that poll, up by one and down by one.
abbrev pub count_up : Conn → Bool → Conn
count_up c writer = record c {
  input = record c.input { reading = c.input.reading + 1 };
  output = record c.output { writing = c.output.writing + (if writer then 1 else 0) };
}

abbrev pub count_down : Conn → Bool → Conn
count_down c writer = record c {
  input = record c.input { reading = c.input.reading - 1 };
  output = record c.output { writing = c.output.writing - (if writer then 1 else 0) };
}

-- `write_vec(c, vector, count)`, called for a socket that can be written; poll reports that only to a
-- writer.
unfoldable pub write_ready : Conn → Option (List Iovec) → Writev → Bool × Option (List Iovec) × Conn
write_ready c none w = (true, none, c)
write_ready c (some vector) w = let r = write_vec c vector (taken w vector) in (r.0, some r.1, r.2)

-- Lines 378 to 400, once poll has returned.
unfoldable pub polled : ℕ → Conn → Option (List Iovec) → Turn → Bool × Option (List Iovec) × Conn
polled keymap_notify c vector t = elim t.ready [
  | none ↦ (false, vector, conn_shutdown c)
  | some (readable, writable) ↦
      let read : Bool × Conn =
        if readable then read_input keymap_notify c t.mallocs else (true, c) in
      let write = write_ready read.1 vector t.written in
      if read.0 && writable then write else (read.0, vector, read.1)
]

-- _xcb_conn_wait: the result, the vector of a writer (none for a reader, whose `count` is null), and
-- the connection.
unfoldable pub conn_wait : ℕ → Conn → Option (List Iovec) → Turn → Bool × Option (List Iovec) × Conn
conn_wait keymap_notify c vector t =
    let busy : Bool = elim vector [
      | none ↦ ltb 0 c.input.reading
      | some _ ↦ ltb 0 c.output.writing
    ] in
    let r = polled keymap_notify (t.others (count_up c (is_some vector))) vector t in
    if busy then (true, vector, t.others c) else (r.0, r.1, count_down r.2 (is_some vector))
