-- ===== src/Connect/Laws.antt =====
-- What becomes of the file descriptor.
use androix_xcb_libxcb.Base.{
  ℕ, ◌≡◌, refl, ap, ◌∙◌, inl, inr, true, false, List, [], ◌∷◌, Option, none, some, ==_refl, ◌==◌,
  arith, Option-cases, ◌<◌, ◌≤◌, ◌||◌, get_or, length, take, drop, length-append, lt→leb,
  List-cases, All,
}
use androix_xcb_libxcb.Map.{map_new}
use androix_xcb_libxcb.In.Block.{stream}
use androix_xcb_libxcb.In.Expect.{in_init, wake_up_next_reader}
use androix_xcb_libxcb.Out.Send.{finish_send}
use androix_xcb_libxcb.Wait.{Turn}
use androix_xcb_libxcb.Xid.{xid_init}
use androix_xcb_libxcb.Connect.Alone.{IsAlone, All-IsWilling, out_send-alone}
use androix_xcb_libxcb.Conn.{Conn}
use androix_xcb_libxcb.Connect.{
  Means, set_fd_flags, blank, out_init, set_up, exchange, established, connect_to_fd, disconnect,
}
use androix_xcb_libxcb.Connect.Calls.{Call, opened, still_open}
use androix_xcb_libxcb.Connect.Greeting.{
  SetupFormat, AuthInfo, setup_request, auth_parts, setup_parts, write_setup, read_setup,
}
use androix_xcb_libxcb.Connect.Greeting.Laws.{answer_size, read_setup_lem, read_setup-sent}
use androix_xcb_libxcb.Conn.Socket.{arriving}
use androix_xcb_libxcb.Out.Vector.{joined}
use androix_xcb_libxcb.Out.Send.Laws.{out_send_total}

-- The file descriptor of a connection.
abbrev pub fd_of : Option Conn → ℕ → List ℕ
fd_of none fd = []
fd_of (some c) fd = fd ∷ []

-- Whatever fails, xcb_connect_to_fd leaves the file descriptor open just if it returns a connection, and
-- has closed it if it returns the error connection.
pub connect_to_fd-still_open :
    (format : SetupFormat) (k fd : ℕ) (auth : Option AuthInfo) (m : Means) (r : Option Conn)
    (calls : List Call)
    → connect_to_fd format k fd auth m ≡ some (r, calls)
    → still_open (opened fd ∷ calls) [] ≡ fd_of r fd
unfolding connect_to_fd disconnect
connect_to_fd-still_open format k fd auth m r calls e = ground (arith, e, ==_refl fd)

-- Everything that xcb_connect_to_fd asks for is granted, in rounds with no other thread.
pub record IsGranted (m : Means) (fd : ℕ) : Type 0 where
  pub below : (limit : ℕ) → m.fd_limit ≡ some limit → fd < limit
  pub memory : m.memory ≡ true
  pub flags : set_fd_flags m ≡ true
  pub iolock : m.iolock ≡ true
  pub event_cond : m.event_cond ≡ true
  pub replies_map : m.replies_map ≡ true
  pub socket_cond : m.socket_cond ≡ true
  pub out_cond : m.out_cond ≡ true
  pub reqlenlock : m.reqlenlock ≡ true
  pub setup_memory : m.setup_memory ≡ true
  pub setup_growth : m.setup_growth ≡ true
  pub ext_lock : m.ext_lock ≡ true
  pub xid_lock : m.xid_lock ≡ true
  pub turns : All IsAlone m.turns

set_up-granted : (m : Means) (fd : ℕ) → IsGranted m fd → set_up m ≡ (true, blank m.socket)
unfolding set_up out_init in_init map_new
set_up-granted m fd g =
    ground (
      arith, g.flags, g.iolock, g.event_cond, g.replies_map, g.socket_cond, g.out_cond,
      g.reqlenlock,
    )

finish_send_kept :
    (c : Conn) → (stream (finish_send c) ≡ stream c) × ((finish_send c).has_error ≡ c.has_error)
unfolding finish_send wake_up_next_reader
finish_send_kept c = elim (List-cases c.input.readers) [
  | inl e ↦ rw (e, finish_send, wake_up_next_reader) (refl, refl)
  | inr (r, rs, e) ↦ rw (e, finish_send, wake_up_next_reader) (refl, refl)
]

connect_to_fd-established :
    (format : SetupFormat) (k fd : ℕ) (auth : Option AuthInfo) (m : Means) (c : Conn)
    → IsGranted m fd
    → established format k m auth ≡ some (true, c)
    → connect_to_fd format k fd auth m ≡ some (some c, [])
unfolding connect_to_fd
connect_to_fd-established format k fd auth m c g e = elim (Option-cases m.fd_limit) [
  | inl none_ ↦ ground (arith, none_, e, g.memory)
  | inr (limit, l) ↦ ground (arith, l, e, g.memory, lt→leb limit fd (g.below limit l))
]

established-exchanged :
    (format : SetupFormat) (k : ℕ) (auth : Option AuthInfo) (m : Means) (fd : ℕ) (c' : Conn)
    (left : List Turn)
    → IsGranted m fd
    → write_setup format k m.turns (blank m.socket) auth ≡ some (true, c', left)
    → let r = read_setup format c' true true in
      r.0 ≡ true → established format k m auth ≡ some (xid_init r.1 true)
unfolding established exchange
established-exchanged format k auth m fd c' left g e ok =
    ground
      (arith, set_up-granted m fd g, e, ok, g.setup_memory, g.setup_growth, g.ext_lock, g.xid_lock)

-- xcb_connect_to_fd when everything it asks for is granted, and the server's whole answer comes
-- with a status other than 0 and 2 and a length other than 0: it returns a connection without an
-- error, which has sent just the greeting, has the fields of just the answer as its setup, reads on
-- behind the answer, and takes the base of its resource ids from the setup. As many rounds as there
-- are bytes in the greeting are enough, for a generated structure of 12 bytes, if in each poll
-- reports that the socket can be written and not that it can be read, the socket takes a byte or
-- more, and no other thread does anything.
pub connect_to_fd_lem :
    (format : SetupFormat) (k fd : ℕ) (auth : Option AuthInfo) (m : Means)
    → length (format.layout (setup_request auth)) ≡ 12
    → IsGranted m fd
    → length (joined (setup_parts format auth)) ≤ length m.turns
    → let s = arriving m.socket in
      8 < answer_size s
      → answer_size s ≤ length s
      → (get_or s 0 0 == 0 || get_or s 0 0 == 2) ≡ false
      → (c : Conn) × (connect_to_fd format k fd auth m ≡ some (some c, []))
        × (c.has_error ≡ false)
        × (c.sent ≡ joined (setup_parts format auth))
        × (c.setup ≡ format.fields (take (answer_size s) s))
        × (stream c ≡ drop (answer_size s) s)
        × (c.xid.base ≡ c.setup.resource_id_base)
unfolding xid_init write_setup
connect_to_fd_lem format k fd auth m l g enough some_words whole accepted =
    let parts = setup_parts format auth in
    let b = blank m.socket in
    let some_bytes : 0 < length (joined parts) =
      omega
        (arith, l, length-append (format.layout (setup_request auth)) (joined (auth_parts auth))) in
    let (c', left, e, sent, _) =
      out_send_total k m.turns b parts (All-IsWilling m.turns g.turns) refl some_bytes enough in
    let q = out_send-alone k m.turns b parts c' left g.turns e in
    let f = finish_send_kept (record b { sent = c'.sent }) in
    let st : stream c' ≡ arriving m.socket = ap stream q ∙ f.0 in
    let he : c'.has_error ≡ false = ap (λ (x : Conn). x.has_error) q ∙ f.1 in
    let r = read_setup_lem format c' (rw st some_words) (rw st whole) in
    let ok : (read_setup format c' true true).0 ≡ true = r.0 ∙ rw (st, accepted) refl in
    let c = (read_setup format c' true true).1 in
    (
      (xid_init c true).1,
      connect_to_fd-established format k fd auth m (xid_init c true).1 g
          (established-exchanged format k auth m fd c' left g e ok),
      r.3 ∙ he,
      read_setup-sent format c' true true ∙ sent,
      rw⁻¹ st (r.1),
      rw⁻¹ st (r.2),
      refl,
    )
