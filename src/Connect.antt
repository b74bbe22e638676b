-- ===== src/Connect.antt =====
-- xcb_conn.c: a connection from its file descriptor to its end; xcb_out.c: _xcb_out_init.
pub mod Calls
pub mod Greeting
pub mod Alone
pub mod Laws
pub mod Display
use androix_xcb_libxcb.Base.{
  ℕ, Bool, true, false, List, [], ◌∷◌, ◌++◌, Option, none, some, leb, if◌then◌else◌, ◌&&◌,
}
use androix_xcb_libxcb.Chain.{new}
use androix_xcb_libxcb.Conn.{Conn, Out, Setup, Packet, lazy_none}
use androix_xcb_libxcb.Conn.Socket.{Recv}
use androix_xcb_libxcb.In.Expect.{in_init, in_destroy}
use androix_xcb_libxcb.Wait.{Turn}
use androix_xcb_libxcb.Xid.{xid_init}
use Calls.{Call, shut, closed}
use Greeting.{SetupFormat, AuthInfo, write_setup, read_setup}

-- _xcb_out_init; the last three arguments say whether the condition variables and the mutex come up.
unfoldable pub out_init : Out → Bool → Bool → Bool → Bool × Out
out_init out socket_cond cond reqlenlock =
    let a = record out { return_socket = none; socket_closure = none; socket_moving = false } in
    let b = record a { writing = 0; queue = []; request = 0; request_written = 0 } in
    let c = record b { maximum_request_length = lazy_none } in
    if socket_cond
    then (if cond then (if reqlenlock then (true, c) else (false, b)) else (false, a))
    else (false, out)

-- xcb_get_setup, xcb_get_file_descriptor and xcb_connection_has_error
unfoldable pub get_setup : Conn → Option Setup
get_setup c = if c.has_error then none else some c.setup

unfoldable pub get_file_descriptor : Conn → ℕ → Option ℕ
get_file_descriptor c fd = if c.has_error then none else some fd

abbrev pub connection_has_error : Conn → Bool
connection_has_error c = c.has_error

-- xcb_disconnect; none is the error connection. The packets that are freed come with the calls.
unfoldable pub disconnect : Option Conn → ℕ → List Packet × List Call
disconnect none fd = ([], [])
disconnect (some c) fd = (in_destroy c.input, shut fd ∷ closed fd ∷ [])

-- What the calls of xcb_connect_to_fd give: `fd_limit` is FD_SETSIZE where select is used; then whether
-- calloc, the three calls of fcntl, the initialisations in their order, and the two allocations for the
-- setup succeed; then what comes over the socket, and the rounds of waiting.
pub record Means : Type 0 where
  pub fd_limit : Option ℕ
  pub memory : Bool
  pub get_flags : Bool
  pub set_flags : Bool
  pub set_cloexec : Bool
  pub iolock : Bool
  pub event_cond : Bool
  pub replies_map : Bool
  pub socket_cond : Bool
  pub out_cond : Bool
  pub reqlenlock : Bool
  pub setup_memory : Bool
  pub setup_growth : Bool
  pub ext_lock : Bool
  pub xid_lock : Bool
  pub socket : List Recv
  pub turns : List Turn

-- set_fd_flags
abbrev pub set_fd_flags : Means → Bool
set_fd_flags m = m.get_flags && (m.set_flags && m.set_cloexec)

-- The zeroed memory of a connection.
abbrev pub blank : List Recv → Conn
blank socket = record {
  has_error = false;
  overran = false;
  setup = record { maximum_request_length = 0; resource_id_base = 0; resource_id_mask = 0 };
  socket = socket;
  sent = [];
  input = record {
    reading = 0;
    queue = [];
    request_expected = 0;
    request_read = 0;
    request_completed = 0;
    current_reply = new;
    replies = new;
    events = new;
    readers = [];
    pending_replies = new;
    wakes = [];
  };
  output = record {
    writing = 0;
    return_socket = none;
    socket_closure = none;
    socket_moving = false;
    queue = [];
    request = 0;
    request_written = 0;
    maximum_request_length = lazy_none;
  };
  xid = record { last = 0; base = 0; max = 0; inc = 0 };
}

-- Lines 277 to 280.
unfoldable pub set_up : Means → Bool × Conn
unfolding out_init
set_up m =
    let c = blank m.socket in
    let out = out_init c.output m.socket_cond m.out_cond m.reqlenlock in
    if set_fd_flags m && m.iolock
    then (elim (in_init m.event_cond m.replies_map) [
      | none ↦ (false, c)
      | some i ↦ (out.0, record c { input = i; output = out.1 })
    ])
    else (false, c)

module _ (format : SetupFormat) where
  -- Lines 281 and 282.
  unfoldable pub exchange : ℕ → Means → Conn → Option AuthInfo → Option (Bool × Conn)
  exchange keymap_notify m c auth = elim (write_setup format keymap_notify m.turns c auth) [
    | none ↦ none
    | some (false, c', _) ↦ some (false, c')
    | some (true, c', _) ↦ some (read_setup format c' m.setup_memory m.setup_growth)
  ]

  -- Lines 276 to 285, the test that decides on the connection.
  unfoldable pub established : ℕ → Means → Option AuthInfo → Option (Bool × Conn)
  unfolding set_up exchange
  established keymap_notify m auth =
      let s = set_up m in
      let exchanged : Option (Bool × Conn) = elim (exchange keymap_notify m s.1 auth) [
        | none ↦ none
        | some (false, c) ↦ some (false, c)
        | some (true, c) ↦ some (if m.ext_lock then xid_init c m.xid_lock else (false, c))
      ] in
      if s.0 then exchanged else some s

  -- xcb_connect_to_fd
  unfoldable pub connect_to_fd : ℕ → ℕ → Option AuthInfo → Means → Option (Option Conn × List Call)
  connect_to_fd keymap_notify fd auth m =
      let refused : Bool = elim m.fd_limit [ none ↦ false | some limit ↦ leb limit fd ] in
      let made : Option (Option Conn × List Call) = elim (established keymap_notify m auth) [
        | none ↦ none
        | some (true, c) ↦ some (some c, [])
        | some (false, c) ↦ some (none, (disconnect (some c) fd).1)
      ] in
      if refused
      then some (none, closed fd ∷ [])
      else (if m.memory then made else some (none, closed fd ∷ []))
