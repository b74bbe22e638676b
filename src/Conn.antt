-- ===== src/Conn.antt =====
-- xcbint.h: the state of a connection, and the records it is made of; xcb_conn.c: its shutdown.
-- A number is taken below the modulus of its C type. Lists with a tail pointer are chains.
pub mod Socket
use androix_xcb_libxcb.Base.{ℕ, Bool, true, false, List, Option, ◌||◌, ◌∷◌}
use androix_xcb_libxcb.Chain.{Chain}
use androix_xcb_libxcb.Map.{Map}
use Socket.{Recv}

-- enum workarounds
pub data Workaround : Type 0 where
  no_workaround glx_get_fb_configs_bug external_socket_owner : Workaround

-- The bits of enum xcb_send_request_flags_t in an `int flags`.
pub record Flags : Type 0 where
  pub checked : Bool
  pub raw : Bool
  pub discard_reply : Bool

-- flags != 0
abbrev pub nonzero : Flags → Bool
nonzero f = f.checked || (f.raw || f.discard_reply)

-- struct pending_reply
pub record PendingReply : Type 0 where
  pub first_request : ℕ
  pub last_request : ℕ
  pub workaround : Workaround
  pub flags : Flags

-- A packet in the buffer that read_packet allocates: its first bytes, the `full_sequence` that is
-- stored after the first 32 bytes of an event or an error, and the rest of a generic event.
pub record Packet : Type 0 where
  pub bytes : List ℕ
  pub full_sequence : Option ℕ
  pub extra : List ℕ

-- struct reader_list; `cond` names the condition variable that the reader waits on.
pub record Reader : Type 0 where
  pub request : ℕ
  pub cond : ℕ

-- A signal: to a reader's condition or to `event_cond` of _xcb_in, or to all who wait on `cond` or on
-- `socket_cond` of _xcb_out.
pub data Wake : Type 0 where
  reader : ℕ → Wake
  event writers socket_owners : Wake

-- struct _xcb_in; `wakes` lists the signals given so far, the latest first.
pub record In : Type 0 where
  pub reading : ℕ
  pub queue : List ℕ
  pub request_expected : ℕ
  pub request_read : ℕ
  pub request_completed : ℕ
  pub current_reply : Chain Packet
  pub replies : Map (List Packet)
  pub events : Chain Packet
  pub readers : List Reader
  pub pending_replies : Chain PendingReply
  pub wakes : List Wake

-- enum lazy_reply_tag with the union beside it.
pub data Lazy {ℓ} (A : Type ℓ) : Type ℓ where
  lazy_none : Lazy A
  lazy_cookie : ℕ → Lazy A
  lazy_forced : A → Lazy A

-- struct _xcb_out; `return_socket` and `socket_closure` are named by numbers.
pub record Out : Type 0 where
  pub writing : ℕ
  pub return_socket : Option ℕ
  pub socket_closure : Option ℕ
  pub socket_moving : Bool
  pub queue : List ℕ
  pub request : ℕ
  pub request_written : ℕ
  pub maximum_request_length : Lazy ℕ

-- The fields of the server's setup that the library reads.
pub record Setup : Type 0 where
  pub maximum_request_length : ℕ
  pub resource_id_base : ℕ
  pub resource_id_mask : ℕ

-- struct _xcb_xid
pub record Xid : Type 0 where
  pub last : ℕ
  pub base : ℕ
  pub max : ℕ
  pub inc : ℕ

-- struct xcb_connection_t; `socket` is what the calls of recv on `fd` will return, and `sent` the bytes
-- that its calls of writev have taken. `overran` marks a run that has left a buffer: what the process
-- does from there is undefined, and a state with the mark says nothing of it.
pub record Conn : Type 0 where
  pub has_error : Bool
  pub setup : Setup
  pub socket : List Recv
  pub sent : List ℕ
  pub input : In
  pub output : Out
  pub xid : Xid
  pub overran : Bool

-- _xcb_conn_shutdown
abbrev pub conn_shutdown : Conn → Conn
conn_shutdown c = record c { has_error = true }

abbrev pub set_input : Conn → In → Conn
set_input c i = record c { input = i }

-- pthread_cond_signal
abbrev pub signal : In → Wake → In
signal i w = record i { wakes = w ∷ i.wakes }
