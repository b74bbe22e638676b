-- ===== src/Life/Evolves.antt =====
-- How a connection changes under the calls of the library.
use androix_xcb_libxcb.Base.{
  ℕ, ◌≤◌, ◌<◌, ◌≡◌, refl, sym, ap, ◌∙◌, All, true, List, [], ◌++◌, length, append-nil, append_assoc,
  arith,
}
use mathlib.Core.Path.{subst}
use androix_xcb_libxcb.Sequence.{u64}
use androix_xcb_libxcb.Conn.{Conn, In, Out, conn_shutdown, set_input}
use androix_xcb_libxcb.Conn.Socket.{Recv, got, would_block, failed}
use androix_xcb_libxcb.In.Number.Laws.{IsValid}
use androix_xcb_libxcb.In.Read.{in_queue_size}

abbrev pub IsOctets : List ℕ → Type 0
IsOctets bytes = All (λ b. b < 256) bytes

-- What recv gives is bytes.
abbrev pub IsBytes : Recv → Type 0
IsBytes (got bytes) = IsOctets bytes
IsBytes (would_block polled) = Unit
IsBytes failed = Unit

-- The input queue holds bytes, and the numbers of the input side fit 64 bits.
abbrev pub IsBounded : In → Type 0
IsBounded i =
    IsOctets i.queue
    × (i.request_read < u64)
    × (i.request_expected < u64)
    × (i.request_completed < u64)

-- The state of the two sides is in order: tail pointers are at the last links, both queues are within
-- their buffers (of which `size` is that of the output), and all sequence numbers fit 64 bits.
pub record IsSound (size : ℕ) (c : Conn) : Type 0 where
  pub valid : IsValid c.input
  pub bounded : IsBounded c.input
  pub socket : All IsBytes c.socket
  pub arrived : length c.input.queue ≤ in_queue_size
  pub queued : length c.output.queue ≤ size
  pub request : c.output.request < u64
  pub written : c.output.request_written < u64

-- `b` goes on where `a` ends.
abbrev pub Extends : List ℕ → List ℕ → Type 0
Extends a b = (more : List ℕ) × (b ≡ a ++ more)

-- Order is kept, an error stays, the setup stays, and nothing that was sent is taken back.
pub record Evolves (size : ℕ) (c c' : Conn) : Type 0 where
  pub sound : IsSound size c → IsSound size c'
  pub shut : c.has_error ≡ true → c'.has_error ≡ true
  pub setup : c'.setup ≡ c.setup
  pub sent : Extends c.sent c'.sent

pub Extends-refl : (a : List ℕ) → Extends a a
Extends-refl a = ([], sym (append-nil a))

pub Evolves-refl : (size : ℕ) (c : Conn) → Evolves size c c
Evolves-refl size c = record {
  sound = λ s. s;
  shut = λ e. e;
  setup = refl;
  sent = Extends-refl c.sent;
}

pub Evolves-trans :
    (size : ℕ) (a b c : Conn) → Evolves size a b → Evolves size b c → Evolves size a c
Evolves-trans size a b c f g = record {
  sound = λ s. g.sound (f.sound s);
  shut = λ e. g.shut (f.shut e);
  setup = g.setup ∙ f.setup;
  sent = (
    f.sent.0 ++ g.sent.0,
    g.sent.1 ∙ (ap (λ l. l ++ g.sent.0) f.sent.1 ∙ append_assoc a.sent f.sent.0 g.sent.0),
  );
}

-- An equal connection.
pub Evolves-eq : (size : ℕ) (a b c : Conn) → b ≡ c → Evolves size a b → Evolves size a c
Evolves-eq size a b c e f = subst (Evolves size a) e f

pub conn_shutdown-Evolves : (size : ℕ) (c : Conn) → Evolves size c (conn_shutdown c)
conn_shutdown-Evolves size c = record {
  sound = λ s. record {
    valid = s.valid;
    bounded = s.bounded;
    socket = s.socket;
    arrived = s.arrived;
    queued = s.queued;
    request = s.request;
    written = s.written;
  };
  shut = λ e. refl;
  setup = refl;
  sent = Extends-refl c.sent;
}

-- A change of the input side alone, which keeps the tail pointers and adds nothing to the queue.
pub record InputKept (i i' : In) : Type 0 where
  pub valid : IsValid i → IsValid i'
  pub bounded : IsBounded i → IsBounded i'
  pub queue : length i'.queue ≤ length i.queue

pub set_input-Evolves :
    (size : ℕ) (c : Conn) (i : In) → InputKept c.input i → Evolves size c (set_input c i)
set_input-Evolves size c i k = record {
  sound = λ s. record {
    valid = k.valid s.valid;
    bounded = k.bounded s.bounded;
    socket = s.socket;
    arrived = omega (arith, s.arrived, k.queue);
    queued = s.queued;
    request = s.request;
    written = s.written;
  };
  shut = λ e. e;
  setup = refl;
  sent = Extends-refl c.sent;
}

-- A change of the output side alone, within its buffer and its counters.
pub record OutputKept (size : ℕ) (o o' : Out) : Type 0 where
  pub queue : length o.queue ≤ size → length o'.queue ≤ size
  pub request : o.request < u64 → o'.request < u64
  pub written : o.request < u64 → o.request_written < u64 → o'.request_written < u64

pub set_output-Evolves :
    (size : ℕ) (c : Conn) (o : Out)
    → OutputKept size c.output o
    → Evolves size c (record c { output = o })
set_output-Evolves size c o k = record {
  sound = λ s. record {
    valid = s.valid;
    bounded = s.bounded;
    socket = s.socket;
    arrived = s.arrived;
    queued = k.queue s.queued;
    request = k.request s.request;
    written = k.written s.request s.written;
  };
  shut = λ e. e;
  setup = refl;
  sent = Extends-refl c.sent;
}

-- A change of the input side, which adds nothing to the queue, and perhaps a shutdown.
pub record ReadKept (c c' : Conn) : Type 0 where
  pub input : InputKept c.input c'.input
  pub output : c'.output ≡ c.output
  pub socket : All IsBytes c.socket → All IsBytes c'.socket
  pub sent : c'.sent ≡ c.sent
  pub setup : c'.setup ≡ c.setup
  pub shut : c.has_error ≡ true → c'.has_error ≡ true

pub ReadKept-Evolves : (size : ℕ) (c c' : Conn) → ReadKept c c' → Evolves size c c'
ReadKept-Evolves size c c' k = record {
  sound = λ s. record {
    valid = k.input.valid s.valid;
    bounded = k.input.bounded s.bounded;
    socket = k.socket s.socket;
    arrived = omega (arith, k.input.queue, s.arrived);
    queued = rw k.output s.queued;
    request = rw k.output s.request;
    written = rw k.output s.written;
  };
  shut = k.shut;
  setup = k.setup;
  sent = ([], k.sent ∙ sym (append-nil c.sent));
}
