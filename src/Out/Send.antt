-- ===== src/Out/Send.antt =====
-- xcb_out.c: _xcb_out_send, _xcb_out_flush_to, and their callers xcb_writev and xcb_flush. The rounds
-- that a call has to wait come as a list; the result none means that the list is too short. The rounds
-- left come with the result.
pub mod Laws
pub mod Failure
use androix_xcb_libxcb.Base.{
  ℕ, zero, suc, ◌+◌, ◌-◌, ◌%◌, Bool, true, false, Option, none, some, List, [], ◌∷◌, ltb, ◌==◌,
  if◌then◌else◌, not, get_option,
}
use androix_xcb_libxcb.Sequence.{u64, seq_lt}
use androix_xcb_libxcb.Conn.{Conn, In, signal, writers, set_input}
use androix_xcb_libxcb.In.Expect.{wake_up_next_reader}
use androix_xcb_libxcb.Out.Vector.{Iovec, set_queue}
use androix_xcb_libxcb.Wait.{Turn, conn_wait}

-- The loop of _xcb_out_send. The result is its `ret`, the connection and the rounds left.
unfoldable pub send_loop : ℕ → List Turn → Conn → List Iovec → Option (Bool × Conn × List Turn)
send_loop keymap_notify turns c [] = some (true, c, turns)
send_loop keymap_notify [] c (v ∷ vs) = none
send_loop keymap_notify (t ∷ turns) c (v ∷ vs) =
    let r = conn_wait keymap_notify c (some (v ∷ vs)) t in
    let rest = send_loop keymap_notify turns r.2 (get_option r.1 []) in
    if r.0 then rest else some (false, r.2, turns)

-- Lines 339 to 341.
unfoldable pub finish_send : Conn → Conn
finish_send c =
    let i = wake_up_next_reader (signal c.input writers) in
    record c { input = i; output = record c.output { request_written = c.output.request } }

-- _xcb_out_send
unfoldable pub out_send : ℕ → List Turn → Conn → List Iovec → Option (Bool × Conn × List Turn)
out_send keymap_notify turns c vector = elim (send_loop keymap_notify turns c vector) [
  | none ↦ none
  | some (ret, c', left) ↦ some (ret, finish_send c', left)
]

-- `while(c->out.writing) pthread_cond_wait(&c->out.cond, &c->iolock);`
unfoldable pub wait_writing : List Turn → Conn → Option (Conn × List Turn)
wait_writing [] c = if c.output.writing == 0 then some (c, []) else none
wait_writing (t ∷ turns) c =
    let rest = wait_writing turns (t.others c) in
    if c.output.writing == 0 then some (c, t ∷ turns) else rest

-- _xcb_out_flush_to
unfoldable pub flush_to : ℕ → List Turn → Conn → ℕ → Option (Bool × Conn × List Turn)
flush_to keymap_notify turns c request =
    let sent = out_send keymap_notify turns (set_queue c []) (c.output.queue ∷ []) in
    let waited : Option (Bool × Conn × List Turn) = elim (wait_writing turns c) [
      | none ↦ none
      | some (c', left) ↦ some (true, c', left)
    ] in
    if seq_lt c.output.request_written request
    then elim c.output.queue [ [] ↦ waited | _ ∷ _ ↦ sent ]
    else some (true, c, turns)

-- Line 285.
abbrev pub add_requests : Conn → ℕ → Conn
add_requests c requests = record c {
  output = record c.output { request = (c.output.request + requests) % u64 };
}

-- xcb_writev
unfoldable pub writev : ℕ → List Turn → Conn → List Iovec → ℕ → Option (Bool × Conn × List Turn)
writev keymap_notify turns c vector requests =
    let sent = out_send keymap_notify turns (add_requests c requests) vector in
    if c.has_error then some (false, c, turns) else sent

-- xcb_flush
unfoldable pub flush : ℕ → List Turn → Conn → Option (Bool × Conn × List Turn)
flush keymap_notify turns c =
    let flushed = flush_to keymap_notify turns c c.output.request in
    if c.has_error then some (false, c, turns) else flushed
