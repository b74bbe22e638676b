-- ===== src/Tests/Waiting.antt =====
-- Sending to the end, and threads that wait.
use androix_xcb_libxcb.Base.{
  ◌⊎◌, ◌||◌, ◌==◌, ℕ, zero, suc, ◌≡◌, refl, true, false, List, [], ◌∷◌, none, some, arith,
  replicate, All,
}
use androix_xcb_libxcb.Sequence.{seq_lt, seq_lt32, seq_le32, seq_eq32, widen32}
use androix_xcb_libxcb.Chain.{pop}
use androix_xcb_libxcb.In.Expect.{wake_up_next_reader}
use androix_xcb_libxcb.Chain.Laws.{chain_of}
use androix_xcb_libxcb.Conn.{Conn, Reader, reader, event}
use androix_xcb_libxcb.In.Number.{xcb_reply}
use androix_xcb_libxcb.In.Poll.{get_event, poll_for_reply}
use androix_xcb_libxcb.In.Poll.Laws.{waiting, handed_out}
use androix_xcb_libxcb.In.Read.{find_reader, is_answer, deliver}
use androix_xcb_libxcb.In.Wait.{
  insert_reader, remove_reader, event_loop, wait_loop, wait_as_reader, wait_for_event,
  wait_for_reply,
}
use androix_xcb_libxcb.In.Wait.Laws.{wait_for_event-none, wait_for_reply-ready}
use androix_xcb_libxcb.In.Wait.Readers.{IsSorted, first_waiting, find_reader-first, deliver-wakes}
use androix_xcb_libxcb.Out.Length.{BigRequests}
use androix_xcb_libxcb.Out.Request.{take_socket, ProtocolRequest, Allocated}
use androix_xcb_libxcb.Out.Request.Loan.{take_socket_lem}
use androix_xcb_libxcb.Out.Send.{flush, flush_to}
use androix_xcb_libxcb.Out.Send.Laws.{IsWilling, flush_lem}
use androix_xcb_libxcb.Out.Vector.{wrote}
use androix_xcb_libxcb.Tests.Data.{
  start, quiet, with_input, packet_with, mallocs, checked_flag, pending,
}
use androix_xcb_libxcb.In.Wait.Failure.{wait_for_reply-none}
use androix_xcb_libxcb.Wait.{Turn, conn_wait, polled}

-- The socket takes two bytes, and no other thread does anything.
abbrev pub two_bytes : Turn
two_bytes = record {
  others = λ c. c;
  ready = some (false, true);
  mallocs = λ _. mallocs;
  written = wrote 2;
}

pub two_bytes-IsWilling : IsWilling two_bytes
two_bytes-IsWilling = record {
  polite = record { keeps = λ c. record { output = refl; sent = refl } };
  ready = refl;
  room = 1;
  written = refl;
}

replicate-IsWilling : (n : ℕ) → All IsWilling (replicate n two_bytes)
replicate-IsWilling zero = tt
replicate-IsWilling (suc n) = (two_bytes-IsWilling, replicate-IsWilling n)

-- Three bytes of one request are queued.
abbrev queued : Conn
queued = record start {
  sent = 7 ∷ [];
  output = record start.output { queue = 1 ∷ 2 ∷ 3 ∷ []; request = 1 };
}

flush_lem_example :
    (c' : Conn) × (left : List Turn) × (flush 11 (replicate 3 two_bytes) queued
      ≡ some (true, c', left))
    × (c'.sent ≡ 7 ∷ 1 ∷ 2 ∷ 3 ∷ [])
    × (c'.output ≡ record queued.output { queue = []; request_written = 1 })
unfolding seq_lt
flush_lem_example =
    flush_lem 11 (replicate 3 two_bytes) queued (replicate-IsWilling 3) refl refl refl (omega arith)
      (omega arith)

-- A server without big requests.
abbrev pub small_server : BigRequests
small_server = record {
  extension = λ c. (false, c);
  enable = λ c. (0, c);
  enable_reply = λ c cookie. (none, c);
}

abbrev pub core_request : ProtocolRequest
core_request = record { ext = none; opcode = 43; isvoid = false }

abbrev pub results : Allocated
results = record { pending = true; syncs = λ _. true }

abbrev reader_of : ℕ → ℕ → Reader
reader_of request cond = record { request = request; cond = cond }

-- Readers of the requests 2 ^ 32 - 1, 3 and 5, on both sides of the wrap of 32 bits.
abbrev line_up : List Reader
line_up = reader_of 0xffffffff 7 ∷ reader_of 3 8 ∷ reader_of 5 9 ∷ []

line_up-IsSorted : IsSorted 0xfffffff0 0 line_up
line_up-IsSorted =
    (omega arith, omega arith, (omega arith, omega arith, (omega arith, omega arith, tt)))

find_reader-first_example : find_reader line_up 5 ≡ first_waiting line_up 5
find_reader-first_example = find_reader-first 0xfffffff0 0 5 line_up line_up-IsSorted (omega arith)

-- The reply for the request 5 has been read.
abbrev answered : Conn
answered = with_input (record quiet { request_read = 5; readers = line_up })

deliver-wakes_example :
    (deliver answered (some (pending 5)) xcb_reply (1 ∷ 0 ∷ []) [] true).1.input.wakes
    ≡ reader 9 ∷ []
unfolding is_answer seq_eq32
deliver-wakes_example =
    deliver-wakes answered (some (pending 5)) xcb_reply (1 ∷ 0 ∷ []) [] 0xfffffff0 0
      line_up-IsSorted (omega arith) refl refl

-- poll fails while a thread waits for an event.
abbrev lost : Turn
lost = record { others = λ c. c; ready = none; mallocs = λ _. mallocs; written = wrote 0 }

abbrev shut_down : Conn
shut_down = record start { has_error = true; input = record quiet { wakes = event ∷ [] } }

wait_for_event-none_example : shut_down.has_error ≡ true
unfolding wait_for_event event_loop get_event pop conn_wait polled wake_up_next_reader
wait_for_event-none_example = wait_for_event-none 11 (lost ∷ []) start shut_down [] refl

-- Two replies for the request 4 wait in the map.
abbrev ready : Conn
ready = record start {
  input = record quiet {
    request_expected = 9;
    request_read = 6;
    request_completed = 5;
    replies = chain_of (
        record { key = 4; content = packet_with (1 ∷ 1 ∷ []) ∷ packet_with (1 ∷ 2 ∷ []) ∷ [] }
        ∷ []);
    readers = line_up;
  };
  output = record start.output { request = 9; request_written = 9 };
}

wait_for_reply-ready_example :
    (c' : Conn) × (wait_for_reply 11 [] ready 4 20 true true
      ≡ some (handed_out (packet_with (1 ∷ 1 ∷ [])) true, c', []))
    × (waiting c'.input 4 ≡ packet_with (1 ∷ 2 ∷ []) ∷ [])
    × (c'.input.readers ≡ line_up)
unfolding seq_lt widen32 seq_lt32
wait_for_reply-ready_example =
    wait_for_reply-ready 11 [] ready 4 20 true (packet_with (1 ∷ 1 ∷ []))
      (packet_with (1 ∷ 2 ∷ []) ∷ []) refl refl refl (refl, (refl, (refl, tt)))
      (record {
        valid = record { current = refl; stored = refl; events = refl; pending = refl };
        one = tt;
      })
      (λ e. absurd (omega (arith, e))) refl

take_socket_lem_example :
    (c' : Conn) × (left : List Turn) × (take_socket 11
        (replicate 3 two_bytes)
        queued
        5
        6
        checked_flag
        true
      ≡ some (true, some 1, c', left))
    × (c'.sent ≡ 7 ∷ 1 ∷ 2 ∷ 3 ∷ [])
    × (c'.output ≡ record queued.output {
      return_socket = some 5;
      socket_closure = some 6;
      queue = [];
      request_written = 1;
    })
unfolding seq_lt
take_socket_lem_example =
    take_socket_lem 11 (replicate 3 two_bytes) queued 5 6 checked_flag true (replicate-IsWilling 3)
      refl refl refl refl (omega arith) (omega arith)

abbrev idle : Conn
idle = record start { output = record start.output { request = 9; request_written = 9 } }

abbrev idle_shut_down : Conn
idle_shut_down = record idle { has_error = true; input = record quiet { wakes = event ∷ [] } }

wait_for_reply-none_example :
    (idle_shut_down.has_error ≡ true) ⊎ ((4 == 0 || (seq_lt32 4 0 || seq_eq32 4 0)) ≡ true)
unfolding seq_lt widen32 seq_lt32 seq_le32 seq_eq32 flush_to wait_for_reply wait_as_reader wait_loop
    insert_reader remove_reader poll_for_reply conn_wait polled wake_up_next_reader
wait_for_reply-none_example =
    wait_for_reply-none 11 (lost ∷ []) idle 4 20 true (record { reply = none; error = none })
      idle_shut_down [] refl refl refl
