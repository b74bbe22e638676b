-- ===== src/Tests/Arriving.antt =====
-- A reply that comes while a thread waits for it.
use androix_xcb_libxcb.Base.{none, ℕ, ◌≡◌, refl, true, false, List, [], ◌∷◌, ◌++◌, some, arith}
use androix_xcb_libxcb.Chain.Laws.{chain_of}
use androix_xcb_libxcb.Conn.{Conn, Reader, event, set_input}
use androix_xcb_libxcb.Conn.Socket.{got}
use androix_xcb_libxcb.In.Number.{xcb_reply, covers}
use androix_xcb_libxcb.In.Poll.{get_event}
use androix_xcb_libxcb.In.Poll.Laws.{waiting, handed_out}
use androix_xcb_libxcb.Chain.{append, pop}
use androix_xcb_libxcb.In.Wait.Handed.{wait_for_reply-handed}
use androix_xcb_libxcb.In.Read.{packet_length, deliver, is_answer, wake_reader, find_reader}
use androix_xcb_libxcb.In.Read.Deliver.{packet_of}
use androix_xcb_libxcb.In.Wait.{
  wait_for_event, event_loop, insert_reader, remove_reader, wait_for_reply,
}
use androix_xcb_libxcb.In.Wait.Arrival.{wait_for_reply-arrives}
use androix_xcb_libxcb.In.Wait.Wakes.{IsPassedOn, got_event, Done-IsPassedOn}
use androix_xcb_libxcb.In.Wait.Incoming.{IsArriving}
use androix_xcb_libxcb.Sequence.{seq_lt, seq_le, seq_lt32, seq_eq32, seq_le32, widen32}
use androix_xcb_libxcb.Tests.Data.{packet_with, start, quiet, pending, reply_bytes}
use androix_xcb_libxcb.Tests.Waiting.{two_bytes}
use androix_xcb_libxcb.Wait.{Turn, conn_wait, polled}
use androix_xcb_libxcb.In.Expect.{wake_up_next_reader}

-- The request 3 has been sent, and its reply is on its way.
abbrev reply : List ℕ
reply = reply_bytes ++ (9 ∷ 8 ∷ 7 ∷ 6 ∷ [])

abbrev asked : Conn
asked = record start {
  input = record quiet {
    request_read = 2;
    request_completed = 1;
    request_expected = 3;
    pending_replies = chain_of (pending 1 ∷ pending 3 ∷ []);
  };
  output = record start.output { request = 3; request_written = 3 };
  socket = got reply ∷ [];
}

abbrev readable : Turn
readable = record two_bytes { ready = some (true, false) }

asked-IsArriving : IsArriving 11 asked.input 3 reply
unfolding packet_length covers seq_le
asked-IsArriving = record {
  valid = record { current = refl; stored = refl; events = refl; pending = refl };
  empty = refl;
  head = omega arith;
  room = omega arith;
  numbered = λ e. absurd (omega (arith, e));
  sequence = refl;
  from = omega arith;
  to = omega arith;
  low = omega arith;
  expected = omega arith;
  near = omega arith;
  behind = omega arith;
  whole = refl;
  kept = refl;
}

wait_for_reply-arrives_example :
    (c' : Conn) × (wait_for_reply 11 (readable ∷ []) asked 3 20 true true
      ≡ some (handed_out (packet_of 1 3 reply []) true, c', []))
unfolding seq_lt widen32 seq_lt32 seq_eq32
wait_for_reply-arrives_example =
    wait_for_reply-arrives 11 3 asked reply readable [] 3 20 true refl refl refl refl
      (λ e. absurd (omega (arith, e))) refl refl refl refl asked-IsArriving refl
      (record { idle = λ c. refl; ready = refl; mallocs = λ n. refl })

-- Another thread polls. In the round it reads the reply for the request 3, and hands it over.
abbrev handing : Turn
handing = record two_bytes {
  others = λ c.
      (deliver (set_input c (record c.input { request_read = 3 })) (some (pending 3)) xcb_reply
        (1 ∷ 7 ∷ []) [] true).1;
}

-- Two other readers, for the requests 2 and 8.
abbrev sooner : Reader
sooner = record { request = 2; cond = 15 }

abbrev later : Reader
later = record { request = 8; cond = 16 }

abbrev polled_by_other : Conn
polled_by_other = record asked {
  input = record asked.input { reading = 1; readers = sooner ∷ later ∷ [] };
}

wait_for_reply-handed_example :
    (c' : Conn) × (wait_for_reply 11 (handing ∷ []) polled_by_other 3 20 true true
      ≡ some (handed_out (packet_with (1 ∷ 7 ∷ [])) true, c', []))
    × (waiting c'.input 3 ≡ [])
    × (c'.input.readers ≡ sooner ∷ later ∷ [])
unfolding seq_lt widen32 seq_lt32 seq_eq32 seq_le32 deliver is_answer wake_reader find_reader append
    insert_reader remove_reader
wait_for_reply-handed_example =
    wait_for_reply-handed 11 polled_by_other handing [] 3 20 true (packet_with (1 ∷ 7 ∷ [])) []
      (sooner ∷ []) (later ∷ []) (sooner ∷ []) (later ∷ []) refl refl refl (omega arith)
      (λ e. absurd (omega (arith, e))) refl refl refl refl (refl, tt) refl ((refl, refl), tt) refl
      (record {
        valid = record { current = refl; stored = refl; events = refl; pending = refl };
        one = tt;
      })
      refl

-- A thread waits for an event, and poll fails.
abbrev broken_poll : Turn
broken_poll = record two_bytes { ready = none }

abbrev after_failure : Conn
after_failure = record asked { has_error = true; input = record asked.input { wakes = event ∷ [] } }

Done-IsPassedOn_example : IsPassedOn after_failure
unfolding wait_for_event event_loop get_event pop conn_wait polled wake_up_next_reader
Done-IsPassedOn_example =
    Done-IsPassedOn 11 asked after_failure refl (got_event (broken_poll ∷ []) [] none refl)
