-- ===== src/Out/Length/Maximum.antt =====
-- The maximum length of a request, of which the server is asked once.
use androix_xcb_libxcb.Base.{ℕ, ◌≡◌, false, arith}
use androix_xcb_libxcb.Conn.{Conn, lazy_forced}
use androix_xcb_libxcb.Out.Length.{BigRequests, get_maximum_request_length}

get_maximum-forced :
    (server : BigRequests) (c : Conn) (v : ℕ)
    → c.has_error ≡ false
    → c.output.maximum_request_length ≡ lazy_forced v
    → get_maximum_request_length server c ≡ (v, c)
unfolding get_maximum_request_length
get_maximum-forced server c v ok e = ground arith

get_maximum-forces :
    (server : BigRequests) (c : Conn)
    → c.has_error ≡ false
    → (get_maximum_request_length server c).1.output.maximum_request_length
      ≡ lazy_forced (get_maximum_request_length server c).0
unfolding get_maximum_request_length
get_maximum-forces server c ok = ground arith

-- The server is asked for the maximum once: when a call without an error has returned, and has left
-- no error, a second call returns the same value and changes nothing.
pub get_maximum_request_length_twice :
    (server : BigRequests) (c : Conn)
    → c.has_error ≡ false
    → (get_maximum_request_length server c).1.has_error ≡ false
    → get_maximum_request_length server (get_maximum_request_length server c).1
      ≡ get_maximum_request_length server c
get_maximum_request_length_twice server c ok ok' =
    get_maximum-forced server (get_maximum_request_length server c).1
      (get_maximum_request_length server c).0 ok' (get_maximum-forces server c ok)
