-- ===== src/Out/Request/Laws.antt =====
-- xcb_send_request as a whole: what is sent, and what it returns.
use androix_xcb_libxcb.Base.{
  ℕ, ◌+◌, ◌≤◌, ◌≡◌, Bool, List, ◌∷◌, ◌++◌, length, ◌==◌, if◌then◌else◌, ◌&&◌,
}
use androix_xcb_libxcb.Conn.{Conn}
use androix_xcb_libxcb.Out.Vector.{Iovec, joined}
use androix_xcb_libxcb.Out.Length.{add_prefix}
use androix_xcb_libxcb.Out.Request.{ProtocolRequest}

-- What xcb_send_request has done for a request that was given a header.
pub record Transmitted (size : ℕ) (c : Conn) (req : ProtocolRequest) (first : Iovec)
    (rest : List Iovec) (longlen : ℕ) (c' : Conn) : Type 0 where
  pub synced : Bool
  pub due : synced ≡ (req.isvoid && c.output.request + 1 == c.input.request_expected + 0xffff)
  pub request : c'.output.request ≡ c.output.request + (if synced then 2 else 1)
  pub on_the_way :
      c'.sent ++ c'.output.queue
      ≡ (c.sent ++ c.output.queue) ++ joined (add_prefix synced longlen (first ∷ rest))
  pub room : length c'.output.queue ≤ size
