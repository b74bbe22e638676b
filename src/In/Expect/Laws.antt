-- ===== src/In/Expect/Laws.antt =====
-- The list of pending replies as requests are sent and the socket comes back.
use androix_xcb_libxcb.Base.{
  ℕ, zero, suc, ◌-◌, ◌≡◌, refl, ap, Bool, List, [], ◌∷◌, ◌++◌, some, length, get_elem?, set, arith,
  if◌then◌else◌, length-append, length-set,
}
use androix_xcb_libxcb.Chain.Laws.{append-IsLinked}
use androix_xcb_libxcb.Map.{map_new}
use androix_xcb_libxcb.Conn.{Conn, In, PendingReply, Workaround, no_workaround, Flags}
use androix_xcb_libxcb.In.Number.{is_external}
use androix_xcb_libxcb.In.Number.Laws.{IsValid}
use androix_xcb_libxcb.In.Expect.{in_init, expect_reply, replies_done, finish_external}

-- The input state that _xcb_in_init makes is well-formed.
pub in_init-IsValid :
    (cond_init allocated : Bool) (i : In) → in_init cond_init allocated ≡ some i → IsValid i
unfolding in_init map_new
in_init-IsValid cond_init allocated i e = ground arith

pub expect_reply-IsValid :
    (c : Conn) (request : ℕ) (w : Workaround) (f : Flags) (m : Bool)
    → IsValid c.input
    → IsValid (expect_reply c request w f m).1.input
unfolding expect_reply
expect_reply-IsValid c request w f m v = ground (
  arith,
  append-IsLinked c.input.pending_replies
      (record { first_request = request; last_request = request; workaround = w; flags = f })
      v.pending,
)

set-append :
    (l : List PendingReply) (p q : PendingReply) (n : ℕ)
    → n ≡ length l
    → (get_elem? (l ++ (p ∷ [])) n ≡ some p) × (set (l ++ (p ∷ [])) n q ≡ l ++ (q ∷ []))
set-append [] p q zero h = (refl, refl)
set-append [] p q (suc n) h = absurd (omega arith)
set-append (x ∷ l) p q zero h = absurd (omega arith)
set-append (x ∷ l) p q (suc n) h = let r = set-append l p q n (omega arith) in (r.0, ap (◌∷◌ x) r.1)

-- When the socket comes back, the pending reply at the end of the list, if it stands for the
-- requests of the external owner, ends with the last request sent and becomes an ordinary one; all
-- others, and a last one of another kind, stay as they are.
pub replies_done_lem :
    (c : Conn) (l : List PendingReply) (p : PendingReply)
    → IsValid c.input
    → c.input.pending_replies.nodes ≡ l ++ (p ∷ [])
    → ((replies_done c).input.pending_replies.nodes
        ≡ l
          ++ ((if is_external p
                then record p { last_request = c.output.request; workaround = no_workaround }
                else p)
              ∷ []))
      × IsValid (replies_done c).input
unfolding replies_done finish_external
replies_done_lem c l p v e =
    let t : c.input.pending_replies.tail ≡ suc (length l) =
      omega (arith, v.pending, ap length e, length-append l (p ∷ [])) in
    let s =
      set-append l p (finish_external p c.output.request) (c.input.pending_replies.tail - 1)
        (omega arith) in
    ground (
      arith,
      t,
      s.0,
      s.1,
      e,
      v,
      length-set c.input.pending_replies.nodes (c.input.pending_replies.tail - 1)
          (finish_external p c.output.request),
    )
