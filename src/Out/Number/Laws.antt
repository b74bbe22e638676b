-- ===== src/Out/Number/Laws.antt =====
-- The numbers of requests grow, and an answer comes at least every 2 ^ 16 - 1 requests.
use androix_xcb_libxcb.Base.{
  ℕ, ◌+◌, ◌-◌, ◌*◌, ◌%◌, ◌≤◌, ◌<◌, ◌≡◌, inl, inr, sym, ◌∙◌, Bool, true, false, some, ◌==◌,
  if◌then◌else◌, ◌&&◌, arith, Bool-cases,
}
use androix_xcb_libxcb.Sequence.{u64, u32}
use androix_xcb_libxcb.Conn.{Conn, Workaround, no_workaround, Flags}
use androix_xcb_libxcb.In.Expect.{expect_reply}
use androix_xcb_libxcb.In.Discard.{only_discard}
use androix_xcb_libxcb.Out.Number.{
  next_request, needs_sync, sync, sync_loop, expect, number_request,
}

-- Asking for a reply touches the pending replies and the error flag only.
pub expect_reply_rest :
    (c : Conn) (request : ℕ) (w : Workaround) (f : Flags) (m : Bool)
    → let c' = (expect_reply c request w f m).1 in
      (c'.output ≡ c.output)
      × (c'.input.request_expected ≡ c.input.request_expected)
      × (c'.input.request_read ≡ c.input.request_read)
unfolding expect_reply
expect_reply_rest c request w f m = ground arith

sync_lem :
    (c : Conn) (m : Bool)
    → ((sync c m).output.request ≡ (c.output.request + 1) % u64)
      × ((sync c m).input.request_expected ≡ c.output.request)
unfolding sync
sync_lem c m = ground (arith, expect_reply_rest c c.output.request no_workaround only_discard m)

expect_lem :
    (c : Conn) (isvoid : Bool) (w : Workaround) (f : Flags) (m : Bool)
    → ((expect c isvoid w f m).output.request ≡ c.output.request)
      × ((expect c isvoid w f m).input.request_expected
          ≡ (if isvoid then c.input.request_expected else c.output.request))
unfolding expect
expect_lem c isvoid w f m = ground (arith, expect_reply_rest c c.output.request w f m)

-- After the body the loop goes on only at the wrap of 64 bits.
needs_sync-sync :
    (c : Conn) (isvoid m : Bool)
    → c.output.request < u64
    → needs_sync (sync c m) isvoid ≡ (c.output.request == u64 - 1)
unfolding needs_sync
needs_sync-sync c isvoid m h = ground (arith, sync_lem c m)

-- The loop ends, its body runs at most twice, whatever the state, if the counter has 64 bits.
pub sync_loop_total :
    (c : Conn) (isvoid : Bool) (m : ℕ → Bool)
    → c.output.request < u64
    → (r : Bool × Conn) × (sync_loop 3 c isvoid m ≡ some r)
unfolding sync_loop
sync_loop_total c isvoid m h =
    let d = sync c (m 2) in
    let wrapped = sync_lem c (m 2) in
    elim (Bool-cases (needs_sync c isvoid)) [
      | inr stop ↦ ((false, c), rw stop)
      | inl first ↦ elim (Bool-cases (needs_sync d isvoid)) [
        | inr stop ↦ ((true, d), rw (first, stop))
        | inl second ↦
            let last : needs_sync (sync d (m 1)) isvoid ≡ false = ground (
              arith,
              needs_sync-sync c isvoid (m 2) h,
              needs_sync-sync d isvoid (m 1),
              wrapped.0,
            ) in
            ((true, sync d (m 1)), rw (first, second, last))
      ]
    ]

sync_loop_skip :
    (c : Conn) (isvoid : Bool) (m : ℕ → Bool)
    → needs_sync c isvoid ≡ false
    → sync_loop 3 c isvoid m ≡ some (false, c)
unfolding sync_loop
sync_loop_skip c isvoid m e = rw e

sync_loop_once :
    (c : Conn) (isvoid : Bool) (m : ℕ → Bool)
    → needs_sync c isvoid ≡ true
    → needs_sync (sync c (m 2)) isvoid ≡ false
    → sync_loop 3 c isvoid m ≡ some (true, sync c (m 2))
unfolding sync_loop
sync_loop_once c isvoid m e e' = rw (e, e')

-- Below the wrap of 64 bits the loop is entered just for the 65535th request without a reply.
needs_sync-next :
    (c : Conn) (isvoid : Bool)
    → c.output.request + 2 < u64
    → c.input.request_expected ≤ c.output.request
    → needs_sync (next_request c) isvoid
      ≡ (isvoid && c.output.request + 1 == c.input.request_expected + 0xffff)
unfolding needs_sync
needs_sync-next c isvoid h e = ground arith

-- The counters before and after a request gets its number.
pub record Counted (c : Conn) (isvoid synced : Bool) (c' : Conn) : Type 0 where
  pub request : c'.output.request ≡ c.output.request + (if synced then 2 else 1)
  pub expected : c'.input.request_expected ≡ (
      if isvoid
      then (if synced then c.output.request + 1 else c.input.request_expected)
      else c'.output.request)
  pub due : synced ≡ (isvoid && c.output.request + 1 == c.input.request_expected + 0xffff)

-- Numbering a request always ends. A request takes the next number; if it has no reply and would be
-- the 65535th number after the last one expected, the next number goes to a request for input focus,
-- and the request takes the number after that. The number expected becomes that of the last request
-- with a reply. The number expected is not above the number sent, which stays below the wrap of 64
-- bits.
pub number_request-Counted :
    (c : Conn) (isvoid : Bool) (w : Workaround) (f : Flags) (a : Bool) (m : ℕ → Bool)
    → c.output.request + 2 < u64
    → c.input.request_expected ≤ c.output.request
    → (synced : Bool) × (c' : Conn) × (number_request c isvoid w f a m ≡ some (synced, c'))
      × Counted c isvoid synced c'
unfolding number_request
number_request-Counted c isvoid w f a m h e =
    let d = next_request c in
    let test = needs_sync-next c isvoid h e in
    elim (Bool-cases (isvoid && c.output.request + 1 == c.input.request_expected + 0xffff)) [
      | inl due ↦
          let s = sync_lem d (m 2) in
          let x = expect_lem (sync d (m 2)) isvoid w f a in
          let stop : needs_sync (sync d (m 2)) isvoid ≡ false =
            needs_sync-sync d isvoid (m 2) (omega arith) ∙ ground arith in
          (
            true,
            expect (sync d (m 2)) isvoid w f a,
            rw (sync_loop_once d isvoid m (test ∙ due) stop, number_request),
            record {
              request = ground (arith, x, s);
              expected = ground (arith, x, s);
              due = sym due;
            },
          )
      | inr more ↦
          let x = expect_lem d isvoid w f a in
          (
            false,
            expect d isvoid w f a,
            rw (sync_loop_skip d isvoid m (test ∙ more), number_request),
            record { request = ground (arith, x); expected = ground (arith, x); due = sym more },
          )
    ]

-- The number that xcb_send_request returns is an `unsigned int`. At a wrap of 32 bits it is 0, the
-- value that stands for an error, although the request was numbered and no request for input focus was put before it. The request has
-- a reply, the number expected is not above the number sent, and 64 bits do not wrap.
pub number_request-zero :
    (c : Conn) (w : Workaround) (f : Flags) (a : Bool) (m : ℕ → Bool) (k : ℕ)
    → c.output.request + 1 ≡ k * u32
    → 0 < k
    → c.output.request + 2 < u64
    → c.input.request_expected ≤ c.output.request
    → (c' : Conn) × (number_request c false w f a m ≡ some (false, c'))
      × (c'.output.request % u32 ≡ 0)
number_request-zero c w f a m k at_wrap pos h e =
    let (synced, c', r, n) = number_request-Counted c false w f a m h e in
    let s : synced ≡ false = n.due in (c', ground (arith, r, s), ground (arith, n.request, s))
