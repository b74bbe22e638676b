-- ===== src/Life/Numbering.antt =====
-- Numbering a request, its length, and the socket that comes back.

use androix_xcb_libxcb.Base.{
  ℕ, zero, suc, ◌≡◌, refl, inl, inr, Bool, true, false, some, arith, Bool-cases, Option-cases,
  if◌then◌else◌, ◌||◌,
}
use androix_xcb_libxcb.Conn.{Conn, Flags, nonzero, Workaround, no_workaround}
use androix_xcb_libxcb.In.Discard.{only_discard}
use androix_xcb_libxcb.In.Expect.{expect_reply}
use androix_xcb_libxcb.In.Expect.Laws.{expect_reply-IsValid}
use androix_xcb_libxcb.Out.Number.{
  next_request, set_expected, needs_sync, sync, sync_loop, has_workaround, expect, number_request,
}
use androix_xcb_libxcb.Life.Evolves.{
  Extends-refl, Evolves, Evolves-refl, Evolves-trans, Evolves-eq, conn_shutdown-Evolves, InputKept,
  set_input-Evolves, set_output-Evolves,
}

expect_reply-InputKept :
    (c : Conn) (request : ℕ) (w : Workaround) (f : Flags) (m : Bool)
    → InputKept c.input (expect_reply c request w f m).1.input
unfolding expect_reply
expect_reply-InputKept c request w f m = record {
  valid = expect_reply-IsValid c request w f m;
  bounded = λ b. ground (arith, b);
  queue = ground arith;
}

pub expect_reply-Evolves :
    (size : ℕ) (c : Conn) (request : ℕ) (w : Workaround) (f : Flags) (m : Bool)
    → Evolves size c (expect_reply c request w f m).1
unfolding expect_reply
expect_reply-Evolves size c request w f true =
    set_input-Evolves size c (expect_reply c request w f true).1.input
      (expect_reply-InputKept c request w f true)
expect_reply-Evolves size c request w f false = conn_shutdown-Evolves size c

pub next_request-Evolves : (size : ℕ) (c : Conn) → Evolves size c (next_request c)
next_request-Evolves size c =
    set_output-Evolves size c (next_request c).output
      (record { queue = λ h. h; request = λ h. omega arith; written = λ h h'. h' })

-- The number that is expected becomes that of the last request.
set_expected-Evolves :
    (size : ℕ) (c : Conn) (n : ℕ) → n ≡ c.output.request → Evolves size c (set_expected c n)
set_expected-Evolves size c n e = record {
  sound = λ s. record {
    valid = record {
      current = s.valid.current;
      stored = s.valid.stored;
      events = s.valid.events;
      pending = s.valid.pending;
    };
    bounded = (s.bounded.0, s.bounded.1, omega (arith, e, s.request), s.bounded.3);
    socket = s.socket;
    arrived = s.arrived;
    queued = s.queued;
    request = s.request;
    written = s.written;
  };
  shut = λ e. e;
  setup = refl;
  sent = Extends-refl c.sent;
}

sync-Evolves : (size : ℕ) (c : Conn) (m : Bool) → Evolves size c (sync c m)
unfolding sync expect_reply
sync-Evolves size c m =
    let d = (expect_reply c c.output.request no_workaround only_discard m).1 in
    let e = set_expected d c.output.request in
    let same : c.output.request ≡ d.output.request = ground arith in
    Evolves-trans size c d (next_request e)
      (expect_reply-Evolves size c c.output.request no_workaround only_discard m)
      (Evolves-trans size d e (next_request e) (set_expected-Evolves size d c.output.request same)
        (next_request-Evolves size e))

sync_loop-Evolves :
    (size fuel : ℕ) (c c' : Conn) (isvoid synced : Bool) (m : ℕ → Bool)
    → sync_loop fuel c isvoid m ≡ some (synced, c')
    → Evolves size c c'
unfolding sync_loop
sync_loop-Evolves size zero c c' isvoid synced m e = absurd (ground (arith, e))
sync_loop-Evolves size (suc fuel) c c' isvoid synced m e =
    let d = sync c (m fuel) in
    elim (Bool-cases (needs_sync c isvoid)) [
      | inl due ↦ elim (Option-cases (sync_loop fuel d isvoid m)) [
        | inl short ↦ absurd (ground (arith, e, due, short))
        | inr ((b, x), found) ↦
            let q : x ≡ c' = ground (arith, e, due, found) in
            Evolves-eq size c x c' q (
              Evolves-trans size c d x (sync-Evolves size c (m fuel))
                (sync_loop-Evolves size fuel d x isvoid b m found))
      ]
      | inr not_due ↦
          let q : c ≡ c' = ground (arith, e, not_due) in
          Evolves-eq size c c c' q (Evolves-refl size c)
    ]

expect-Evolves :
    (size : ℕ) (c : Conn) (isvoid : Bool) (w : Workaround) (f : Flags) (m : Bool)
    → Evolves size c (expect c isvoid w f m)
unfolding expect
expect-Evolves size c isvoid w f m =
    let d = (expect_reply c c.output.request w f m).1 in
    let e : Conn = if has_workaround w || nonzero f then d else c in
    let a : Evolves size c e =
      ground (arith, Evolves-refl size c, expect_reply-Evolves size c c.output.request w f m) in
    let b =
      Evolves-trans size c e (set_expected e e.output.request) a
        (set_expected-Evolves size e e.output.request refl) in
    elim (Bool-cases isvoid) [ inl v ↦ rw (v, expect) a | inr n ↦ rw (n, expect) b ]

pub number_request-Evolves :
    (size : ℕ) (c c' : Conn) (isvoid synced : Bool) (w : Workaround) (f : Flags) (m : Bool)
    (ms : ℕ → Bool)
    → number_request c isvoid w f m ms ≡ some (synced, c')
    → Evolves size c c'
unfolding number_request
number_request-Evolves size c c' isvoid synced w f m ms e =
    let n = next_request c in
    elim (Option-cases (sync_loop 3 n isvoid ms)) [
      | inl short ↦ absurd (ground (arith, e, short))
      | inr ((b, x), found) ↦
          let q : expect x isvoid w f m ≡ c' = ground (arith, e, found) in
          Evolves-eq size c (expect x isvoid w f m) c' q (
            Evolves-trans size c n (expect x isvoid w f m) (next_request-Evolves size c) (
              Evolves-trans size n x (expect x isvoid w f m)
                (sync_loop-Evolves size 3 n x isvoid b ms found)
                (expect-Evolves size x isvoid w f m)))
    ]
