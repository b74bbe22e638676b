-- ===== src/Life/Beginning.antt =====
-- The connection that xcb_connect_to_fd returns.
use androix_xcb_libxcb.Base.{
  ◌++◌, ℕ, ◌*◌, ◌≡◌, sym, inl, inr, Bool, true, List, Option, some, arith, All, Bool-cases,
  Option-cases, if◌then◌else◌, ◌&&◌,
}
use mathlib.Core.Path.{subst}
use androix_xcb_libxcb.Conn.{Conn, Setup}
use androix_xcb_libxcb.Connect.{
  Means, blank, out_init, set_up, exchange, established, connect_to_fd,
}
use androix_xcb_libxcb.Connect.Calls.{Call}
use androix_xcb_libxcb.Connect.Greeting.{
  SetupFormat, AuthInfo, setup_parts, write_setup, read_setup,
}
use androix_xcb_libxcb.In.Block.{in_read_block}
use androix_xcb_libxcb.In.Expect.{in_init}
use androix_xcb_libxcb.In.Number.{card16}
use androix_xcb_libxcb.Map.{map_new}
use androix_xcb_libxcb.Out.Send.{out_send}
use androix_xcb_libxcb.Xid.{xid_init}
use androix_xcb_libxcb.Life.Evolves.{IsBytes, IsBounded, IsSound}
use androix_xcb_libxcb.Life.Others.{set_xid-Evolves}
use androix_xcb_libxcb.Life.Packets.{in_read_block-Evolves}
use androix_xcb_libxcb.Life.Sending.{out_send-Evolves}
use androix_xcb_libxcb.Life.Rounds.{IsFair}

set_up-IsSound : (size : ℕ) (m : Means) → All IsBytes m.socket → IsSound size (set_up m).1
unfolding set_up out_init in_init map_new
set_up-IsSound size m h =
    let s : (set_up m).1.socket ≡ m.socket = ground arith in
    let i : (set_up m).1.input ≡ (blank m.socket).input = ground arith in
    record {
      valid = ground arith;
      bounded = subst IsBounded (sym i) (tt, omega arith, omega arith, omega arith);
      socket = subst (All IsBytes) (sym s) h;
      arrived = ground arith;
      queued = ground arith;
      request = ground arith;
      written = ground arith;
    }

set_setup-IsSound :
    (size : ℕ) (c : Conn) (s : Setup) → IsSound size c → IsSound size (record c { setup = s })
set_setup-IsSound size c s h = record {
  valid = h.valid;
  bounded = h.bounded;
  socket = h.socket;
  arrived = h.arrived;
  queued = h.queued;
  request = h.request;
  written = h.written;
}

read_setup-IsSound :
    (size : ℕ) (format : SetupFormat) (c : Conn) (m m' : Bool)
    → IsSound size c
    → IsSound size (read_setup format c m m').1
unfolding read_setup
read_setup-IsSound size format c m m' h =
    let d = (in_read_block c 8).1 in
    let a = (in_read_block-Evolves size c 8).sound h in
    elim (Option-cases (in_read_block c 8).0) [
      | inl lost ↦ ground (arith, lost, h, a)
      | inr (g, e) ↦
          let r = in_read_block d (card16 g 6 * 4) in
          let b = (in_read_block-Evolves size d (card16 g 6 * 4)).sound a in
          elim (Option-cases r.0) [
            | inl lost ↦ ground (arith, e, lost, h, a, b)
            | inr (body, found) ↦
                ground
                  (arith, e, found, h, a, set_setup-IsSound size r.1 (format.fields (g ++ body)) b)
          ]
    ]

exchange-IsSound :
    (size : ℕ) (format : SetupFormat) (k : ℕ) (m : Means) (c : Conn) (auth : Option AuthInfo)
    (r : Bool) (c' : Conn)
    → All (IsFair size) m.turns
    → IsSound size c
    → exchange format k m c auth ≡ some (r, c')
    → IsSound size c'
unfolding exchange write_setup
exchange-IsSound size format k m c auth r c' f h e =
    elim (Option-cases (out_send k m.turns c (setup_parts format auth))) [
      | inl short ↦ absurd (ground (arith, e, short))
      | inr ((b, d, l), sent) ↦
          let a =
            (out_send-Evolves size k m.turns c (setup_parts format auth) b d l f sent).0.sound h in
          let z = read_setup-IsSound size format d m.setup_memory m.setup_growth a in
          elim (Bool-cases b) [
            | inl fine ↦
                let q : (read_setup format d m.setup_memory m.setup_growth).1 ≡ c' =
                  ground (arith, e, sent, fine) in
                subst (IsSound size) q z
            | inr lost ↦ let q : d ≡ c' = ground (arith, e, sent, lost) in subst (IsSound size) q a
          ]
    ]

xid_init-IsSound : (size : ℕ) (c : Conn) (m : Bool) → IsSound size c → IsSound size (xid_init c m).1
unfolding xid_init
xid_init-IsSound size c m h =
    ground (arith, h, (set_xid-Evolves size c (xid_init c true).1.xid).sound h)

established-IsSound :
    (size : ℕ) (format : SetupFormat) (k : ℕ) (m : Means) (auth : Option AuthInfo) (r : Bool)
    (c : Conn)
    → All IsBytes m.socket
    → All (IsFair size) m.turns
    → established format k m auth ≡ some (r, c)
    → IsSound size c
unfolding established
established-IsSound size format k m auth r c y f e =
    let s = set_up m in
    let h = set_up-IsSound size m y in
    elim (Bool-cases s.0) [
      | inr failed ↦ let q : s.1 ≡ c = ground (arith, e, failed) in subst (IsSound size) q h
      | inl ready ↦ elim (Option-cases (exchange format k m s.1 auth)) [
        | inl short ↦ absurd (ground (arith, e, ready, short))
        | inr ((b, d), answered) ↦
            let a = exchange-IsSound size format k m s.1 auth b d f h answered in
            let x : Conn = if b && m.ext_lock then (xid_init d m.xid_lock).1 else d in
            let z : IsSound size x = ground (arith, a, xid_init-IsSound size d m.xid_lock a) in
            let q : x ≡ c = ground (arith, e, ready, answered) in subst (IsSound size) q z
      ]
    ]

pub connect_to_fd-IsSound :
    (size : ℕ) (format : SetupFormat) (k fd : ℕ) (auth : Option AuthInfo) (m : Means) (c : Conn)
    (calls : List Call)
    → All IsBytes m.socket
    → All (IsFair size) m.turns
    → connect_to_fd format k fd auth m ≡ some (some c, calls)
    → IsSound size c
unfolding connect_to_fd
connect_to_fd-IsSound size format k fd auth m c calls y f e =
    elim (Option-cases (established format k m auth)) [
      | inl short ↦ absurd (ground (arith, e, short))
      | inr ((b, d), made) ↦
          let a = established-IsSound size format k m auth b d y f made in
          let q : d ≡ c = ground (arith, e, made) in subst (IsSound size) q a
    ]
