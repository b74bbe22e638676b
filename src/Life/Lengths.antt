-- ===== src/Life/Lengths.antt =====
-- The maximum length of a request, and its header.
use androix_xcb_libxcb.Base.{
  ℕ, ◌+◌, ◌≡◌, inl, inr, get_option, List, Option, none, some, length, arith, Option-cases,
  List-cases,
}
use androix_xcb_libxcb.Conn.{Conn, Flags, Lazy, lazy_cookie, lazy_forced, conn_shutdown}
use androix_xcb_libxcb.Ext.Entry.{Lazy-cases}
use androix_xcb_libxcb.Out.Length.{
  BigRequests, Part, fill_parts, total, set_maximum, prefetch_maximum, force_maximum,
  get_maximum_request_length, length_fields, prepare,
}
use androix_xcb_libxcb.Out.Request.{Extension, ProtocolRequest, fill_header}
use androix_xcb_libxcb.Life.Evolves.{
  Evolves, Evolves-refl, Evolves-trans, Evolves-eq, conn_shutdown-Evolves, set_output-Evolves,
}

-- The generated calls about BIG-REQUESTS keep the connection in order.
pub record IsFairServer (size : ℕ) (server : BigRequests) : Type 0 where
  pub extension : (c : Conn) → Evolves size c (server.extension c).1
  pub enable : (c : Conn) → Evolves size c (server.enable c).1
  pub enable_reply : (c : Conn) (n : ℕ) → Evolves size c (server.enable_reply c n).1

-- So does the question for the opcode of an extension.
pub record IsFairRequest (size : ℕ) (req : ProtocolRequest) : Type 0 where
  pub major_opcode :
      (ext : Extension) (c : Conn) → req.ext ≡ some ext → Evolves size c (ext.major_opcode c).1

set_maximum-Evolves : (size : ℕ) (c : Conn) (l : Lazy ℕ) → Evolves size c (set_maximum c l)
set_maximum-Evolves size c l =
    set_output-Evolves size c (set_maximum c l).output
      (record { queue = λ h. h; request = λ h. h; written = λ h h'. h' })

module _ (size : ℕ) (server : BigRequests) (fair : IsFairServer size server) where
  pub prefetch_maximum-Evolves : (c : Conn) → Evolves size c (prefetch_maximum server c)
  unfolding prefetch_maximum
  prefetch_maximum-Evolves c =
      let x = (server.extension c).1 in
      let a = fair.extension c in
      let cookie = server.enable x in
      let l : Lazy ℕ = lazy_cookie cookie.0 in
      let b = Evolves-trans size c x (set_maximum cookie.1 l) a (
        Evolves-trans size x cookie.1 (set_maximum cookie.1 l) (fair.enable x)
          (set_maximum-Evolves size cookie.1 l)) in
      let d =
        Evolves-trans size c x (set_maximum x (lazy_forced x.setup.maximum_request_length)) a
          (set_maximum-Evolves size x (lazy_forced x.setup.maximum_request_length)) in
      ground (arith, Evolves-refl size c, b, d)

  force_maximum-Evolves : (c : Conn) → Evolves size c (force_maximum server c).1
  unfolding force_maximum
  force_maximum-Evolves c = elim (Lazy-cases c.output.maximum_request_length) [
    | inl none_yet ↦ ground (arith, none_yet, Evolves-refl size c)
    | inr (inl (n, asked)) ↦
        let r = server.enable_reply c n in
        let value : ℕ = get_option r.0 r.1.setup.maximum_request_length in
        let d = set_maximum r.1 (lazy_forced value) in
        let a =
          Evolves-trans size c r.1 d (fair.enable_reply c n)
            (set_maximum-Evolves size r.1 (lazy_forced value)) in
        let q : d ≡ (force_maximum server c).1 = ground (arith, asked) in
        Evolves-eq size c d (force_maximum server c).1 q a
    | inr (inr (n, known)) ↦ ground (arith, known, Evolves-refl size c)
  ]

  pub get_maximum_request_length-Evolves :
      (c : Conn) → Evolves size c (get_maximum_request_length server c).1
  unfolding get_maximum_request_length
  get_maximum_request_length-Evolves c =
      let d = prefetch_maximum server c in
      let a = prefetch_maximum-Evolves c in
      let both = Evolves-trans size c d (force_maximum server d).1 a (force_maximum-Evolves d) in
      ground (arith, Evolves-refl size c, both)

  length_fields-Evolves : (c : Conn) (n : ℕ) → Evolves size c (length_fields server c n).1
  unfolding length_fields
  length_fields-Evolves c n =
      let b = (get_maximum_request_length server c).1 in
      let a = get_maximum_request_length-Evolves c in
      let s = Evolves-trans size c b (conn_shutdown b) a (conn_shutdown-Evolves size b) in
      ground (arith, Evolves-refl size c, a, s)

  prepare-Evolves :
      (c : Conn) (major : Option ℕ) (opcode : ℕ) (parts : List Part)
      → Evolves size c (prepare server c major opcode parts).1
  unfolding prepare
  prepare-Evolves c major opcode parts = elim (List-cases (fill_parts parts)) [
    | inl empty ↦ rw (empty, prepare) (Evolves-refl size c)
    | inr (first, rest, e) ↦
        let f = length_fields-Evolves c (length first + total rest) in ground (arith, e, f)
  ]

  pub fill_header-Evolves :
      (c : Conn) (flags : Flags) (req : ProtocolRequest) (parts : List Part)
      → IsFairRequest size req
      → Evolves size c (fill_header server c flags req parts).1
  unfolding fill_header
  fill_header-Evolves c flags req parts f = elim (Option-cases req.ext) [
    | inl core ↦ ground (arith, core, Evolves-refl size c, prepare-Evolves c none req.opcode parts)
    | inr (ext, e) ↦
        let x = ext.major_opcode c in
        let a = f.major_opcode ext c e in
        let s = Evolves-trans size c x.1 (conn_shutdown x.1) a (conn_shutdown-Evolves size x.1) in
        elim (Option-cases x.0) [
          | inl absent ↦ ground (arith, e, absent, Evolves-refl size c, s)
          | inr (major, found) ↦
              let p = prepare server x.1 (some major) req.opcode parts in
              let b =
                Evolves-trans size c x.1 p.1 a
                  (prepare-Evolves x.1 (some major) req.opcode parts) in
              ground (arith, e, found, Evolves-refl size c, b)
        ]
  ]
