-- ===== src/Life/Others.antt =====
-- Resource ids and extensions.
use androix_xcb_libxcb.Base.{
  ℕ, refl, ◌+◌, ◌-◌, ◌*◌, ◌%◌, inl, inr, Bool, get_or, arith, Option-cases,
}
use androix_xcb_libxcb.Conn.{Conn, lazy_none, Xid}
use androix_xcb_libxcb.Ext.{
  QueryExtension, Ext, assign_id, get_index, query, get_lazyreply, force, get_extension_data,
  prefetch_extension_data,
}
use androix_xcb_libxcb.Ext.Entry.{Lazy-cases}
use androix_xcb_libxcb.Sequence.{u32}
use androix_xcb_libxcb.Xid.{sub32, XcMisc, set_xid, new_range, generate_id}
use androix_xcb_libxcb.Life.Evolves.{Extends-refl, Evolves, Evolves-refl, Evolves-trans}

-- The generated calls about XC-MISC keep the connection in order.
pub record IsFairMisc (size : ℕ) (server : XcMisc) : Type 0 where
  pub extension : (c : Conn) → Evolves size c (server.extension c).1
  pub get_xid_range : (c : Conn) → Evolves size c (server.get_xid_range c).1

pub set_xid-Evolves : (size : ℕ) (c : Conn) (x : Xid) → Evolves size c (set_xid c x)
set_xid-Evolves size c x = record {
  sound = λ s. record {
    valid = s.valid;
    bounded = s.bounded;
    socket = s.socket;
    arrived = s.arrived;
    queued = s.queued;
    request = s.request;
    written = s.written;
  };
  shut = λ e. e;
  setup = refl;
  sent = Extends-refl c.sent;
}

module _ (size : ℕ) (server : XcMisc) (fair : IsFairMisc size server) where
  new_range-Evolves : (c : Conn) → Evolves size c (new_range server c).1
  unfolding new_range
  new_range-Evolves c =
      let d = (server.extension c).1 in
      let r = server.get_xid_range d in
      let a = fair.extension c in
      let b = Evolves-trans size c d r.1 a (fair.get_xid_range d) in
      elim (Option-cases r.0) [
        | inl unknown ↦ ground (arith, unknown, a, b)
        | inr ((start_id, count), found) ↦
            let x = record r.1.xid {
              last = start_id;
              max = (start_id + sub32 count 1 * r.1.xid.inc) % u32;
            } in
            let z = Evolves-trans size c r.1 (set_xid r.1 x) b (set_xid-Evolves size r.1 x) in
            ground (arith, found, a, b, z)
      ]

  pub generate_id-Evolves : (c : Conn) → Evolves size c (generate_id server c).1
  unfolding generate_id
  generate_id-Evolves c = ground (
    arith,
    Evolves-refl size c,
    new_range-Evolves c,
    set_xid-Evolves size c (record c.xid { max = c.setup.resource_id_mask }),
    set_xid-Evolves size c (record c.xid { last = (c.xid.last + c.xid.inc) % u32 }),
  )

-- The generated calls about extensions keep the connection in order.
pub record IsFairQuery {A : Type 0} (size : ℕ) (server : QueryExtension Conn A) : Type 0 where
  pub query_extension : (c : Conn) (ext : ℕ) → Evolves size c (server.query_extension c ext).1
  pub query_extension_reply :
      (c : Conn) (n : ℕ) → Evolves size c (server.query_extension_reply c n).1

module _ {A : Type 0} (size : ℕ) (server : QueryExtension Conn A)
    (fair : IsFairQuery size server) where
  query-Evolves :
      (x : Ext Conn A) (slot ext : ℕ)
      → Evolves size x.connection (query server x slot ext).connection
  unfolding query
  query-Evolves x slot ext =
      ground (arith, Evolves-refl size x.connection, fair.query_extension x.connection ext)

  get_lazyreply-Evolves :
      (x : Ext Conn A) (ext : ℕ) (m : Bool)
      → Evolves size x.connection (get_lazyreply server x ext m).1.connection
  unfolding get_lazyreply
  get_lazyreply-Evolves x ext m =
      let ids = assign_id x.ids ext in
      elim (Option-cases (get_index x.extensions (ids.global_id ext) m)) [
        | inl lost ↦ ground (arith, lost, Evolves-refl size x.connection)
        | inr (l, found) ↦ ground (
          arith,
          found,
          query-Evolves (record x { ids = ids; extensions = l }) (ids.global_id ext - 1) ext,
        )
      ]

  force-Evolves :
      (x : Ext Conn A) (slot : ℕ) → Evolves size x.connection (force server x slot).1.connection
  unfolding force
  force-Evolves x slot = elim (Lazy-cases (get_or x.extensions slot lazy_none)) [
    | inl none_yet ↦ ground (arith, none_yet, Evolves-refl size x.connection)
    | inr (inl (n, asked)) ↦ ground (arith, asked, fair.query_extension_reply x.connection n)
    | inr (inr (r, known)) ↦ ground (arith, known, Evolves-refl size x.connection)
  ]

  pub get_extension_data-Evolves :
      (x : Ext Conn A) (ext : ℕ) (m : Bool)
      → Evolves size x.connection (get_extension_data server x ext m).1.connection
  unfolding get_extension_data
  get_extension_data-Evolves x ext m =
      let l = get_lazyreply server x ext m in
      let a = get_lazyreply-Evolves x ext m in
      elim (Option-cases l.0) [
        | inl null ↦ ground (arith, null, Evolves-refl size x.connection, a)
        | inr (slot, found) ↦
            let z =
              Evolves-trans size x.connection l.1.connection (force server l.1 slot).1.connection a
                (force-Evolves l.1 slot) in
            ground (arith, found, Evolves-refl size x.connection, z)
      ]

  pub prefetch_extension_data-Evolves :
      (x : Ext Conn A) (ext : ℕ) (m : Bool)
      → Evolves size x.connection (prefetch_extension_data server x ext m).connection
  unfolding prefetch_extension_data
  prefetch_extension_data-Evolves x ext m =
      ground (arith, Evolves-refl size x.connection, get_lazyreply-Evolves x ext m)
