-- ===== src/Connect/Greeting.antt =====
-- write_setup and read_setup: what the two sides say when a connection begins.
pub mod Laws
use androix_xcb_libxcb.Base.{
  ℕ, ◌+◌, ◌*◌, ◌%◌, ◌^◌, Bool, true, false, List, [], ◌∷◌, ◌++◌, Option, none, some, get_or, length,
  take, replicate, ◌==◌, if◌then◌else◌, ◌||◌,
}
use androix_xcb_libxcb.Sequence.{diff32}
use androix_xcb_libxcb.Conn.{Conn, Setup}
use androix_xcb_libxcb.In.Block.{in_read_block}
use androix_xcb_libxcb.In.Number.{card16}
use androix_xcb_libxcb.Out.Vector.{Iovec}
use androix_xcb_libxcb.Out.Send.{out_send}
use androix_xcb_libxcb.Wait.{Turn}

-- The fields of xcb_setup_request_t that are set; its padding is zero.
pub record SetupRequest : Type 0 where
  pub byte_order : ℕ
  pub protocol_major_version : ℕ
  pub protocol_minor_version : ℕ
  pub name_len : ℕ
  pub data_len : ℕ

-- The generated structures: the bytes of an xcb_setup_request_t in memory, and the fields of an
-- xcb_setup_t that the library reads.
pub record SetupFormat : Type 0 where
  pub layout : SetupRequest → List ℕ
  pub fields : List ℕ → Setup

-- xcb_auth_info_t; `namelen` and `datalen` are the lengths of the two.
pub record AuthInfo : Type 0 where
  pub name : List ℕ
  pub auth_data : List ℕ

-- XCB_PAD
abbrev pub xcb_pad : ℕ → ℕ
xcb_pad i = diff32 0 i % 4

-- sizeof(xcb_setup_request_t)
abbrev pub request_size : ℕ
request_size = 12

-- A length in a field of 16 bits.
abbrev pub len16 : List ℕ → ℕ
len16 l = length l % 2 ^ 16

-- Of the two byte orders the one of a little-endian host; X_PROTOCOL is 11, X_PROTOCOL_REVISION is 0.
abbrev pub setup_request : Option AuthInfo → SetupRequest
setup_request auth = record {
  byte_order = 0x6c;
  protocol_major_version = 11;
  protocol_minor_version = 0;
  name_len = elim auth [ none ↦ 0 | some a ↦ len16 a.name ];
  data_len = elim auth [ none ↦ 0 | some a ↦ len16 a.auth_data ];
}

-- The parts from the name on, each cut to the length in its field.
abbrev pub auth_parts : Option AuthInfo → List Iovec
auth_parts none = []
auth_parts (some a) =
    take (len16 a.name) a.name
    ∷ replicate (xcb_pad (len16 a.name)) 0
    ∷ take (len16 a.auth_data) a.auth_data
    ∷ replicate (xcb_pad (len16 a.auth_data)) 0
    ∷ []

module _ (format : SetupFormat) where
  -- The vector of write_setup.
  abbrev pub setup_parts : Option AuthInfo → List Iovec
  setup_parts auth =
      format.layout (setup_request auth) ∷ replicate (xcb_pad request_size) 0 ∷ auth_parts auth

  unfoldable pub write_setup :
      ℕ → List Turn → Conn → Option AuthInfo → Option (Bool × Conn × List Turn)
  write_setup keymap_notify turns c auth = out_send keymap_notify turns c (setup_parts auth)

  -- read_setup, but for the reason that it prints; the two tests are of malloc and realloc. The status is
  -- that of xcb_setup_generic_t.
  unfoldable pub read_setup : Conn → Bool → Bool → Bool × Conn
  read_setup c allocated grown =
      let generic = in_read_block c 8 in
      let head : List ℕ = elim generic.0 [ none ↦ [] | some h ↦ h ] in
      let rest = in_read_block generic.1 (card16 head 6 * 4) in
      let finished : Bool × Conn = elim rest.0 [
        | none ↦ (false, rest.1)
        | some body ↦
            let status : ℕ = get_or head 0 0 in
            (
              if status == 0 || status == 2 then false else true,
              record rest.1 { setup = format.fields (head ++ body) },
            )
      ] in
      if allocated
      then (elim generic.0 [
        | none ↦ (false, generic.1)
        | some _ ↦ if grown then finished else (false, generic.1)
      ])
      else (false, c)
