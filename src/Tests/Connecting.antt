-- ===== src/Tests/Connecting.antt =====
-- Setting up a connection, authorisation, and sockets.
use androix_xcb_libxcb.Base.{
  ℕ, zero, suc, ◌+◌, ◌*◌, ◌/◌, ◌%◌, ◌≡◌, refl, ap, ◌∙◌, true, false, List, [], ◌∷◌, ◌++◌, Option,
  none, some, arith, replicate, take, drop, get_or, All,
}
use androix_xcb_libxcb.Conn.{Conn}
use androix_xcb_libxcb.Conn.Socket.{got, would_block}
use androix_xcb_libxcb.Connect.{Means, connect_to_fd}
use androix_xcb_libxcb.Connect.Alone.{IsAlone, All-IsWilling}
use androix_xcb_libxcb.Connect.Greeting.{
  SetupRequest, SetupFormat, AuthInfo, len16, setup_request, setup_parts, write_setup,
}
use androix_xcb_libxcb.Connect.Greeting.Laws.{IsRequestLayout, greeting_of, write_setup-greeting_of}
use androix_xcb_libxcb.Connect.Laws.{IsGranted, connect_to_fd_lem}
use androix_xcb_libxcb.In.Block.{stream}
use androix_xcb_libxcb.In.Number.{card16, card32}
use androix_xcb_libxcb.Out.Vector.{joined}
use androix_xcb_libxcb.Tests.Data.{start}
use androix_xcb_libxcb.Tests.Waiting.{two_bytes, two_bytes-IsWilling}
use androix_xcb_libxcb.Wait.{Turn}

abbrev le16 : ℕ → List ℕ
le16 n = n % 256 ∷ n / 256 % 256 ∷ []

-- The structures as the protocol lays them out.
abbrev pub x_format : SetupFormat
x_format = record {
  layout = λ r.
      r.byte_order
      ∷ 0
      ∷ (le16 r.protocol_major_version
          ++ (le16 r.protocol_minor_version
              ++ (le16 r.name_len ++ (le16 r.data_len ++ (0 ∷ 0 ∷ [])))));
  fields = λ b. record {
    maximum_request_length = card16 b 26;
    resource_id_base = card32 b 12;
    resource_id_mask = card32 b 16;
  };
}

abbrev x_unpack : List ℕ → SetupRequest
x_unpack b = record {
  byte_order = get_or b 0 0;
  protocol_major_version = card16 b 2;
  protocol_minor_version = card16 b 4;
  name_len = card16 b 6;
  data_len = card16 b 8;
}

le16-card16 : (l : List ℕ) → len16 l % 256 + 0x100 * (len16 l / 256 % 256) ≡ len16 l
le16-card16 l = omega arith

x_back : (a : Option AuthInfo) → x_unpack (x_format.layout (setup_request a)) ≡ setup_request a
x_back none = refl
x_back (some a) =
    ap (λ (n : ℕ). record (x_unpack (x_format.layout (setup_request (some a)))) { name_len = n })
      (le16-card16 a.name)
    ∙ ap (λ (n : ℕ). record (setup_request (some a)) { data_len = n }) (le16-card16 a.auth_data)

x_format-IsRequestLayout : IsRequestLayout x_format x_unpack
x_format-IsRequestLayout = record { size = λ a. refl; back = x_back }

abbrev cookie : AuthInfo
cookie = record { name = 77 ∷ 73 ∷ 84 ∷ []; auth_data = 1 ∷ 2 ∷ 3 ∷ 4 ∷ 5 ∷ [] }

two_bytes-IsAlone : IsAlone two_bytes
two_bytes-IsAlone = record { willing = two_bytes-IsWilling; idle = λ c. refl }

replicate-IsAlone : (n : ℕ) → All IsAlone (replicate n two_bytes)
replicate-IsAlone zero = tt
replicate-IsAlone (suc n) = (two_bytes-IsAlone, replicate-IsAlone n)

write_setup-greeting_of_example :
    (c' : Conn) × (left : List Turn) × (write_setup x_format 11
        (replicate 24 two_bytes)
        start
        (some cookie)
      ≡ some (true, c', left))
    × (greeting_of x_unpack c'.sent ≡ (setup_request (some cookie), cookie.name, cookie.auth_data))
write_setup-greeting_of_example =
    write_setup-greeting_of x_format x_unpack 11 (replicate 24 two_bytes) start cookie
      x_format-IsRequestLayout (All-IsWilling (replicate 24 two_bytes) (replicate-IsAlone 24)) refl
      refl (omega arith) (omega arith) (omega arith)

-- The answer of a server: success, version 11.0, five more words; then a byte of what follows.
abbrev hello : List ℕ
hello =
    1 ∷ 0 ∷ 11 ∷ 0 ∷ 0 ∷ 0 ∷ 5 ∷ 0 ∷ 0 ∷ 0 ∷ 0 ∷ 0 ∷ 0 ∷ 0 ∷ 0x40 ∷ 0 ∷ 0xff ∷ 0xff ∷ 0x1f ∷ 0 ∷ 0
    ∷ 0 ∷ 0 ∷ 0 ∷ 0 ∷ 0 ∷ 16 ∷ 0 ∷ 9 ∷ []

abbrev greeted : Conn
greeted = record start { socket = got (take 5 hello) ∷ would_block true ∷ got (drop 5 hello) ∷ [] }

abbrev pub granted : Means
granted = record {
  fd_limit = some 1024;
  memory = true;
  get_flags = true;
  set_flags = true;
  set_cloexec = true;
  iolock = true;
  event_cond = true;
  replies_map = true;
  socket_cond = true;
  out_cond = true;
  reqlenlock = true;
  setup_memory = true;
  setup_growth = true;
  ext_lock = true;
  xid_lock = true;
  socket = greeted.socket;
  turns = replicate 24 two_bytes;
}

some_limit : (limit : ℕ) → granted.fd_limit ≡ some limit → 1024 ≡ limit
some_limit limit e = ground (arith, e)

granted-IsGranted : IsGranted granted 3
granted-IsGranted = record {
  below = λ limit e. omega (arith, some_limit limit e);
  memory = refl;
  flags = refl;
  iolock = refl;
  event_cond = refl;
  replies_map = refl;
  socket_cond = refl;
  out_cond = refl;
  reqlenlock = refl;
  setup_memory = refl;
  setup_growth = refl;
  ext_lock = refl;
  xid_lock = refl;
  turns = replicate-IsAlone 24;
}

connect_to_fd_lem_example :
    (c : Conn) × (connect_to_fd x_format 11 3 (some cookie) granted ≡ some (some c, []))
    × (c.has_error ≡ false)
    × (c.sent ≡ joined (setup_parts x_format (some cookie)))
    × (c.setup ≡ x_format.fields (take 28 hello))
    × (stream c ≡ 9 ∷ [])
    × (c.xid.base ≡ c.setup.resource_id_base)
connect_to_fd_lem_example =
    connect_to_fd_lem x_format 11 3 (some cookie) granted refl granted-IsGranted (omega arith)
      (omega arith) (omega arith) refl
