-- ===== src/Tests/Sockets.antt =====
-- From a display's name to a socket, and the authorisation data for it.
use androix_xcb_libxcb.Base.{
  ℕ, ◌+◌, ◌≡◌, ◌≤◌, refl, true, false, List, [], ◌∷◌, ◌++◌, none, some, arith, length, replicate,
  drop,
}
use androix_xcb_libxcb.Auth.{
  Outside, Xauth, authnames, auth_mc1, auth_xa1, memdup, family_of, peer_bytes, get_authptr,
  compute_auth, get_auth_info, htonl,
}
use androix_xcb_libxcb.Auth.Info.{IsShort, get_auth_info-loses}
use androix_xcb_libxcb.Auth.Laws.{get_peer_sock_name-live_after, compute_auth-xdm}
use androix_xcb_libxcb.Auth.Names.{Lookup, inet, unix_addr, live_after, get_peer_sock_name}
use androix_xcb_libxcb.Connect.{connect_to_fd}
use androix_xcb_libxcb.Connect.Calls.{Call, opened, connecting, closed, still_open}
use androix_xcb_libxcb.Connect.Display.{Surroundings, authorise, connect_to_display}
use androix_xcb_libxcb.Connect.Display.Laws.{connect_to_display-still_open}
use androix_xcb_libxcb.Tests.Connecting.{x_format, granted}
use androix_xcb_libxcb.Util.Display.{chosen_name, parse_display, parse_address, parse_screen}
use androix_xcb_libxcb.Util.Open.{
  System, unix_path, abstract_path, internet, given, econnrefused, enoent, same_text, xcb_socket,
  open_address, open_unix, open_abstract, socket_file, open_local, xcb_open, unix_base,
}
use androix_xcb_libxcb.Util.Open.Laws.{socket_file_lem}
use androix_xcb_libxcb.Util.Strings.{strtoul, convert_signed, convert, scan_digits, split_last}

socket_file_lem_example :
    (length (socket_file 10) + 2 ≤ 108)
    × (strtoul (drop (length unix_base) (socket_file 10)) ≡ some (10, []))
socket_file_lem_example = socket_file_lem 10 (omega arith)

-- A peer at 10.0.0.1, and an entry for it.
abbrev peer : Lookup
peer = record {
  memory = true;
  first = some 16;
  growth = true;
  second = none;
  name = inet (10 ∷ 0 ∷ 0 ∷ 1 ∷ []) (0x17 ∷ 0x70 ∷ []);
}

abbrev own : Lookup
own = record peer { name = inet (10 ∷ 0 ∷ 0 ∷ 2 ∷ []) (0x80 ∷ 1 ∷ []) }

abbrev entry : Xauth
entry = record { name = authnames auth_mc1; auth_data = 5 ∷ 6 ∷ 7 ∷ [] }

abbrev outside : Outside
outside = record {
  hostname = some (b'h' ∷ []);
  best_auth = λ family addr number. some entry;
  pid = 1234;
  now = 86400;
  wrap = λ key plain. plain;
  name_memory = true;
  data_memory = true;
}

-- A name of 200 bytes, whose second lookup fails.
abbrev outgrown : Lookup
outgrown = record peer { first = some 200 }

get_peer_sock_name-live_after_example : live_after (get_peer_sock_name outgrown 0).1 [] ≡ none
get_peer_sock_name-live_after_example = get_peer_sock_name-live_after outgrown 0

abbrev xdm_entry : Xauth
xdm_entry = record { name = authnames auth_xa1; auth_data = replicate 8 7 ++ replicate 8 3 }

abbrev plain : List ℕ
plain =
    replicate 8 7 ++ (0xff ∷ 0xff ∷ 0xff ∷ 0xf0 ∷ 4 ∷ 210 ∷ []) ++ (htonl 86400 ++ replicate 6 0)

compute_auth-xdm_example :
    ((compute_auth outside xdm_entry unix_addr 15).0 ≡ some plain) × (length plain ≡ 24)
unfolding peer_bytes
compute_auth-xdm_example = compute_auth-xdm outside xdm_entry unix_addr 15 refl refl refl tt tt

own-IsShort : IsShort own
own-IsShort = record { memory = refl; actual = 16; first = refl; fits = refl }

peer-IsShort : IsShort peer
peer-IsShort = record { memory = refl; actual = 16; first = refl; fits = refl }

get_auth_info-loses_example : live_after (get_auth_info outside peer own 0 0).1 [] ≡ some (0 ∷ [])
unfolding get_authptr family_of same_text memdup
get_auth_info-loses_example =
    get_auth_info-loses outside peer own 0 0 entry (authnames auth_mc1) peer-IsShort own-IsShort
      refl refl

-- The abstract socket refuses, the one with a path takes the connection.
abbrev system : System
system = record {
  reach = λ address. record {
    with_cloexec = given 3;
    plain = given 3;
    failure = elim address [
      | abstract_path _ ↦ some econnrefused
      | unix_path _ ↦ none
      | internet _ ↦ none
    ];
  };
  resolve = λ host service hints. none;
}

-- There is no memory for the connection.
abbrev around : Surroundings
around = record {
  environment = none;
  protocol_memory = true;
  host_memory = true;
  file_memory = true;
  errno = enoent;
  system = system;
  outside = outside;
  peer = peer;
  own = own;
  means = record granted { memory = false };
  nonce = 0;
}

abbrev calls : List Call
calls = opened 3 ∷ connecting 3 ∷ closed 3 ∷ opened 3 ∷ connecting 3 ∷ closed 3 ∷ []

connect_to_display-still_open_example : still_open calls [] ≡ []
unfolding connect_to_display authorise connect_to_fd parse_display chosen_name parse_address
    parse_screen split_last strtoul convert_signed convert scan_digits xcb_open open_local
    open_abstract open_unix open_address xcb_socket same_text
connect_to_display-still_open_example =
    connect_to_display-still_open x_format 11 around (some (b':' ∷ b'0' ∷ [])) none none calls refl
