-- ===== src/Util/Open.antt =====
-- xcb_util.c: _xcb_socket, _xcb_open_tcp, _xcb_open_unix, _xcb_open_abstract and _xcb_open, as they are
-- compiled with IPv6, abstract sockets and SOCK_CLOEXEC, and without launchd and DECnet.
pub mod Laws
use androix_xcb_libxcb.Base.{
  ℕ, ◌+◌, ◌*◌, ◌%◌, ◌^◌, Bool, true, false, List, [], ◌∷◌, ◌++◌, Option, none, some, ◌==◌, take,
  length, min, if◌then◌else◌, ◌&&◌, ◌||◌, not,
}
use androix_xcb_libxcb.Connect.Calls.{
  Call, opened, cloexec, no_delay, keep_alive, connecting, closed,
}
use androix_xcb_libxcb.Util.Strings.{split_last}
use androix_xcb_libxcb.Util.Decimal.{print_unsigned, print_int}
use androix_xcb_libxcb.Wait.{is_some}

-- The values of errno that the code tells apart.
pub data Errno : Type 0 where
  enoent econnrefused einval other_errno : Errno

-- What socket returns: a file descriptor, or -1 with errno.
pub data Opened : Type 0 where
  given : ℕ → Opened
  refused : Errno → Opened

-- The addresses that connect is called with: a path, a path behind a zero byte, or one from getaddrinfo.
pub data Address : Type 0 where
  unix_path abstract_path : List ℕ → Address
  internet : ℕ → Address

-- What the calls for one address give: socket with SOCK_CLOEXEC and without it, and connect (an errno if
-- it fails, which the close after it leaves alone).
pub record Attempt : Type 0 where
  pub with_cloexec : Opened
  pub plain : Opened
  pub failure : Option Errno

-- The hints for getaddrinfo that depend on the host.
pub record Hints : Type 0 where
  pub numeric_host : Bool
  pub inet6 : Bool

-- The system: what becomes of an address, and what getaddrinfo says of a host and a service (none if it
-- fails).
pub record System : Type 0 where
  pub reach : Address → Attempt
  pub resolve : List ℕ → List ℕ → Hints → Option (List Address)

-- strcmp(a, b) == 0
unfoldable pub same_text : List ℕ → List ℕ → Bool
same_text [] [] = true
same_text [] (y ∷ ys) = false
same_text (x ∷ xs) [] = false
same_text (x ∷ xs) (y ∷ ys) = x == y && same_text xs ys

-- A protocol that is given and is not this text.
abbrev pub other_than : Option (List ℕ) → List ℕ → Bool
other_than none text = false
other_than (some protocol) text = not (same_text text protocol)

-- _xcb_socket
unfoldable pub xcb_socket : Attempt → Opened × List Call
xcb_socket a = elim a.with_cloexec [
  | given fd ↦ (given fd, opened fd ∷ [])
  | refused einval ↦ elim a.plain [
    | given fd ↦ (given fd, opened fd ∷ cloexec fd ∷ [])
    | refused e ↦ (refused e, [])
  ]
  | refused e ↦ (refused e, [])
]

-- The socket and connect of _xcb_open_unix and of _xcb_open_abstract.
unfoldable pub open_address : System → Address → Opened × List Call
unfolding xcb_socket
open_address system address =
    let a = system.reach address in
    let s = xcb_socket a in
    elim s.0 [
      | refused e ↦ (refused e, s.1)
      | given fd ↦ elim a.failure [
        | none ↦ (given fd, s.1 ++ (connecting fd ∷ []))
        | some e ↦ (refused e, s.1 ++ (connecting fd ∷ closed fd ∷ []))
      ]
    ]

abbrev pub unix_text : List ℕ
unix_text = b'u' ∷ b'n' ∷ b'i' ∷ b'x' ∷ []

-- _xcb_open_unix; `errno` is the one before the call.
unfoldable pub open_unix : System → Errno → Option (List ℕ) → List ℕ → Opened × List Call
open_unix system errno protocol file =
    if other_than protocol unix_text
    then (refused errno, [])
    else open_address system (unix_path file)

-- _xcb_open_abstract; the address ends behind the `filelen` bytes of the file.
unfoldable pub open_abstract : System → Errno → Option (List ℕ) → List ℕ → Opened × List Call
open_abstract system errno protocol file =
    if other_than protocol unix_text
    then (refused errno, [])
    else open_address system (abstract_path file)

-- The loop of _xcb_open_tcp over the addresses.
unfoldable pub try_addresses : System → List Address → Option ℕ × List Call
unfolding xcb_socket
try_addresses system [] = (none, [])
try_addresses system (addr ∷ results) =
    let a = system.reach addr in
    let s = xcb_socket a in
    let rest = try_addresses system results in
    elim s.0 [
      | refused _ ↦ (rest.0, s.1 ++ rest.1)
      | given fd ↦ elim a.failure [
        | none ↦ (some fd, s.1 ++ (no_delay fd ∷ keep_alive fd ∷ connecting fd ∷ []))
        | some _ ↦
            (rest.0, s.1 ++ (no_delay fd ∷ keep_alive fd ∷ connecting fd ∷ closed fd ∷ rest.1))
      ]
    ]

abbrev pub tcp_text : List ℕ
tcp_text = b't' ∷ b'c' ∷ b'p' ∷ []

abbrev pub inet_text : List ℕ
inet_text = b'i' ∷ b'n' ∷ b'e' ∷ b't' ∷ []

abbrev pub localhost : List ℕ
localhost = b'l' ∷ b'o' ∷ b'c' ∷ b'a' ∷ b'l' ∷ b'h' ∷ b'o' ∷ b's' ∷ b't' ∷ []

-- Lines 306 and 307, and 319 to 328: the host that is looked up, without the brackets of an address of
-- IPv6, and the hints.
unfoldable pub host_hints : List ℕ → List ℕ × Hints
host_hints [] = (localhost, record { numeric_host = false; inet6 = false })
host_hints (x ∷ xs) =
    let plain : List ℕ × Hints = (x ∷ xs, record { numeric_host = false; inet6 = false }) in
    if x == b'['
    then (elim (split_last b']' (x ∷ xs)) [
      | some (_ ∷ inside, []) ↦ (inside, record { numeric_host = true; inet6 = true })
      | _ ↦ plain
    ])
    else plain

-- _xcb_open_tcp
unfoldable pub open_tcp : System → List ℕ → Option (List ℕ) → ℕ → Option ℕ × List Call
unfolding host_hints
open_tcp system host protocol port =
    let h = host_hints host in
    let tried : Option ℕ × List Call = elim (system.resolve h.0 (print_unsigned port) h.1) [
      | none ↦ (none, [])
      | some results ↦ try_addresses system results
    ] in
    if other_than protocol tcp_text
      && (other_than protocol inet_text && other_than protocol (inet_text ++ (b'6' ∷ [])))
    then (none, [])
    else tried

-- "/tmp/.X11-unix/X"
abbrev pub unix_base : List ℕ
unix_base =
    b'/' ∷ b't' ∷ b'm' ∷ b'p' ∷ b'/' ∷ b'.' ∷ b'X' ∷ b'1' ∷ b'1' ∷ b'-' ∷ b'u' ∷ b'n' ∷ b'i' ∷ b'x'
    ∷ b'/' ∷ b'X' ∷ []

-- Lines 200 and 208 to 221: the file in a buffer of strlen(base) + 1 + 4 * 3 + 1 bytes.
unfoldable pub socket_file : ℕ → List ℕ
socket_file display = take 29 (unix_base ++ print_int display)

abbrev pub fd_found : Opened → Option ℕ
fd_found (given fd) = some fd
fd_found (refused _) = none

-- Lines 223 and 231: an abstract socket that is not there is followed by a path.
abbrev pub absent : Opened → Bool
absent (refused enoent) = true
absent (refused econnrefused) = true
absent (refused einval) = false
absent (refused other_errno) = false
absent (given _) = false

-- Lines 199 to 236; `errno` is the one before, and `allocated` the result of malloc.
unfoldable pub open_local : System → Errno → Option (List ℕ) → ℕ → Bool → Option ℕ × List Call
open_local system errno protocol display allocated =
    let file = socket_file display in
    let first = open_abstract system errno protocol file in
    let second = open_unix system errno protocol file in
    if allocated
    then (if absent first.0
        then (fd_found second.0, first.1 ++ second.1)
        else (fd_found first.0, first.1))
    else (none, [])

abbrev pub x_tcp_port : ℕ
x_tcp_port = 6000

-- Lines 171 to 195: whether the name stands for a TCP connection.
abbrev pub is_tcp : List ℕ → Option (List ℕ) → Bool
is_tcp host protocol =
    is_some protocol || (not (same_text host []) && not (same_text unix_text host))

-- _xcb_open
unfoldable pub xcb_open :
    System → Errno → List ℕ → Option (List ℕ) → ℕ → Bool → Option ℕ × List Call
unfolding open_tcp open_local
xcb_open system errno host protocol display allocated =
    if is_tcp host protocol
    then open_tcp system host protocol ((x_tcp_port + display) % 2 ^ 16)
    else open_local system errno protocol display allocated
