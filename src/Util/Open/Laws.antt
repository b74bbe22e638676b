-- ===== src/Util/Open/Laws.antt =====
-- Where a display's socket is, and that no file descriptor is lost on the way to it.
use androix_xcb_libxcb.Base.{
  ℕ, ◌+◌, ◌%◌, ◌^◌, ◌≤◌, ◌<◌, ◌≡◌, refl, ap, ◌∙◌, inl, inr, Bool, true, List, [], ◌∷◌, ◌++◌, Option,
  none, some, take, drop, take-all, drop-append, length, length-append, ==_refl, arith, Bool-cases,
  Option-cases, lt→ltb,
}
use androix_xcb_libxcb.Connect.Calls.{still_open, still_open-append}
use androix_xcb_libxcb.Util.Strings.{strtoul}
use androix_xcb_libxcb.Util.Decimal.{
  print_int, print_unsigned, print_unsigned-length, strtoul-print_unsigned,
}
use androix_xcb_libxcb.Util.Open.{
  Errno, Opened, given, refused, Address, Attempt, System, xcb_socket, open_address, open_unix,
  open_abstract, try_addresses, open_tcp, unix_base, socket_file, open_local, fd_found, absent,
  xcb_open, unix_path, abstract_path, host_hints, x_tcp_port,
}

-- The file of a display's socket is whole, for a display below 2 ^ 31: it fits the 108 bytes of a
-- path with a zero byte before and behind it, and the number in it, read back by strtoul, is that
-- of the display.
pub socket_file_lem :
    (display : ℕ)
    → display < 2 ^ 31
    → (length (socket_file display) + 2 ≤ 108)
      × (strtoul (drop (length unix_base) (socket_file display)) ≡ some (display, []))
unfolding socket_file print_int
socket_file_lem display h =
    let l = print_unsigned-length display (omega (arith, h)) in
    let i : print_int display ≡ print_unsigned display = rw (lt→ltb _ _ h, print_int) refl in
    let whole : socket_file display ≡ unix_base ++ print_unsigned display =
      ap (λ x. take 29 (unix_base ++ x)) i
      ∙ take-all 29 (unix_base ++ print_unsigned display)
          (omega (arith, l.1, length-append unix_base (print_unsigned display))) in
    (
      omega (arith, l.1, ap length whole, length-append unix_base (print_unsigned display)),
      ap (λ x. strtoul (drop (length unix_base) x)) whole
          ∙ (ap strtoul (drop-append unix_base (print_unsigned display) (length unix_base) refl)
              ∙ strtoul-print_unsigned display (omega (arith, h))),
    )

-- The file descriptor that a search ends with.
abbrev pub fds_of : Option ℕ → List ℕ
fds_of none = []
fds_of (some fd) = fd ∷ []

xcb_socket-still_open :
    (a : Attempt) → still_open (xcb_socket a).1 [] ≡ fds_of (fd_found (xcb_socket a).0)
unfolding xcb_socket
xcb_socket-still_open a = ground arith

open_address-still_open :
    (system : System) (address : Address)
    → still_open (open_address system address).1 []
      ≡ fds_of (fd_found (open_address system address).0)
unfolding open_address xcb_socket
open_address-still_open system address = grind (arith, ==_refl)

try_addresses-still_open :
    (system : System) (l : List Address)
    → still_open (try_addresses system l).1 [] ≡ fds_of (try_addresses system l).0
unfolding try_addresses xcb_socket
try_addresses-still_open system [] = refl
try_addresses-still_open system (x ∷ l) =
    let ih = try_addresses-still_open system l in grind (arith, ==_refl, ih)

open_unix-still_open :
    (system : System) (errno : Errno) (protocol : Option (List ℕ)) (file : List ℕ)
    → let r = open_unix system errno protocol file in still_open r.1 [] ≡ fds_of (fd_found r.0)
unfolding open_unix
open_unix-still_open system errno protocol file =
    ground (arith, open_address-still_open system (unix_path file))

open_abstract-still_open :
    (system : System) (errno : Errno) (protocol : Option (List ℕ)) (file : List ℕ)
    → let r = open_abstract system errno protocol file in still_open r.1 [] ≡ fds_of (fd_found r.0)
unfolding open_abstract
open_abstract-still_open system errno protocol file =
    ground (arith, open_address-still_open system (abstract_path file))

absent_none : (o : Opened) → absent o ≡ true → fds_of (fd_found o) ≡ []
absent_none (given fd) e = absurd (ground (arith, e))
absent_none (refused _) e = refl

open_local-still_open :
    (system : System) (errno : Errno) (protocol : Option (List ℕ)) (display : ℕ) (m : Bool)
    → let r = open_local system errno protocol display m in still_open r.1 [] ≡ fds_of r.0
unfolding open_local
open_local-still_open system errno protocol display m =
    let file = socket_file display in
    let first = open_abstract system errno protocol file in
    let second = open_unix system errno protocol file in
    let a = open_abstract-still_open system errno protocol file in
    let b = open_unix-still_open system errno protocol file in
    let missing : absent first.0 ≡ true → fds_of (fd_found first.0) ≡ [] = absent_none first.0 in
    elim (Bool-cases (absent first.0)) [
      | inl e ↦
          let both : still_open (first.1 ++ second.1) [] ≡ fds_of (fd_found second.0) =
            still_open-append first.1 second.1 []
            ∙ (ap (still_open second.1) (a ∙ missing e) ∙ b) in
          ground (arith, e, both)
      | inr e ↦ ground (arith, e, a)
    ]

open_tcp-still_open :
    (system : System) (host : List ℕ) (protocol : Option (List ℕ)) (port : ℕ)
    → let r = open_tcp system host protocol port in still_open r.1 [] ≡ fds_of r.0
unfolding open_tcp
open_tcp-still_open system host protocol port =
    let h = host_hints host in
    elim (Option-cases (system.resolve h.0 (print_unsigned port) h.1)) [
      | inl none_ ↦ ground (arith, none_)
      | inr (l, e) ↦ ground (arith, e, try_addresses-still_open system l)
    ]

-- Whatever fails on the way, _xcb_open leaves open just the file descriptor that it returns, and none if
-- it returns -1.
pub xcb_open-still_open :
    (system : System) (errno : Errno) (host : List ℕ) (protocol : Option (List ℕ)) (display : ℕ)
    (m : Bool)
    → let r = xcb_open system errno host protocol display m in still_open r.1 [] ≡ fds_of r.0
unfolding xcb_open
xcb_open-still_open system errno host protocol display m = ground (
  arith,
  open_tcp-still_open system host protocol ((x_tcp_port + display) % 2 ^ 16),
  open_local-still_open system errno protocol display m,
)
