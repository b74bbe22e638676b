-- ===== src/Connect/Display.antt =====
-- xcb_util.c: xcb_connect and xcb_connect_to_display_with_auth_info, from a display's name to a
-- connection.
pub mod Laws
use androix_xcb_libxcb.Base.{
  ℕ, Bool, true, false, List, [], ◌∷◌, ◌++◌, Option, none, some, if◌then◌else◌,
}
use androix_xcb_libxcb.Auth.{Outside, get_auth_info}
use androix_xcb_libxcb.Auth.Names.{Lookup}
use androix_xcb_libxcb.Conn.{Conn}
use androix_xcb_libxcb.Connect.{Means, connect_to_fd}
use androix_xcb_libxcb.Connect.Calls.{Call}
use androix_xcb_libxcb.Connect.Greeting.{SetupFormat, AuthInfo}
use androix_xcb_libxcb.Util.Display.{parse_display}
use androix_xcb_libxcb.Util.Open.{System, Errno, xcb_open}
use androix_xcb_libxcb.Wait.{is_some}

-- The surroundings of the call: the value of DISPLAY; whether malloc gives the protocol, the host and
-- the name of the socket; errno before the call; the calls for sockets, for authorisation and for the
-- connection; and the nonce.
pub record Surroundings : Type 0 where
  pub environment : Option (List ℕ)
  pub protocol_memory : Bool
  pub host_memory : Bool
  pub file_memory : Bool
  pub errno : Errno
  pub system : System
  pub outside : Outside
  pub peer : Lookup
  pub own : Lookup
  pub means : Means
  pub nonce : ℕ

module _ (format : SetupFormat) where
  -- Lines 431 to 443, once there is a file descriptor; a connection comes with it.
  unfoldable pub authorise :
      ℕ → Surroundings → ℕ → ℕ → Option AuthInfo → Option (Option (Conn × ℕ) × List Call)
  authorise keymap_notify s fd display auth =
      let ourauth = (get_auth_info s.outside s.peer s.own display s.nonce).0 in
      let used : Option AuthInfo = if is_some auth then auth else ourauth in
      elim (connect_to_fd format keymap_notify fd used s.means) [
        | none ↦ none
        | some (none, calls) ↦ some (none, calls)
        | some (some c, calls) ↦ some (some (c, fd), calls)
      ]

  -- xcb_connect_to_display_with_auth_info, but for the screen that it stores
  unfoldable pub connect_to_display :
      ℕ → Surroundings → Option (List ℕ) → Option AuthInfo → Option (Option (Conn × ℕ) × List Call)
  unfolding authorise
  connect_to_display keymap_notify s displayname auth =
      elim (parse_display displayname s.environment s.protocol_memory s.host_memory) [
        | none ↦ some (none, [])
        | some d ↦
            let r = xcb_open s.system s.errno d.host d.protocol d.display s.file_memory in
            elim r.0 [
              | none ↦ some (none, r.1)
              | some fd ↦ elim (authorise keymap_notify s fd d.display auth) [
                | none ↦ none
                | some (c, calls) ↦ some (c, r.1 ++ calls)
              ]
            ]
      ]

  -- xcb_connect
  abbrev pub connect : ℕ → Surroundings → Option (List ℕ) → Option (Option (Conn × ℕ) × List Call)
  connect keymap_notify s displayname = connect_to_display keymap_notify s displayname none
