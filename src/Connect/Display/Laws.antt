-- ===== src/Connect/Display/Laws.antt =====
-- No file descriptor is lost between a display's name and a connection.
use androix_xcb_libxcb.Base.{
  ℕ, ◌≡◌, ap, ◌∙◌, inl, inr, List, [], ◌∷◌, ◌++◌, Option, none, some, arith, Option-cases,
  if◌then◌else◌,
}
use androix_xcb_libxcb.Auth.{get_auth_info}
use androix_xcb_libxcb.Conn.{Conn}
use androix_xcb_libxcb.Connect.{connect_to_fd}
use androix_xcb_libxcb.Connect.Calls.{Call, still_open, still_open-append}
use androix_xcb_libxcb.Connect.Display.{Surroundings, authorise, connect_to_display}
use androix_xcb_libxcb.Connect.Greeting.{SetupFormat, AuthInfo}
use androix_xcb_libxcb.Connect.Laws.{connect_to_fd-still_open}
use androix_xcb_libxcb.Util.Display.{parse_display}
use androix_xcb_libxcb.Util.Open.{xcb_open}
use androix_xcb_libxcb.Util.Open.Laws.{fds_of, xcb_open-still_open}
use androix_xcb_libxcb.Wait.{is_some}

-- The file descriptor of a connection that is returned.
abbrev pub fd_returned : Option (Conn × ℕ) → List ℕ
fd_returned none = []
fd_returned (some (c, fd)) = fd ∷ []

authorise-still_open :
    (format : SetupFormat) (k : ℕ) (s : Surroundings) (fd display : ℕ) (auth : Option AuthInfo)
    (r : Option (Conn × ℕ)) (calls : List Call)
    → authorise format k s fd display auth ≡ some (r, calls)
    → still_open calls (fd ∷ []) ≡ fd_returned r
unfolding authorise
authorise-still_open format k s fd display auth r calls e =
    let ours = (get_auth_info s.outside s.peer s.own display s.nonce).0 in
    let used : Option AuthInfo = if is_some auth then auth else ours in
    elim (Option-cases (connect_to_fd format k fd used s.means)) [
      | inl short ↦ absurd (ground (arith, e, short))
      | inr ((c, made), f) ↦
          let h = connect_to_fd-still_open format k fd used s.means c made f in
          ground (arith, e, f, h)
    ]

-- Whatever fails, xcb_connect_to_display_with_auth_info leaves open just the file descriptor of the
-- connection that it returns, and none if it returns the error connection.
pub connect_to_display-still_open :
    (format : SetupFormat) (k : ℕ) (s : Surroundings) (displayname : Option (List ℕ))
    (auth : Option AuthInfo) (r : Option (Conn × ℕ)) (calls : List Call)
    → connect_to_display format k s displayname auth ≡ some (r, calls)
    → still_open calls [] ≡ fd_returned r
unfolding connect_to_display
connect_to_display-still_open format k s displayname auth r calls e =
    elim (Option-cases (parse_display displayname s.environment s.protocol_memory s.host_memory)) [
      | inl bad ↦ ground (arith, e, bad)
      | inr (d, p) ↦
          let o = xcb_open s.system s.errno d.host d.protocol d.display s.file_memory in
          let h = xcb_open-still_open s.system s.errno d.host d.protocol d.display s.file_memory in
          elim (Option-cases o.0) [
            | inl shut ↦ ground (arith, e, p, shut, h)
            | inr (fd, f) ↦ elim (Option-cases (authorise format k s fd d.display auth)) [
              | inl short ↦ absurd (ground (arith, e, p, f, short))
              | inr ((c, made), a) ↦
                  let g = authorise-still_open format k s fd d.display auth c made a in
                  let one : still_open o.1 [] ≡ fd ∷ [] = h ∙ ap fds_of f in
                  let both : still_open (o.1 ++ made) [] ≡ fd_returned c =
                    still_open-append o.1 made [] ∙ (ap (still_open made) one ∙ g) in
                  ground (arith, e, p, f, a, both)
            ]
          ]
    ]
