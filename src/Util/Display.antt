-- ===== src/Util/Display.antt =====
-- _xcb_parse_display, without launchd.
pub mod Laws
use androix_xcb_libxcb.Base.{
  ℕ, zero, suc, ◌%◌, Bool, true, false, Option, none, some, List, [], ◌∷◌, ◌==◌, if◌then◌else◌,
}
use androix_xcb_libxcb.Sequence.{u32}
use androix_xcb_libxcb.Util.Strings.{split_last, strtoul}

-- What the function stores. `display` and `screen` are the 32 bits of an int.
pub record Display : Type 0 where
  pub protocol : Option (List ℕ)
  pub host : List ℕ
  pub display : ℕ
  pub screen : ℕ

-- Lines 71 to 74: an absent or empty name is that of the environment.
unfoldable pub chosen_name : Option (List ℕ) → Option (List ℕ) → Option (List ℕ)
chosen_name none environment = environment
chosen_name (some []) environment = environment
chosen_name (some (x ∷ xs)) environment = some (x ∷ xs)

-- Lines 105 to 115: the screen number.
unfoldable pub parse_screen : List ℕ → Option ℕ
parse_screen [] = some 0
parse_screen (x ∷ dot) =
    let number = strtoul dot in
    if x == b'.'
    then (elim number [
      | none ↦ none
      | some (screen, []) ↦ some (screen % u32)
      | some (screen, _ ∷ _) ↦ none
    ])
    else none

-- Lines 97 to 127, on the name without its protocol; `allocated` says whether malloc gives the host.
unfoldable pub parse_address : Option (List ℕ) → List ℕ → Bool → Option Display
unfolding parse_screen
parse_address protocol name allocated = elim (split_last b':' name) [
  | none ↦ none
  | some (host, colon) ↦ elim (strtoul colon) [
    | none ↦ none
    | some (display, dot) ↦ elim (parse_screen dot) [
      | none ↦ none
      | some screen ↦
          if allocated
          then some (record {
            protocol = protocol;
            host = host;
            display = display % u32;
            screen = screen;
          })
          else none
    ]
  ]
]

-- _xcb_parse_display with all pointers given; `environment` is the value of DISPLAY, and the last two
-- arguments say whether malloc gives the protocol and the host.
unfoldable pub parse_display : Option (List ℕ) → Option (List ℕ) → Bool → Bool → Option Display
unfolding chosen_name parse_address
parse_display name environment allocated allocated' = elim (chosen_name name environment) [
  | none ↦ none
  | some text ↦ elim (split_last b'/' text) [
    | none ↦ parse_address none text allocated'
    | some (protocol, rest) ↦
        if allocated then parse_address (some protocol) rest allocated' else none
  ]
]

-- xcb_parse_display: the same with no pointer for the protocol.
unfoldable pub xcb_parse_display : Option (List ℕ) → Option (List ℕ) → Bool → Option Display
xcb_parse_display name environment allocated =
    elim (parse_display name environment true allocated) [
      | none ↦ none
      | some d ↦ some (record d { protocol = none })
    ]
