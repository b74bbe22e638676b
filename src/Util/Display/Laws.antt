-- ===== src/Util/Display/Laws.antt =====
-- Display names are read back from their parts.
use androix_xcb_libxcb.Base.{
  ℕ, ◌%◌, ◌<◌, ◌≡◌, refl, ap, sym, ◌∙◌, Bool, true, false, Option, none, some, List, [], ◌∷◌, ◌++◌,
  ◌==◌, arith, All-append, append-nil, ◌⊎◌, inl, inr,
}
use androix_xcb_libxcb.Sequence.{u32}
use androix_xcb_libxcb.Util.Strings.{
  split_last, strtoul, is_digit, value_from, Digits, Without, Ends, split_last-append,
  split_last-Without, strtoul-value,
}
use androix_xcb_libxcb.Util.Display.{chosen_name, parse_screen, parse_address, parse_display}

-- A number that is written down: its digits, the first apart.
pub record Number : Type 0 where
  pub first : ℕ
  pub more : List ℕ
  pub digits : Digits (first ∷ more)
  pub fits : value_from 0 (first ∷ more) < u32

abbrev pub written : Number → List ℕ
written n = n.first ∷ n.more

abbrev pub value : Number → ℕ
value n = value_from 0 (written n)

-- `.screen`, or nothing for screen 0.
abbrev pub screen_text : Option Number → List ℕ
screen_text none = []
screen_text (some n) = b'.' ∷ written n

abbrev pub screen_value : Option Number → ℕ
screen_value none = 0
screen_value (some n) = value n

-- `host:display.screen`
abbrev pub address : List ℕ → Number → Option Number → List ℕ
address host display screen = host ++ (b':' ∷ (written display ++ screen_text screen))

-- `protocol/host:display.screen`
abbrev pub display_name : Option (List ℕ) → List ℕ → Number → Option Number → List ℕ
display_name none host display screen = address host display screen
display_name (some protocol) host display screen = protocol ++ (b'/' ∷ address host display screen)

digit-ne : (c x : ℕ) → is_digit x ≡ true → (c ≡ b':') ⊎ (c ≡ b'/') → (x == c) ≡ false
digit-ne c x d (inl e) = rw e (ground arith)
digit-ne c x d (inr e) = rw e (ground arith)

Digits-Without : (c : ℕ) (l : List ℕ) → Digits l → (c ≡ b':') ⊎ (c ≡ b'/') → Without c l
Digits-Without c [] d e = tt
Digits-Without c (x ∷ xs) d e = (digit-ne c x d.0 e, Digits-Without c xs d.1 e)

screen_text-Without :
    (c : ℕ) (s : Option Number) → (c ≡ b':') ⊎ (c ≡ b'/') → Without c (screen_text s)
screen_text-Without c none e = tt
screen_text-Without c (some n) (inl e) = (rw e refl, Digits-Without c (written n) n.digits (inl e))
screen_text-Without c (some n) (inr e) = (rw e refl, Digits-Without c (written n) n.digits (inr e))

numbers-Without :
    (c : ℕ) (d : Number) (s : Option Number)
    → (c ≡ b':') ⊎ (c ≡ b'/')
    → Without c (written d ++ screen_text s)
numbers-Without c d s e =
    All-append _ (written d) (screen_text s) (Digits-Without c (written d) d.digits e)
      (screen_text-Without c s e)

address-Without :
    (host : List ℕ) (d : Number) (s : Option Number)
    → Without b'/' host
    → Without b'/' (address host d s)
address-Without host d s h =
    All-append _ host (b':' ∷ (written d ++ screen_text s)) h
      (refl, numbers-Without b'/' d s (inr refl))

screen_text-Ends : (s : Option Number) → Ends (screen_text s)
screen_text-Ends none = tt
screen_text-Ends (some n) = refl

strtoul-written :
    (n : Number) (rest : List ℕ) → Ends rest → strtoul (written n ++ rest) ≡ some (value n, rest)
strtoul-written n rest e = strtoul-value n.first n.more rest n.digits e (omega (arith, n.fits))

value-mod : (n : Number) → value n % u32 ≡ value n
value-mod n = omega (arith, n.fits)

strtoul-alone : (n : Number) → strtoul (written n) ≡ some (value n, [])
strtoul-alone n = ap strtoul (sym (append-nil (written n))) ∙ strtoul-written n [] tt

parse_screen-text : (s : Option Number) → parse_screen (screen_text s) ≡ some (screen_value s)
unfolding parse_screen
parse_screen-text none = refl
parse_screen-text (some n) = rw (strtoul-alone n) (ap some (value-mod n))

-- The parts of an address, as the library functions find them.
parse_address-parts :
    (protocol : Option (List ℕ)) (name host colon dot : List ℕ) (d s : ℕ)
    → split_last b':' name ≡ some (host, colon)
    → strtoul colon ≡ some (d, dot)
    → parse_screen dot ≡ some s
    → parse_address protocol name true
      ≡ some (record { protocol = protocol; host = host; display = d % u32; screen = s })
unfolding parse_address
parse_address-parts protocol name host colon dot d s a b c = ground (arith, a, b, c)

parse_address-lem :
    (protocol : Option (List ℕ)) (host : List ℕ) (d : Number) (s : Option Number)
    → parse_address protocol (address host d s) true
      ≡ some
          (record { protocol = protocol; host = host; display = value d; screen = screen_value s })
parse_address-lem protocol host d s =
    let e =
      split_last-append b':' host (written d ++ screen_text s)
        (numbers-Without b':' d s (inl refl)) in
    parse_address-parts protocol (address host d s) host (written d ++ screen_text s)
      (screen_text s) (value d) (screen_value s) e
      (strtoul-written d (screen_text s) (screen_text-Ends s)) (parse_screen-text s)
    ∙ ap
        (λ v.
          some (record { protocol = protocol; host = host; display = v; screen = screen_value s }))
        (value-mod d)

chosen_name-append :
    (a b : List ℕ) (x : ℕ) (environment : Option (List ℕ))
    → chosen_name (some (a ++ (x ∷ b))) environment ≡ some (a ++ (x ∷ b))
unfolding chosen_name
chosen_name-append [] b x environment = refl
chosen_name-append (y ∷ a) b x environment = refl

-- A display name made of a protocol or none, a host without a slash, a display number and a screen
-- number or none, each number in digits and below 2 ^ 32, is read back as these parts, screen 0
-- standing for none, whatever DISPLAY is.
pub parse_display-display_name :
    (protocol : Option (List ℕ)) (host : List ℕ) (d : Number) (s : Option Number)
    (environment : Option (List ℕ))
    → Without b'/' host
    → parse_display (some (display_name protocol host d s)) environment true true
      ≡ some
          (record { protocol = protocol; host = host; display = value d; screen = screen_value s })
unfolding parse_display
parse_display-display_name none host d s environment h =
    rw
      (
        chosen_name-append host (written d ++ screen_text s) b':' environment,
        parse_display,
        split_last-Without b'/' (address host d s) (address-Without host d s h),
      )
      (parse_address-lem none host d s)
parse_display-display_name (some p) host d s environment h =
    rw
      (
        chosen_name-append p (address host d s) b'/' environment,
        parse_display,
        split_last-append b'/' p (address host d s) (address-Without host d s h),
      )
      (parse_address-lem (some p) host d s)

-- A name with no colon behind its last slash is refused.
pub parse_display-no_colon :
    (protocol : Option (List ℕ)) (x : ℕ) (text : List ℕ) (environment : Option (List ℕ))
    (m m' : Bool)
    → Without b'/' (x ∷ text)
    → Without b':' (x ∷ text)
    → parse_display
        (some (elim protocol [ none ↦ x ∷ text | some p ↦ p ++ (b'/' ∷ x ∷ text) ]))
        environment
        m
        m'
      ≡ none
unfolding parse_display parse_address
parse_display-no_colon none x text environment m m' h c =
    ground (arith, split_last-Without b'/' (x ∷ text) h, split_last-Without b':' (x ∷ text) c)
parse_display-no_colon (some p) x text environment m m' h c = ground (
  arith,
  chosen_name-append p (x ∷ text) b'/' environment,
  split_last-append b'/' p (x ∷ text) h,
  split_last-Without b':' (x ∷ text) c,
)
