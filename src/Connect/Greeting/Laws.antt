-- ===== src/Connect/Greeting/Laws.antt =====
-- The server reads the client's first bytes back; the client takes the server's answer off the stream.
use androix_xcb_libxcb.Base.{
  ℕ, zero, suc, drop-drop, drop-nil, ◌+◌, ◌*◌, ◌^◌, ◌≤◌, ◌<◌, ◌≡◌, refl, sym, ap, ◌∙◌, inl, inr,
  Bool, true, false, List, [], ◌∷◌, ◌++◌, Option, some, get_or, length, take, drop, take-all,
  take-append, drop-append, length-append, length-replicate, length-drop, append_assoc, replicate,
  ◌==◌, ◌||◌, not, ltb, ltb→lt, ltb→le, if◌then◌else◌, arith, All, Bool-cases, Option-cases,
}
use androix_xcb_libxcb.Conn.{Conn}
use androix_xcb_libxcb.In.Block.{
  in_read_block, stream, in_read_block-stream, in_read_block-short, in_read_block-Kept,
}
use androix_xcb_libxcb.In.Number.{card16}
use androix_xcb_libxcb.Out.Send.Laws.{IsWilling, out_send_total}
use androix_xcb_libxcb.Out.Vector.{joined}
use androix_xcb_libxcb.Wait.{Turn}
use androix_xcb_libxcb.Connect.Greeting.{
  SetupRequest, SetupFormat, AuthInfo, xcb_pad, len16, setup_request, setup_parts, auth_parts,
  write_setup, read_setup,
}

-- What a server reads: the request, and the name and the data that follow it, each up to a multiple of 4.
abbrev pub greeting_of : (List ℕ → SetupRequest) → List ℕ → SetupRequest × List ℕ × List ℕ
greeting_of unpack bytes =
    let r = unpack (take 12 bytes) in
    let rest = drop 12 bytes in
    (r, take r.name_len rest, take r.data_len (drop (r.name_len + xcb_pad r.name_len) rest))

-- What the generated structure for the request is: 12 bytes that hold its fields.
pub record IsRequestLayout (format : SetupFormat) (unpack : List ℕ → SetupRequest) : Type 0 where
  pub size : (a : Option AuthInfo) → length (format.layout (setup_request a)) ≡ 12
  pub back : (a : Option AuthInfo) → unpack (format.layout (setup_request a)) ≡ setup_request a

-- The bytes of a padded text, and those behind it.
padded-take :
    (l rest : List ℕ)
    → length l < 2 ^ 16
    → (take (len16 l) (take (len16 l) l ++ (replicate (xcb_pad (len16 l)) 0 ++ rest)) ≡ l)
      × (drop
            (len16 l + xcb_pad (len16 l))
            (take (len16 l) l ++ (replicate (xcb_pad (len16 l)) 0 ++ rest))
          ≡ rest)
padded-take l rest h =
    let n : len16 l ≡ length l = omega (arith, h) in
    let whole : take (len16 l) l ≡ l = take-all (len16 l) l (omega (arith, n)) in
    let pads = replicate (xcb_pad (len16 l)) 0 in
    let long : len16 l + xcb_pad (len16 l) ≡ length (l ++ pads) =
      omega (arith, n, length-append l pads, length-replicate {A = ℕ} (xcb_pad (len16 l)) 0) in
    (
      ap (λ x. take (len16 l) (x ++ (pads ++ rest))) whole
          ∙ take-append l (pads ++ rest) (len16 l) n,
      ap (λ x. drop (len16 l + xcb_pad (len16 l)) (x ++ (pads ++ rest))) whole
          ∙ (ap (drop (len16 l + xcb_pad (len16 l))) (sym (append_assoc l pads rest))
              ∙ drop-append (l ++ pads) rest (len16 l + xcb_pad (len16 l)) long),
    )

greeting_of-joined :
    (format : SetupFormat) (unpack : List ℕ → SetupRequest) (a : AuthInfo)
    → IsRequestLayout format unpack
    → length a.name < 2 ^ 16
    → length a.auth_data < 2 ^ 16
    → greeting_of unpack (joined (setup_parts format (some a)))
      ≡ (setup_request (some a), a.name, a.auth_data)
greeting_of-joined format unpack a l short short' =
    let first = format.layout (setup_request (some a)) in
    let pad' = replicate (xcb_pad (len16 a.auth_data)) 0 in
    let behind : List ℕ = take (len16 a.auth_data) a.auth_data ++ (pad' ++ []) in
    let rest : List ℕ =
      take (len16 a.name) a.name ++ (replicate (xcb_pad (len16 a.name)) 0 ++ behind) in
    let r : unpack (take 12 (first ++ rest)) ≡ setup_request (some a) =
      ap unpack (take-append first rest 12 (sym (l.size (some a)))) ∙ l.back (some a) in
    let d : drop 12 (first ++ rest) ≡ rest = drop-append first rest 12 (sym (l.size (some a))) in
    let n = padded-take a.name behind short in
    let m = padded-take a.auth_data [] short' in rw (r, d, n.0, n.1, m.0) refl

-- write_setup with authorisation data: with enough rounds it succeeds, and a server that reads what
-- was sent finds the byte order, the version and the two lengths, and the name and the data as they
-- were given. Both are shorter than 2 ^ 16 bytes, nothing was sent before and no thread is writing.
-- As many rounds as there are bytes are enough, if in each poll reports that the socket can be
-- written and not that it can be read, so that nothing comes in, the socket takes a byte or more,
-- and other threads leave the output side alone and what is sent. The generated structure has 12
-- bytes, from which a server gets its fields back.
pub write_setup-greeting_of :
    (format : SetupFormat) (unpack : List ℕ → SetupRequest) (k : ℕ) (turns : List Turn) (c : Conn)
    (a : AuthInfo)
    → IsRequestLayout format unpack
    → All IsWilling turns
    → c.output.writing ≡ 0
    → c.sent ≡ []
    → length a.name < 2 ^ 16
    → length a.auth_data < 2 ^ 16
    → length (joined (setup_parts format (some a))) ≤ length turns
    → (c' : Conn) × (left : List Turn) × (write_setup format k turns c (some a)
        ≡ some (true, c', left))
      × (greeting_of unpack c'.sent ≡ (setup_request (some a), a.name, a.auth_data))
unfolding write_setup
write_setup-greeting_of format unpack k turns c a l w idle fresh short short' enough =
    let parts = setup_parts format (some a) in
    let first = format.layout (setup_request (some a)) in
    let some_bytes : 0 < length (joined parts) =
      omega (arith, l.size (some a), length-append first (joined (auth_parts (some a)))) in
    let (c', left, e, sent, _) = out_send_total k turns c parts w idle some_bytes enough in
    (
      c',
      left,
      e,
      ap (greeting_of unpack) (sent ∙ ap (λ x. x ++ joined parts) fresh)
          ∙ greeting_of-joined format unpack a l short short',
    )

read_setup-found :
    (format : SetupFormat) (c : Conn) (head body : List ℕ)
    → (in_read_block c 8).0 ≡ some head
    → (in_read_block (in_read_block c 8).1 (card16 head 6 * 4)).0 ≡ some body
    → read_setup format c true true ≡ (
      if get_or head 0 0 == 0 || get_or head 0 0 == 2 then false else true,
      record (in_read_block (in_read_block c 8).1 (card16 head 6 * 4)).1 {
        setup = format.fields (head ++ body);
      },
    )
unfolding read_setup
read_setup-found format c head body e e' = ground (arith, e, e')

-- The size of the server's answer: 8 bytes, and as many words of 4 as its length says.
abbrev pub answer_size : List ℕ → ℕ
answer_size s = 8 + card16 (take 8 s) 6 * 4

take_nil : (n : ℕ) → take {A = ℕ} n [] ≡ []
take_nil zero = refl
take_nil (suc n) = refl

take-take : (m n : ℕ) (s : List ℕ) → take (m + n) s ≡ take m s ++ take n (drop m s)
take-take zero n s = ap (λ k. take k s) (omega arith)
take-take (suc m) n [] =
    take_nil (suc m + n) ∙ (sym (take_nil n) ∙ ap (take n) (sym (drop-nil (suc m))))
take-take (suc m) n (x ∷ s) =
    ap (λ k. take k (x ∷ s)) {x = suc m + n} {y = suc (m + n)} (omega arith)
    ∙ ap (◌∷◌ x) (take-take m n s)

first_byte : (s : List ℕ) → get_or (take 8 s) 0 0 ≡ get_or s 0 0
first_byte [] = refl
first_byte (x ∷ s) = refl

not_if : (b : Bool) → (if b then false else true) ≡ not b
not_if true = refl
not_if false = refl

-- read_setup when malloc succeeds and the server's whole answer comes, with a length other than 0: the
-- result says whether the status is neither 0 (failed) nor 2 (authenticate), the setup has the fields of
-- just that answer, the stream is left behind it, and no error is noted.
pub read_setup_lem :
    (format : SetupFormat) (c : Conn)
    → let s = stream c in
      8 < answer_size s
      → answer_size s ≤ length s
      → let r = read_setup format c true true in
        (r.0 ≡ not (get_or s 0 0 == 0 || get_or s 0 0 == 2))
        × (r.1.setup ≡ format.fields (take (answer_size s) s))
        × (stream r.1 ≡ drop (answer_size s) s)
        × (r.1.has_error ≡ c.has_error)
read_setup_lem format c some_words whole =
    let s = stream c in
    let n : ℕ = card16 (take 8 s) 6 * 4 in
    let a = in_read_block-stream c 8 (omega arith) (omega (arith, whole)) in
    let c' = (in_read_block c 8).1 in
    let b =
      in_read_block-stream c' n (omega (arith, some_words))
        (omega (arith, whole, ap length a.1, length-drop 8 s)) in
    let f = read_setup-found format c (take 8 s) (take n (stream c')) a.0 b.0 in
    let two : take 8 s ++ take n (stream c') ≡ take (answer_size s) s =
      ap (λ x. take 8 s ++ take n x) a.1 ∙ sym (take-take 8 n s) in
    (
      ap (λ (x : Bool × Conn). x.0) f
          ∙ (not_if (get_or (take 8 s) 0 0 == 0 || get_or (take 8 s) 0 0 == 2)
              ∙ ap (λ b. not (b == 0 || b == 2)) (first_byte s)),
      ap (λ (x : Bool × Conn). x.1.setup) f ∙ ap format.fields two,
      ap (λ (x : Bool × Conn). stream x.1) f ∙ (b.1 ∙ (ap (drop n) a.1 ∙ drop-drop 8 n s)),
      ap (λ (x : Bool × Conn). x.1.has_error) f ∙ (b.2 ∙ a.2),
    )

-- read_setup fails and shuts the connection down when less comes than the answer's own size.
pub read_setup-short :
    (format : SetupFormat) (c : Conn)
    → length (stream c) < answer_size (stream c)
    → let r = read_setup format c true true in (r.0 ≡ false) × (r.1.has_error ≡ true)
unfolding read_setup
read_setup-short format c short = elim (Bool-cases (ltb (length (stream c)) 8)) [
  | inl few ↦ let f = in_read_block-short c 8 (ltb→lt _ _ few) in ground (arith, f)
  | inr head ↦
      let s = stream c in
      let a = in_read_block-stream c 8 (omega arith) (ltb→le _ _ head) in
      let f =
        in_read_block-short (in_read_block c 8).1 (card16 (take 8 s) 6 * 4)
          (omega (arith, short, ltb→le _ _ head, ap length a.1, length-drop 8 s)) in
      ground (arith, a, f)
]

pub read_setup-sent :
    (format : SetupFormat) (c : Conn) (m m' : Bool) → (read_setup format c m m').1.sent ≡ c.sent
unfolding read_setup
read_setup-sent format c m m' = elim (Option-cases (in_read_block c 8).0) [
  | inl none_ ↦ ground (arith, none_, in_read_block-Kept c 8)
  | inr (h, e) ↦
      ground (
        arith,
        e,
        in_read_block-Kept c 8,
        in_read_block-Kept (in_read_block c 8).1 (card16 h 6 * 4),
      )
]
