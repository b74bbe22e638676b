-- ===== src/Out/Length/Laws.antt =====
-- The length field that the server reads is the length of what is sent.
use androix_xcb_libxcb.Base.{
  ℕ, ◌+◌, ◌*◌, ◌/◌, ◌%◌, ◌≤◌, ◌<◌, ◌≡◌, ◌⊎◌, inl, inr, refl, ap, ◌∙◌, false, Option, none, some,
  List, [], ◌∷◌, length, leb, ltb, ◌==◌, if◌then◌else◌, arith, Bool-cases, length-append,
  Option-cases,
}
use androix_xcb_libxcb.Sequence.{u32}
use androix_xcb_libxcb.Conn.{Conn}
use androix_xcb_libxcb.In.Number.{card16, card32}
use androix_xcb_libxcb.Out.Vector.{Iovec, joined}
use androix_xcb_libxcb.Out.Length.{
  BigRequests, get_maximum_request_length, Part, fill_parts, total, set_opcode, set_shortlen,
  length_fields, prepare, add_prefix,
}

-- The length of a request as the server reads it, in units of 4 bytes: bytes 2 and 3, or, if these are
-- 0, the 32 bits after them (the extended form of BIG-REQUESTS).
abbrev pub announced : List ℕ → ℕ
announced b = if card16 b 2 == 0 then card32 b 4 else card16 b 2

total-joined : (v : List Iovec) → length (joined v) ≡ total v
total-joined [] = refl
total-joined (v ∷ vs) = omega (arith, length-append v (joined vs), total-joined vs)

-- The two forms of a length.
length_fields_cases :
    (server : BigRequests) (c c' : Conn) (size s l : ℕ)
    → 4 ≤ size
    → size / 4 + 1 < u32
    → c.setup.maximum_request_length < 0x10000
    → length_fields server c size ≡ (some (s, l), c')
    → ((s ≡ size / 4) × (l ≡ 0) × (s < 0x10000) × (0 < s)) ⊎ ((s ≡ 0) × (l ≡ size / 4 + 1))
unfolding length_fields
length_fields_cases server c c' size s l four small max e =
    let big = get_maximum_request_length server c in
    elim (Bool-cases (leb (size / 4) c.setup.maximum_request_length)) [
      | inl short ↦ inl (ground (arith, short))
      | inr long ↦ elim (Bool-cases (ltb big.0 (size / 4))) [
        | inl refused ↦ absurd (ground (arith, long, refused))
        | inr fits ↦ inr (ground (arith, long, fits))
      ]
    ]

-- The bytes of a request on the wire, behind a request for input focus if there is one.
abbrev pub wire : List Iovec → ℕ → List ℕ
wire vector longlen = joined (add_prefix false longlen vector)

wire_short :
    (p q n : ℕ) (r : List ℕ) (rest : List Iovec) (size : ℕ)
    → 0 < n
    → n < 0x10000
    → size ≡ 4 + (length r + total rest)
    → size % 4 ≡ 0
    → n ≡ size / 4
    → let w = wire ((p ∷ q ∷ n % 256 ∷ n / 256 % 256 ∷ r) ∷ rest) 0 in (announced w * 4 ≡ length w)
unfolding add_prefix
wire_short p q n r rest size pos small e m d =
    ground (arith, length-append r (joined rest), total-joined rest)

wire_long :
    (p q l : ℕ) (r : List ℕ) (rest : List Iovec) (size : ℕ)
    → l < u32
    → size ≡ 4 + (length r + total rest)
    → size % 4 ≡ 0
    → l ≡ size / 4 + 1
    → let w = wire ((p ∷ q ∷ 0 % 256 ∷ 0 / 256 % 256 ∷ r) ∷ rest) l in (announced w * 4 ≡ length w)
unfolding add_prefix
wire_long p q l r rest size small e m d =
    ground (arith, length-append r (joined rest), total-joined rest)

wire_any :
    (p q s l : ℕ) (r : List ℕ) (rest : List Iovec) (size : ℕ) (vector : List Iovec)
    → size ≡ 4 + (length r + total rest)
    → vector ≡ (p ∷ q ∷ s % 256 ∷ s / 256 % 256 ∷ r) ∷ rest
    → size % 4 ≡ 0
    → size / 4 + 1 < u32
    → ((s ≡ size / 4) × (l ≡ 0) × (s < 0x10000) × (0 < s)) ⊎ ((s ≡ 0) × (l ≡ size / 4 + 1))
    → announced (wire vector l) * 4 ≡ length (wire vector l)
wire_any p q s l r rest size vector e v m small (inl (d, z, w, pos)) =
    rw (v, z) (wire_short p q s r rest size pos w e m d)
wire_any p q s l r rest size vector e v m small (inr (z, d)) =
    rw (v, z) (wire_long p q l r rest size (omega arith) e m d)

header_of :
    (n opcode : ℕ) (major : Option ℕ) (a b x y : ℕ) (r : List ℕ)
    → (p : ℕ) × (q : ℕ) × (set_shortlen n (set_opcode major opcode (a ∷ b ∷ x ∷ y ∷ r))
        ≡ p ∷ q ∷ n % 256 ∷ n / 256 % 256 ∷ r)
header_of n opcode none a b x y r = (opcode, b, refl)
header_of n opcode (some major) a b x y r = (major, opcode, refl)

-- What prepare returns, when it does not refuse the request.
prepare_lem :
    (server : BigRequests) (c c' : Conn) (major : Option ℕ) (opcode : ℕ) (parts : List Part)
    (first : Iovec) (rest : List Iovec) (vector : List Iovec) (longlen : ℕ)
    → fill_parts parts ≡ first ∷ rest
    → prepare server c major opcode parts ≡ (some (vector, longlen), c')
    → (s : ℕ) × (length_fields server c (length first + total rest) ≡ (some (s, longlen), c'))
      × (vector ≡ set_shortlen s (set_opcode major opcode first) ∷ rest)
unfolding prepare
prepare_lem server c c' major opcode parts first rest vector longlen e h =
    elim (Option-cases (length_fields server c (length first + total rest)).0) [
      | inl refused ↦ absurd (ground (arith, e, refused, h))
      | inr (f, fields) ↦ (f.0, ground (arith, e, fields, h), ground (arith, e, fields, h))
    ]

-- If a request is not refused, the length that the server reads from its header, in units of 4 bytes,
-- is the length of what is sent: both in the short form and in the extended form of BIG-REQUESTS,
-- where the length counts the 4 bytes that it takes itself. The request is a whole number of units, its
-- first part has the 4 bytes of the header, the maximum of the setup is a 16-bit number, and the
-- length fits 32 bits.
pub request_length :
    (server : BigRequests) (c c' : Conn) (major : Option ℕ) (opcode : ℕ) (parts : List Part)
    (a b x y : ℕ) (r : List ℕ) (rest : List Iovec) (vector : List Iovec) (longlen : ℕ)
    → fill_parts parts ≡ (a ∷ b ∷ x ∷ y ∷ r) ∷ rest
    → total (fill_parts parts) % 4 ≡ 0
    → total (fill_parts parts) / 4 + 1 < u32
    → c.setup.maximum_request_length < 0x10000
    → prepare server c major opcode parts ≡ (some (vector, longlen), c')
    → announced (wire vector longlen) * 4 ≡ length (wire vector longlen)
request_length server c c' major opcode parts a b x y r rest vector longlen f units small max e =
    let first = a ∷ b ∷ x ∷ y ∷ r in
    let (s, fields, v) = prepare_lem server c c' major opcode parts first rest vector longlen f e in
    let size : ℕ = length first + total rest in
    let t : total (fill_parts parts) ≡ size = ap total f in
    let (p, q, h) = header_of s opcode major a b x y r in
    let v' : vector ≡ (p ∷ q ∷ s % 256 ∷ s / 256 % 256 ∷ r) ∷ rest = v ∙ ap (λ k. k ∷ rest) h in
    wire_any p q s longlen r rest size vector (omega arith) v' (omega arith) (omega arith)
      (length_fields_cases server c c' size s longlen (omega arith) (omega arith) max fields)
