-- ===== src/Out/Length.antt =====
-- xcb_prefetch_maximum_request_length, xcb_get_maximum_request_length, and the length of a request
-- in xcb_send_request (lines 146 to 206, and 236 to 247).
pub mod Laws
pub mod Maximum
use androix_xcb_libxcb.Base.{
  ℕ, zero, suc, ◌+◌, ◌-◌, ◌*◌, ◌/◌, ◌%◌, ◌^◌, Bool, true, false, Option, none, some, List, [], ◌∷◌,
  ◌++◌, take, drop, length, replicate, leb, ltb, ◌==◌, if◌then◌else◌, ◌&&◌, ◌||◌, not,
}
use androix_xcb_libxcb.Sequence.{u32}
use androix_xcb_libxcb.Conn.{
  Conn, Out, Lazy, lazy_none, lazy_cookie, lazy_forced, Workaround, no_workaround,
  glx_get_fb_configs_bug, conn_shutdown,
}
use androix_xcb_libxcb.In.Number.{card32}
use androix_xcb_libxcb.Out.Vector.{Iovec}

-- What the code asks the server about BIG-REQUESTS: whether the extension is present, the cookie of
-- the request that enables it, and the maximum in the reply (none for no reply).
pub record BigRequests : Type 0 where
  pub extension : Conn → Bool × Conn
  pub enable : Conn → ℕ × Conn
  pub enable_reply : Conn → ℕ → Option ℕ × Conn

abbrev pub set_maximum : Conn → Lazy ℕ → Conn
set_maximum c l = record c { output = record c.output { maximum_request_length = l } }

module _ (server : BigRequests) where
  -- xcb_prefetch_maximum_request_length
  unfoldable pub prefetch_maximum : Conn → Conn
  prefetch_maximum c =
      let ext = server.extension c in
      let cookie = server.enable ext.1 in
      if c.has_error then c else elim c.output.maximum_request_length [
        | lazy_none ↦
            if ext.0
            then set_maximum cookie.1 (lazy_cookie cookie.0)
            else set_maximum ext.1 (lazy_forced ext.1.setup.maximum_request_length)
        | lazy_cookie _ ↦ c
        | lazy_forced _ ↦ c
      ]

  -- Lines 107 to 120, after the prefetch. A tag LAZY_NONE is left only by a prefetch that found the
  -- connection in error, with the value 0 of the zeroed memory.
  unfoldable pub force_maximum : Conn → ℕ × Conn
  force_maximum c = elim c.output.maximum_request_length [
    | lazy_none ↦ (0, c)
    | lazy_cookie cookie ↦
        let r = server.enable_reply c cookie in
        let value : ℕ = elim r.0 [
          | none ↦ r.1.setup.maximum_request_length
          | some maximum ↦ maximum
        ] in
        (value, set_maximum r.1 (lazy_forced value))
    | lazy_forced value ↦ (value, c)
  ]

  -- xcb_get_maximum_request_length
  unfoldable pub get_maximum_request_length : Conn → ℕ × Conn
  unfolding prefetch_maximum force_maximum
  get_maximum_request_length c =
      let forced = force_maximum (prefetch_maximum c) in if c.has_error then (0, c) else forced

-- A part of the caller's vector: bytes, or padding (a null `iov_base`, of at most 3 bytes).
pub data Part : Type 0 where
  bytes : List ℕ → Part
  pad : ℕ → Part

-- Lines 172 to 176: padding gets its zeros.
abbrev pub filled : Part → Iovec
filled (bytes b) = b
filled (pad n) = replicate n 0

abbrev pub fill_parts : List Part → List Iovec
fill_parts [] = []
fill_parts (p ∷ ps) = filled p ∷ fill_parts ps

-- Line 171.
abbrev pub total : List Iovec → ℕ
total [] = 0
total (v ∷ vs) = length v + total vs

-- Lines 154 to 166: the opcodes. `major` is that of the extension, if the request has one.
abbrev pub set_opcode : Option ℕ → ℕ → List ℕ → List ℕ
set_opcode none opcode (a ∷ r) = opcode ∷ r
set_opcode (some major) opcode (a ∷ b ∷ r) = major ∷ opcode ∷ r
set_opcode _ opcode r = r

abbrev pub bytes16 : ℕ → List ℕ
bytes16 n = n % 256 ∷ n / 256 % 256 ∷ []

abbrev pub bytes32 : ℕ → List ℕ
bytes32 n = bytes16 n ++ bytes16 (n / 0x10000)

-- Line 194.
abbrev pub set_shortlen : ℕ → List ℕ → List ℕ
set_shortlen n (a ∷ b ∷ c ∷ d ∷ r) = a ∷ b ∷ n % 256 ∷ n / 256 % 256 ∷ r
set_shortlen n r = r

-- Lines 168 to 196 on the number of bytes: `shortlen` and `prefix[2]`, or a request that is too long.
unfoldable pub length_fields : BigRequests → Conn → ℕ → Option (ℕ × ℕ) × Conn
length_fields server c size =
    let longlen : ℕ = size / 4 in
    let big = get_maximum_request_length server c in
    if leb longlen c.setup.maximum_request_length
    then (some (longlen % 0x10000, if longlen % 0x10000 == 0 then 1 else 0), c)
    else (if ltb big.0 longlen
        then (none, conn_shutdown big.1)
        else (some (0, (longlen + 1) % u32), big.1))

-- The vector after lines 146 to 197, with `prefix[2]`.
unfoldable pub prepare :
    BigRequests → Conn → Option ℕ → ℕ → List Part → Option (List Iovec × ℕ) × Conn
prepare server c major opcode parts = elim (fill_parts parts) [
  | [] ↦ (some ([], 0), c)
  | first ∷ rest ↦
      let fields = length_fields server c (length first + total rest) in
      elim fields.0 [
        | none ↦ (none, fields.1)
        | some (shortlen, longlen) ↦
            (some (set_shortlen shortlen (set_opcode major opcode first) ∷ rest, longlen), fields.1)
      ]
]

-- sync_req.packet: a request for input focus, of one unit.
abbrev pub sync_req : List ℕ
sync_req = 43 ∷ 0 ∷ 1 ∷ 0 ∷ []

-- Lines 236 to 247: the vector with its prefix.
unfoldable pub add_prefix : Bool → ℕ → List Iovec → List Iovec
add_prefix synced longlen [] = []
add_prefix synced longlen (first ∷ rest) =
    let sync : List ℕ = if synced then sync_req else [] in
    if longlen == 0
    then (if synced then sync ∷ first ∷ rest else first ∷ rest)
    else (sync ++ (take 4 first ++ bytes32 longlen)) ∷ drop 4 first ∷ rest

-- Lines 200 to 206: the requests with the bug of the X server. `is_glx` says that the request is of
-- the extension named GLX, and not void.
unfoldable pub workaround_of : Bool → ℕ → List ℕ → Workaround
workaround_of is_glx opcode first =
    if is_glx && ((opcode == 17 && card32 first 4 == 0x10004) || opcode == 21)
    then glx_get_fb_configs_bug
    else no_workaround
