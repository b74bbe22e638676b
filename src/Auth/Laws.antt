-- ===== src/Auth/Laws.antt =====
-- Which authorisation data a server gets, and what becomes of the memory on the way.
use androix_xcb_libxcb.Base.{
  ℕ, ◌-◌, ◌≡◌, refl, sym, ap, ◌∙◌, inl, inr, Bool, true, false, List, [], ◌∷◌, ◌++◌, Option, none,
  some, take, drop, length, replicate, length-append, length-take, length-drop, append_assoc,
  take-all, ==_refl, leb, if◌then◌else◌, ◌&&◌, ◌||◌, not, arith, Bool-cases, Option-cases,
}
use androix_xcb_libxcb.Sequence.{diff32}
use androix_xcb_libxcb.Util.Open.{same_text}
use androix_xcb_libxcb.Connect.Greeting.{AuthInfo}
use androix_xcb_libxcb.Auth.{
  authnames, v4_mapped, auth_xa1, auth_mc1, Xauth, Outside, memdup, authname_match, family_of,
  get_authptr, htonl, htons, peer_bytes, zero_filled, compute_auth, finish_auth,
}
use androix_xcb_libxcb.Auth.Names.{
  SockAddr, inet, inet6, unix_addr, other_family, Heap, live_after, Lookup, initial_len,
  second_fits, get_peer_sock_name,
}

-- A name that outgrows the first buffer, and for which the second call fails or reports a length that is
-- larger still.
abbrev pub frees_twice : Lookup → Bool
frees_twice l = l.memory && elim l.first [
  | none ↦ false
  | some actual ↦ not (leb actual initial_len) && (l.growth && not (second_fits l actual))
]

abbrev pub block_of : Option (ℕ × SockAddr) → List ℕ
block_of none = []
block_of (some (p, _)) = p ∷ []

-- get_peer_sock_name keeps just the block of the name that it returns and frees the others once, but
-- for a name that outgrows the first buffer when the second call fails or asks for more: then it frees
-- the block that realloc has already freed.
pub get_peer_sock_name-live_after :
    (l : Lookup) (base : ℕ)
    → let r = get_peer_sock_name l base in
      live_after r.1 [] ≡ (if frees_twice l then none else some (block_of r.0))
unfolding get_peer_sock_name
get_peer_sock_name-live_after l base = grind (arith, ==_refl)

-- The address of IPv4 that is mapped into one of IPv6.
abbrev pub mapped : List ℕ → List ℕ
mapped addr = replicate 10 0 ++ (0xff ∷ 0xff ∷ addr)

-- A peer with an address of IPv4 mapped into IPv6 gets the Xauth and the authorisation data of a peer
-- with that address of IPv4.
pub get_authptr-mapped :
    (o : Outside) (addr port : List ℕ) (display nonce : ℕ) (x : Xauth)
    → length addr ≡ 4
    → (get_authptr o (inet6 (mapped addr) port) display ≡ get_authptr o (inet addr port) display)
      × (compute_auth o x (inet6 (mapped addr) port) nonce
          ≡ compute_auth o x (inet addr port) nonce)
unfolding get_authptr family_of compute_auth peer_bytes same_text
get_authptr-mapped o addr port display nonce x four =
    let whole : take 4 addr ≡ addr = take-all 4 addr (omega (arith, four)) in
    (refl, ground (arith, whole))

-- Whether the first twelve bytes are those that mark a mapped address.
abbrev pub is_mapped : List ℕ → Bool
is_mapped addr = same_text (take 12 addr) (replicate 10 0 ++ (0xff ∷ 0xff ∷ []))

-- The addresses and ports have the bytes of their kind.
abbrev pub IsSized : SockAddr → Type 0
IsSized (inet addr port) = (length addr ≡ 4) × (length port ≡ 2)
IsSized (inet6 addr port) = (length addr ≡ 16) × (length port ≡ 2)
IsSized unix_addr = Unit
IsSized other_family = Unit

-- The six bytes that stand for where a client is: of IPv4 the four bytes of the address and the two of
-- the port; of IPv6 the same for an address of IPv4 mapped into it, and else zeros; of a UNIX socket a
-- nonce, which goes down from 2 ^ 32 - 1, and the process.
abbrev pub where_from : SockAddr → ℕ → ℕ → List ℕ
where_from (inet addr port) pid nonce = addr ++ port
where_from (inet6 addr port) pid nonce =
    if is_mapped addr then drop 12 addr ++ port else replicate 6 0
where_from unix_addr pid nonce = htonl (diff32 0xffffffff nonce) ++ htons pid
where_from other_family pid nonce = []

-- The family is one of the three.
abbrev pub IsKnown : SockAddr → Type 0
IsKnown other_family = ⊥
IsKnown _ = Unit

peer_bytes-where_from :
    (s : SockAddr) (pid nonce : ℕ)
    → IsSized s
    → IsKnown s
    → (peer_bytes s pid nonce).0 ≡ some (where_from s pid nonce)
unfolding peer_bytes same_text
peer_bytes-where_from (inet addr port) pid nonce z f = refl
peer_bytes-where_from (inet6 addr port) pid nonce z f =
    let whole : take 4 (drop 12 addr) ≡ drop 12 addr =
      take-all 4 (drop 12 addr) (omega (arith, length-drop 12 addr, z.0)) in
    ground (arith, whole)
peer_bytes-where_from unix_addr pid nonce z f = refl
peer_bytes-where_from other_family pid nonce z f = absurd f

peer_bytes-length :
    (s : SockAddr) (pid nonce : ℕ) (b : List ℕ)
    → IsSized s
    → (peer_bytes s pid nonce).0 ≡ some b
    → length b ≡ 6
unfolding peer_bytes
peer_bytes-length (inet addr port) pid nonce b z e =
    let q : addr ++ port ≡ b = ground (arith, e) in
    omega (arith, ap length q, length-append addr port, z.0, z.1)
peer_bytes-length (inet6 addr port) pid nonce b z e = elim (Bool-cases (v4_mapped addr)) [
  | inl m ↦
      let a4 : List ℕ = take 4 (drop 12 addr) in
      let q : a4 ++ port ≡ b = ground (arith, e, m) in
      omega (
        arith,
        ap length q,
        length-append a4 port,
        length-take 4 (drop 12 addr),
        length-drop 12 addr,
        z.0,
        z.1,
      )
  | inr n ↦ let q : replicate 6 0 ≡ b = ground (arith, e, n) in sym (ap length q)
]
peer_bytes-length unix_addr pid nonce b z e =
    let q : htonl (diff32 0xffffffff nonce) ++ htons pid ≡ b = ground (arith, e) in
    sym (ap length q)
peer_bytes-length other_family pid nonce b z e = absurd (ground (arith, e))

-- compute_auth for XDM-AUTHORIZATION-1 with a key of 16 bytes, when malloc succeeds, the family is
-- IPv4, IPv6 or that of UNIX sockets, and an address and a port have the bytes of their family: the
-- data is what XdmcpWrap makes, under the second half of the key, of 24 bytes. These begin with the
-- first half of the key; then come six bytes for the client, the address before the port for IPv4 and
-- for an address of IPv4 mapped into IPv6, zeros for any other address of IPv6, and a nonce before
-- the process for a UNIX socket; then the time, and zeros to the end.
pub compute_auth-xdm :
    (o : Outside) (x : Xauth) (s : SockAddr) (nonce : ℕ)
    → o.data_memory ≡ true
    → x.name ≡ authnames auth_xa1
    → length x.auth_data ≡ 16
    → IsSized s
    → IsKnown s
    → let six : List ℕ = where_from s o.pid nonce in
      let plain : List ℕ = take 8 x.auth_data ++ (six ++ (htonl o.now ++ replicate 6 0)) in
      ((compute_auth o x s nonce).0 ≡ some (o.wrap (drop 8 x.auth_data) plain))
      × (length plain ≡ 24)
unfolding compute_auth authname_match same_text
compute_auth-xdm o x s nonce m n k z f =
    let b = where_from s o.pid nonce in
    let e = peer_bytes-where_from s o.pid nonce z f in
    let six = peer_bytes-length s o.pid nonce b z e in
    let head = take 8 x.auth_data in
    let h8 : length head ≡ 8 = omega (arith, length-take 8 x.auth_data, k) in
    let size : length (head ++ (b ++ htonl o.now)) ≡ 18 =
      omega
        (arith, length-append head (b ++ htonl o.now), length-append b (htonl o.now), h8, six) in
    let whole : zero_filled (head ++ (b ++ htonl o.now))
        ≡ head ++ (b ++ (htonl o.now ++ replicate 6 0)) =
      ap (λ i. (head ++ (b ++ htonl o.now)) ++ replicate (24 - i) 0) size
      ∙ (append_assoc head (b ++ htonl o.now) (replicate 6 0)
          ∙ ap (λ l. head ++ l) (append_assoc b (htonl o.now) (replicate 6 0))) in
    (
      ground (arith, m, n, e, whole),
      omega (
        arith,
        length-append head (b ++ (htonl o.now ++ replicate 6 0)),
        length-append b (htonl o.now ++ replicate 6 0),
        h8,
        six,
      ),
    )

-- A copy is what was copied, and not empty.
memdup-some : (l r : List ℕ) (m : Bool) → memdup l m ≡ some r → r ≡ l
unfolding memdup
memdup-some [] r m e = absurd (ground (arith, e))
memdup-some (x ∷ l) r m e = ground (arith, e)

compute_auth-known :
    (o : Outside) (x : Xauth) (s : SockAddr) (nonce : ℕ) (d : List ℕ)
    → (compute_auth o x s nonce).0 ≡ some d
    → (authname_match auth_mc1 x.name || authname_match auth_xa1 x.name) ≡ true
unfolding compute_auth
compute_auth-known o x s nonce d e = elim (Bool-cases (authname_match auth_mc1 x.name)) [
  | inl m ↦ rw m refl
  | inr n ↦ elim (Bool-cases (authname_match auth_xa1 x.name)) [
    | inl m ↦ rw (n, m) refl
    | inr n' ↦ absurd (ground (arith, e, n, n'))
  ]
]

pub finish_auth-known :
    (o : Outside) (x : Xauth) (s : SockAddr) (p : ℕ)
    (again : Option (Option (ℕ × SockAddr) × List Heap)) (nonce : ℕ) (info : AuthInfo)
    → (finish_auth o x s p again nonce).0 ≡ some info
    → (info.name ≡ x.name)
      × ((authname_match auth_mc1 x.name || authname_match auth_xa1 x.name) ≡ true)
unfolding finish_auth
finish_auth-known o x s p again nonce info e =
    let used : Option (ℕ × SockAddr) × List Heap = elim again [
      | none ↦ (some (p, s), [])
      | some l ↦ l
    ] in
    elim (Option-cases (memdup x.name o.name_memory)) [
      | inl none_ ↦ absurd (ground (arith, none_, e))
      | inr (name, n) ↦ elim (Option-cases used.0) [
        | inl none_ ↦ absurd (ground (arith, none_, n, e))
        | inr ((q, own), u) ↦ elim (Option-cases (compute_auth o x own nonce).0) [
          | inl none_ ↦ absurd (ground (arith, none_, n, u, e))
          | inr (d, f) ↦
              let i : name ≡ info.name = ground (arith, f, n, u, e) in
              (
                sym i ∙ memdup-some x.name name o.name_memory n,
                compute_auth-known o x own nonce d f,
              )
        ]
      ]
    ]
