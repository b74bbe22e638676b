-- ===== src/Auth.antt =====
-- xcb_auth.c: the authorisation data for a server, as it is compiled with IPv6 and XDM authorisation.
pub mod Names
pub mod Laws
pub mod Info
use androix_xcb_libxcb.Base.{
  ℕ, ◌+◌, ◌-◌, ◌/◌, ◌%◌, ◌^◌, Bool, true, false, List, [], ◌∷◌, ◌++◌, Option, none, some, ◌==◌,
  take, drop, length, replicate, if◌then◌else◌, ◌&&◌, not,
}
use androix_xcb_libxcb.Sequence.{u32, diff32}
use androix_xcb_libxcb.Connect.Greeting.{AuthInfo}
use androix_xcb_libxcb.Util.Decimal.{print_int}
use androix_xcb_libxcb.Util.Open.{same_text}
use Names.{
  SockAddr, inet, inet6, unix_addr, other_family, is_unix, Lookup, Heap, freed, get_peer_sock_name,
}

-- enum auth_protos
pub data AuthProto : Type 0 where
  auth_xa1 auth_mc1 : AuthProto

-- "XDM-AUTHORIZATION-1" and "MIT-MAGIC-COOKIE-1"
abbrev pub authnames : AuthProto → List ℕ
authnames auth_xa1 =
    b'X' ∷ b'D' ∷ b'M' ∷ b'-' ∷ b'A' ∷ b'U' ∷ b'T' ∷ b'H' ∷ b'O' ∷ b'R' ∷ b'I' ∷ b'Z' ∷ b'A' ∷ b'T'
    ∷ b'I' ∷ b'O' ∷ b'N' ∷ b'-' ∷ b'1' ∷ []
authnames auth_mc1 =
    b'M' ∷ b'I' ∷ b'T' ∷ b'-' ∷ b'M' ∷ b'A' ∷ b'G' ∷ b'I' ∷ b'C' ∷ b'-' ∷ b'C' ∷ b'O' ∷ b'O' ∷ b'K'
    ∷ b'I' ∷ b'E' ∷ b'-' ∷ b'1' ∷ []

-- The families that an address is looked up under.
pub data Family : Type 0 where
  family_local family_internet family_internet6 : Family

-- The name and the data of an Xauth.
pub record Xauth : Type 0 where
  pub name : List ℕ
  pub auth_data : List ℕ

-- What the functions outside give: gethostname (none if it fails), XauGetBestAuthByAddr for a family, an
-- address and the number of a display, getpid, time, XdmcpWrap of bytes under a key, and malloc for the
-- name and for the data.
pub record Outside : Type 0 where
  pub hostname : Option (List ℕ)
  pub best_auth : Family → List ℕ → List ℕ → Option Xauth
  pub pid : ℕ
  pub now : ℕ
  pub wrap : List ℕ → List ℕ → List ℕ
  pub name_memory : Bool
  pub data_memory : Bool

-- memdup; none is its result 0, which it also gives for no bytes.
unfoldable pub memdup : List ℕ → Bool → Option (List ℕ)
memdup [] allocated = none
memdup (x ∷ src) allocated = if allocated then some (x ∷ src) else none

unfoldable pub authname_match : AuthProto → List ℕ → Bool
authname_match kind name =
    if length (authnames kind) == length name then same_text (authnames kind) name else false

-- IN6_IS_ADDR_V4MAPPED and IN6_IS_ADDR_LOOPBACK
abbrev pub v4_mapped : List ℕ → Bool
v4_mapped a = same_text (take 12 a) (replicate 10 0 ++ (0xff ∷ 0xff ∷ []))

abbrev pub loopback6 : List ℕ → Bool
loopback6 a = same_text a (replicate 15 0 ++ (1 ∷ []))

-- Lines 126 to 131.
abbrev pub family_v4 : List ℕ → Family × List ℕ
family_v4 addr = (
  if same_text (take 4 addr) (127 ∷ 0 ∷ 0 ∷ 1 ∷ []) then family_local else family_internet,
  take 4 addr,
)

-- Lines 110 to 137: the family and the address, none for a family without authorisation.
unfoldable pub family_of : SockAddr → Option (Family × List ℕ)
family_of (inet6 addr port) =
    if v4_mapped addr
    then some (family_v4 (drop 12 addr))
    else some (if loopback6 addr then family_local else family_internet6, addr)
family_of (inet addr port) = some (family_v4 addr)
family_of unix_addr = some (family_local, [])
family_of other_family = none

-- get_authptr
unfoldable pub get_authptr : Outside → SockAddr → ℕ → Option Xauth
unfolding family_of
get_authptr o sockname display =
    let dispbuf = take 39 (print_int display) in
    elim (family_of sockname) [
      | none ↦ none
      | some (family_local, _) ↦ elim o.hostname [
        | none ↦ none
        | some host ↦ o.best_auth family_local host dispbuf
      ]
      | some (family_internet, addr) ↦ o.best_auth family_internet addr dispbuf
      | some (family_internet6, addr) ↦ o.best_auth family_internet6 addr dispbuf
    ]

-- htonl and htons, as the bytes in memory.
abbrev pub htonl : ℕ → List ℕ
htonl x = x / 2 ^ 24 % 256 ∷ x / 2 ^ 16 % 256 ∷ x / 2 ^ 8 % 256 ∷ x % 256 ∷ []

abbrev pub htons : ℕ → List ℕ
htons x = x / 2 ^ 8 % 256 ∷ x % 256 ∷ []

-- Lines 196 to 236: the address and the port, of 6 bytes in all, and the nonce for the next call; none
-- for an unknown family.
unfoldable pub peer_bytes : SockAddr → ℕ → ℕ → Option (List ℕ) × ℕ
peer_bytes (inet addr port) pid nonce = (some (addr ++ port), nonce)
peer_bytes (inet6 addr port) pid nonce =
    (some (if v4_mapped addr then take 4 (drop 12 addr) ++ port else replicate 6 0), nonce)
peer_bytes unix_addr pid nonce =
    (some (htonl (diff32 0xffffffff nonce) ++ htons pid), (nonce + 1) % u32)
peer_bytes other_family pid nonce = (none, nonce)

-- Lines 194 to 245: the 24 bytes before XdmcpWrap.
abbrev pub zero_filled : List ℕ → List ℕ
zero_filled bytes = bytes ++ replicate (24 - length bytes) 0

-- compute_auth, for a key of at least 16 bytes: the data, and the nonce for the next call.
unfoldable pub compute_auth : Outside → Xauth → SockAddr → ℕ → Option (List ℕ) × ℕ
unfolding peer_bytes
compute_auth o authptr sockname nonce =
    let p = peer_bytes sockname o.pid nonce in
    let xdm : Option (List ℕ) × ℕ = elim p.0 [
      | none ↦ (none, p.1)
      | some bytes ↦ (
        some (
            o.wrap (drop 8 authptr.auth_data)
              (zero_filled (take 8 authptr.auth_data ++ (bytes ++ htonl o.now)))),
        p.1,
      )
    ] in
    if authname_match auth_mc1 authptr.name
    then (memdup authptr.auth_data o.data_memory, nonce)
    else (if authname_match auth_xa1 authptr.name
        then (if o.data_memory then xdm else (none, nonce))
        else (none, nonce))

-- Lines 330 to 359, once there is an Xauth. `again` is the second lookup of the socket's own name, none
-- where the first one is in use. The memory of the names of sockets comes with the result.
unfoldable pub finish_auth :
    Outside
    → Xauth
    → SockAddr
    → ℕ
    → Option (Option (ℕ × SockAddr) × List Heap)
    → ℕ
    → Option AuthInfo × List Heap × ℕ
unfolding compute_auth memdup
finish_auth o authptr sockname pointer again nonce = elim (memdup authptr.name o.name_memory) [
  | none ↦ (none, freed pointer ∷ [], nonce)
  | some name ↦
      let used : Option (ℕ × SockAddr) × List Heap = elim again [
        | none ↦ (some (pointer, sockname), [])
        | some l ↦ l
      ] in
      elim used.0 [
        | none ↦ (none, used.1, nonce)
        | some (p, own) ↦
            let a = compute_auth o authptr own nonce in
            elim a.0 [
              | none ↦ (none, used.1 ++ (freed p ∷ []), a.1)
              | some d ↦
                  (some (record { name = name; auth_data = d }), used.1 ++ (freed p ∷ []), a.1)
            ]
      ]
]

-- _xcb_get_auth_info; `peer` and `own` are the lookups of the peer's name and of the socket's own.
unfoldable pub get_auth_info : Outside → Lookup → Lookup → ℕ → ℕ → Option AuthInfo × List Heap × ℕ
unfolding finish_auth get_authptr
get_auth_info o peer own display nonce =
    let first = get_peer_sock_name peer 0 in
    let second = get_peer_sock_name own 2 in
    elim first.0 [
      | some (p, sockname) ↦ elim (get_authptr o sockname display) [
        | none ↦ (none, first.1 ++ (freed p ∷ []), nonce)
        | some authptr ↦
            let f = finish_auth o authptr sockname p (some second) nonce in
            (f.0, first.1 ++ f.1, f.2)
      ]
      | none ↦ elim second.0 [
        | none ↦ (none, first.1 ++ second.1, nonce)
        | some (p, sockname) ↦
            let f : Option AuthInfo × List Heap × ℕ = elim (get_authptr o sockname display) [
              | none ↦ (none, freed p ∷ [], nonce)
              | some authptr ↦ finish_auth o authptr sockname p none nonce
            ] in
            if is_unix sockname
            then (f.0, first.1 ++ (second.1 ++ f.1), f.2)
            else (none, first.1 ++ (second.1 ++ (freed p ∷ [])), nonce)
      ]
    ]
