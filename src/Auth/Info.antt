-- ===== src/Auth/Info.antt =====
-- _xcb_get_auth_info as a whole.
use androix_xcb_libxcb.Base.{
  ℕ, ◌≡◌, refl, ap, inl, inr, true, List, [], ◌∷◌, none, some, leb, ◌||◌, arith, Option-cases,
}
use androix_xcb_libxcb.Connect.Greeting.{AuthInfo}
use androix_xcb_libxcb.Util.Open.{same_text}
use androix_xcb_libxcb.Auth.{
  auth_xa1, auth_mc1, authnames, Xauth, Outside, memdup, authname_match, get_authptr, compute_auth,
  finish_auth, get_auth_info,
}
use androix_xcb_libxcb.Auth.Laws.{finish_auth-known}
use androix_xcb_libxcb.Auth.Names.{
  SockAddr, allocated, live_after, Lookup, initial_len, get_peer_sock_name,
}

-- The name in what _xcb_get_auth_info finds is that of one of the two protocols that the library knows.
pub get_auth_info-known :
    (o : Outside) (peer own : Lookup) (display nonce : ℕ) (info : AuthInfo)
    → (get_auth_info o peer own display nonce).0 ≡ some info
    → (authname_match auth_mc1 info.name || authname_match auth_xa1 info.name) ≡ true
unfolding get_auth_info
get_auth_info-known o peer own display nonce info e =
    let first = get_peer_sock_name peer 0 in
    let second = get_peer_sock_name own 2 in
    let known : (x : Xauth)
        → (info.name ≡ x.name)
          × ((authname_match auth_mc1 x.name || authname_match auth_xa1 x.name) ≡ true)
        → (authname_match auth_mc1 info.name || authname_match auth_xa1 info.name) ≡ true =
      λ x r. rw (r.0) (r.1) in
    elim (Option-cases first.0) [
      | inr ((p, s), f) ↦ elim (Option-cases (get_authptr o s display)) [
        | inl n ↦ absurd (ground (arith, f, n, e))
        | inr (x, a) ↦
            known x (finish_auth-known o x s p (some second) nonce info (ground (arith, f, a, e)))
      ]
      | inl f ↦ elim (Option-cases second.0) [
        | inl n ↦ absurd (ground (arith, f, n, e))
        | inr ((p, s), g) ↦ elim (Option-cases (get_authptr o s display)) [
          | inl n ↦ absurd (ground (arith, f, g, n, e))
          | inr (x, a) ↦
              known x (finish_auth-known o x s p none nonce info (ground (arith, f, g, a, e)))
        ]
      ]
    ]

-- Both names of the socket fit the first buffer.
pub record IsShort (l : Lookup) : Type 0 where
  pub memory : l.memory ≡ true
  pub actual : ℕ
  pub first : l.first ≡ some actual
  pub fits : leb actual initial_len ≡ true

get_peer_sock_name-short :
    (l : Lookup) (base : ℕ)
    → IsShort l
    → get_peer_sock_name l base ≡ (some (base, l.name), allocated base ∷ [])
unfolding get_peer_sock_name
get_peer_sock_name-short l base s = ground (arith, s.memory, s.first, s.fits)

get_auth_info-finish :
    (o : Outside) (peer own : Lookup) (display nonce : ℕ) (x : Xauth)
    → IsShort peer
    → IsShort own
    → get_authptr o peer.name display ≡ some x
    → let f = finish_auth o x peer.name 0 (some (some (2, own.name), allocated 2 ∷ [])) nonce in
      get_auth_info o peer own display nonce ≡ (f.0, allocated 0 ∷ f.1, f.2)
unfolding get_auth_info
get_auth_info-finish o peer own display nonce x p q a =
    ground (arith, get_peer_sock_name-short peer 0 p, get_peer_sock_name-short own 2 q, a)

memdup_mc1 :
    (x : Xauth) (o : Outside)
    → x.name ≡ authnames auth_mc1
    → o.name_memory ≡ true
    → memdup x.name o.name_memory ≡ some (authnames auth_mc1)
unfolding memdup
memdup_mc1 x o n m = rw (n, m) refl

compute_auth_mc1 :
    (o : Outside) (x : Xauth) (s : SockAddr) (nonce b : ℕ) (bs : List ℕ)
    → x.name ≡ authnames auth_mc1
    → x.auth_data ≡ b ∷ bs
    → o.data_memory ≡ true
    → compute_auth o x s nonce ≡ (some (b ∷ bs), nonce)
unfolding compute_auth memdup authname_match same_text
compute_auth_mc1 o x s nonce b bs n d m =
    let matches : authname_match auth_mc1 x.name ≡ true = ap (authname_match auth_mc1) n in
    ground (arith, matches, d, m)

-- _xcb_get_auth_info for a peer with a name and an entry for MIT-MAGIC-COOKIE-1 that is not empty: when
-- malloc succeeds it returns that entry's name and data.
pub get_auth_info-cookie :
    (o : Outside) (peer own : Lookup) (display nonce b : ℕ) (x : Xauth) (bs : List ℕ)
    → IsShort peer
    → IsShort own
    → get_authptr o peer.name display ≡ some x
    → x.name ≡ authnames auth_mc1
    → x.auth_data ≡ b ∷ bs
    → o.name_memory ≡ true
    → o.data_memory ≡ true
    → (get_auth_info o peer own display nonce).0
      ≡ some (record { name = authnames auth_mc1; auth_data = b ∷ bs })
unfolding finish_auth
get_auth_info-cookie o peer own display nonce b x bs p q a n d m m' =
    let f = get_auth_info-finish o peer own display nonce x p q a in
    let name : memdup x.name o.name_memory ≡ some (authnames auth_mc1) = memdup_mc1 x o n m in
    let bytes = compute_auth_mc1 o x own.name nonce b bs n d m' in ground (arith, f, name, bytes)

-- When the peer has a name and an entry is found whose name is copied, and both names of the
-- socket, the peer's and its own, fit the first buffer at the first lookup, with memory for it,
-- _xcb_get_auth_info looks up the socket's own name over the pointer to the peer's, and the block
-- of the peer's name is never freed.
pub get_auth_info-loses :
    (o : Outside) (peer own : Lookup) (display nonce : ℕ) (x : Xauth) (name : List ℕ)
    → IsShort peer
    → IsShort own
    → get_authptr o peer.name display ≡ some x
    → memdup x.name o.name_memory ≡ some name
    → live_after (get_auth_info o peer own display nonce).1 [] ≡ some (0 ∷ [])
unfolding finish_auth
get_auth_info-loses o peer own display nonce x name p q a n =
    let f = get_auth_info-finish o peer own display nonce x p q a in ground (arith, f, n)
