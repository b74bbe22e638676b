-- ===== src/Auth/Names.antt =====
-- get_peer_sock_name, with the memory that it takes and gives back.
use androix_xcb_libxcb.Base.{
  ℕ, ◌+◌, Bool, true, false, List, [], ◌∷◌, Option, none, some, ◌==◌, leb, if◌then◌else◌,
}

-- struct sockaddr, by its family; addresses and ports are bytes in the order of the network.
pub data SockAddr : Type 0 where
  inet inet6 : List ℕ → List ℕ → SockAddr
  unix_addr other_family : SockAddr

abbrev pub is_unix : SockAddr → Bool
is_unix unix_addr = true
is_unix (inet _ _) = false
is_unix (inet6 _ _) = false
is_unix other_family = false

-- What becomes of a block of memory; a block is known by a number.
pub data Heap : Type 0 where
  allocated freed : ℕ → Heap

abbrev pub without : ℕ → List ℕ → List ℕ
without p [] = []
without p (x ∷ xs) = let rest = without p xs in if x == p then rest else x ∷ rest

abbrev pub is_live : ℕ → List ℕ → Bool
is_live p [] = false
is_live p (x ∷ xs) = let rest = is_live p xs in if x == p then true else rest

-- The blocks that are live afterwards; none if a block is freed that is not live.
abbrev pub live_after : List Heap → List ℕ → Option (List ℕ)
live_after [] live = some live
live_after (allocated p ∷ h) live = live_after h (p ∷ live)
live_after (freed p ∷ h) live =
    let rest = live_after h (without p live) in if is_live p live then rest else none

-- The calls for one name: malloc, getpeername or getsockname (the length that it reports, none if it
-- fails), realloc, and the second call.
pub record Lookup : Type 0 where
  pub memory : Bool
  pub first : Option ℕ
  pub growth : Bool
  pub second : Option ℕ
  pub name : SockAddr

-- sizeof(struct sockaddr) + INITIAL_SOCKNAME_SLACK
abbrev pub initial_len : ℕ
initial_len = 16 + 108

-- The second call, into the larger buffer.
abbrev pub second_fits : Lookup → ℕ → Bool
second_fits l needed = elim l.second [ none ↦ false | some actual ↦ leb actual needed ]

-- get_peer_sock_name. The first block is `base`, and the one that realloc gives in its place is
-- `base + 1`.
unfoldable pub get_peer_sock_name : Lookup → ℕ → Option (ℕ × SockAddr) × List Heap
get_peer_sock_name l base =
    let larger : ℕ → Option (ℕ × SockAddr) × List Heap = λ needed.
      if l.growth
      then (if second_fits l needed
          then (some (base + 1, l.name), allocated base ∷ freed base ∷ allocated (base + 1) ∷ [])
          else (none, allocated base ∷ freed base ∷ allocated (base + 1) ∷ freed base ∷ []))
      else (none, allocated base ∷ freed base ∷ []) in
    if l.memory
    then (elim l.first [
      | none ↦ (none, allocated base ∷ freed base ∷ [])
      | some actual ↦
          if leb actual initial_len
          then (some (base, l.name), allocated base ∷ [])
          else larger actual
    ])
    else (none, [])
