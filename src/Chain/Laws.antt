-- ===== src/Chain/Laws.antt =====
-- The tail pointer always points at the last link, so that an append goes to the end.
use androix_xcb_libxcb.Base.{
  ℕ, suc, ◌≤◌, ◌<◌, ◌≡◌, refl, ap, List, [], ◌∷◌, ◌++◌, some, take, drop, length, arith, take-all,
  length-append, length-take, length-drop,
}
use androix_xcb_libxcb.Chain.{Chain, append, unlink, insert_at, pop}

module _ {ℓ} {A : Type ℓ} where
  -- The representation invariant of a list with a tail pointer.
  abbrev pub IsLinked : Chain A → Type 0
  IsLinked c = c.tail ≡ length c.nodes

  pub append-nodes : (c : Chain A) (x : A) → IsLinked c → (append c x).nodes ≡ c.nodes ++ (x ∷ [])
  unfolding append
  append-nodes c x h = ground (arith, take-all c.tail c.nodes)

  pub append-IsLinked : (c : Chain A) (x : A) → IsLinked c → IsLinked (append c x)
  unfolding append
  append-IsLinked c x h = ground (arith, take-all c.tail c.nodes, length-append c.nodes (x ∷ []))

  pub unlink-nodes :
      (c : Chain A) (i : ℕ) → (unlink c i).nodes ≡ take i c.nodes ++ drop (suc i) c.nodes
  unfolding unlink
  unlink-nodes c i = refl

  pub unlink-IsLinked :
      (c : Chain A) (i : ℕ) → IsLinked c → i < length c.nodes → IsLinked (unlink c i)
  unfolding unlink
  unlink-IsLinked c i h p = ground (
    arith,
    length-append (take i c.nodes) (drop (suc i) c.nodes),
    length-take i c.nodes,
    length-drop (suc i) c.nodes,
  )

  pub insert_at-IsLinked :
      (c : Chain A) (i : ℕ) (x : A) → IsLinked c → i ≤ length c.nodes → IsLinked (insert_at c i x)
  unfolding insert_at
  insert_at-IsLinked c i x h p = ground (
    arith,
    length-append (take i c.nodes) (x ∷ drop i c.nodes),
    length-take i c.nodes,
    length-drop i c.nodes,
  )

  pub pop-IsLinked :
      (c d : Chain A) (x : A)
      → IsLinked c
      → pop c ≡ some (x, d)
      → IsLinked d × (c.nodes ≡ x ∷ d.nodes)
  unfolding pop unlink
  pop-IsLinked c d x h e = ground arith

  -- A list with its tail pointer where it belongs.
  abbrev pub chain_of : List A → Chain A
  chain_of l = record { nodes = l; tail = length l }

  pub unlink-chain_of : (x : A) (l : List A) → unlink (chain_of (x ∷ l)) 0 ≡ chain_of l
  unfolding unlink
  unlink-chain_of x [] = refl
  unlink-chain_of x (y ∷ l) = ground arith

  pub append-chain_of : (l : List A) (x : A) → append (chain_of l) x ≡ chain_of (l ++ (x ∷ []))
  append-chain_of l x =
      ground (arith, append-nodes (chain_of l) x refl, append-IsLinked (chain_of l) x refl)

  pub chain_of-eq : (c : Chain A) → IsLinked c → c ≡ chain_of c.nodes
  chain_of-eq c h = ap (λ t. record { nodes = c.nodes; tail = t }) h
