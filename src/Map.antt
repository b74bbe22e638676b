-- ===== src/Map.antt =====
-- xcb_list.c: the map of void-pointers, a linked list of keyed nodes with a tail pointer. An
-- argument of type Bool says whether `malloc` succeeds.
pub mod Laws
use androix_xcb_libxcb.Base.{
  ℕ, zero, suc, Bool, true, false, List, [], ◌∷◌, Option, none, some, ◌==◌, if◌then◌else◌,
  replicate,
}
use androix_xcb_libxcb.Chain.{Chain, new, append, unlink}

pub record Node {ℓ} (A : Type ℓ) : Type ℓ where
  pub key : ℕ
  pub content : A

abbrev pub Map {ℓ} : Type ℓ → Type ℓ
Map A = Chain (Node A)

module _ {ℓ} {A : Type ℓ} where
  -- _xcb_map_new
  unfoldable pub map_new : Bool → Option (Map A)
  map_new allocated = if allocated then some new else none

  -- _xcb_map_put; the result is the C function's 0 or 1.
  unfoldable pub map_put : Map A → ℕ → A → Bool → Map A × Bool
  map_put list key content allocated =
      if allocated
      then (append list (record { key = key; content = content }), true)
      else (list, false)

  -- The loop of _xcb_map_remove: the slot of the first node with the key, and the node's data.
  unfoldable pub find_slot : List (Node A) → ℕ → ℕ → Option (ℕ × A)
  find_slot [] key cur = none
  find_slot (n ∷ ns) key cur =
      let rest = find_slot ns key (suc cur) in if n.key == key then some (cur, n.content) else rest

  -- _xcb_map_remove
  unfoldable pub map_remove : Map A → ℕ → Option A × Map A
  unfolding find_slot
  map_remove list key = elim (find_slot list.nodes key 0) [
    | none ↦ (none, list)
    | some (cur, ret) ↦ (some ret, unlink list cur)
  ]

  -- _xcb_map_delete: the data that `do_free` is called on, in order.
  unfoldable pub map_delete : List (Node A) → List A
  map_delete [] = []
  map_delete (cur ∷ next) = cur.content ∷ map_delete next
