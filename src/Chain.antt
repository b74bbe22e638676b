-- ===== src/Chain.antt =====
-- The singly linked lists of xcb_list.c and xcb_in.c: a head pointer and a pointer `tail` to the
-- pointer that the next node is written to. A pointer to one of the list's `next` fields (or to its
-- head) is a slot number: slot 0 is the head, slot i + 1 the `next` field of node i.
pub mod Laws
use androix_xcb_libxcb.Base.{
  ℕ, zero, suc, ◌+◌, ◌-◌, List, [], ◌∷◌, ◌++◌, Option, none, some, take, drop, length, leb, ltb,
  ◌==◌, if◌then◌else◌,
}

pub record Chain {ℓ} (A : Type ℓ) : Type ℓ where
  pub nodes : List A
  pub tail : ℕ

module _ {ℓ} {A : Type ℓ} where
  -- head = 0, tail = &head
  abbrev pub new : Chain A
  new = record { nodes = []; tail = 0 }

  -- `*tail = cur; tail = &cur->next;` for a fresh `cur` whose `next` is null. The store replaces all
  -- that followed the slot; a store to the `next` field of a node that was freed is lost.
  unfoldable pub append : Chain A → A → Chain A
  append c x =
      if leb c.tail (length c.nodes)
      then record { nodes = take c.tail c.nodes ++ (x ∷ []); tail = c.tail + 1 }
      else record c { tail = length c.nodes + 2 }

  -- `*cur = (*cur)->next; if(!*cur) tail = cur;` at slot `i`, which holds a node. A `tail` beyond the
  -- node keeps its address, with one node less before it; one at the freed node's own `next` field
  -- dangles, and is given a number past the end.
  unfoldable pub unlink : Chain A → ℕ → Chain A
  unlink c i =
      let rest = drop (suc i) c.nodes in
      let left = take i c.nodes ++ rest in
      let kept : ℕ =
        if leb c.tail i then c.tail else if c.tail == suc i then length left + 1 else c.tail - 1 in
      record { nodes = left; tail = elim rest [ [] ↦ i | _ ∷ _ ↦ kept ] }

  -- `x->next = *slot; *slot = x; if(!x->next) tail = &x->next;` at slot `i`.
  unfoldable pub insert_at : Chain A → ℕ → A → Chain A
  insert_at c i x =
      let rest = drop i c.nodes in
      let kept : ℕ = if leb c.tail i then c.tail else c.tail + 1 in
      record {
        nodes = take i c.nodes ++ (x ∷ rest);
        tail = elim rest [ [] ↦ i + 1 | _ ∷ _ ↦ kept ];
      }

  -- The first node, unlinked by `head = cur->next; if(!cur->next) tail = &head;`.
  unfoldable pub pop : Chain A → Option (A × Chain A)
  unfolding unlink
  pop c = elim c.nodes [ [] ↦ none | x ∷ _ ↦ some (x, unlink c 0) ]
