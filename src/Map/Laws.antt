-- ===== src/Map/Laws.antt =====
-- The map refines a function from keys to queues: `values k m` are the data put under `k` and not
-- yet removed, oldest first.
use androix_xcb_libxcb.Base.{
  ℕ, suc, ◌+◌, ◌<◌, ◌≡◌, ◌≢◌, ◌⊎◌, inl, inr, refl, Bool, true, false, List, [], ◌∷◌, ◌++◌, none,
  some, take, drop, length, arith, append-nil, Bool-cases, ◌==◌, if◌then◌else◌, ap, head?, ==_iff,
}
use androix_xcb_libxcb.Chain.{unlink}
use androix_xcb_libxcb.Chain.Laws.{IsLinked, append-nodes, append-IsLinked, unlink-IsLinked}
use androix_xcb_libxcb.Map.{Node, Map, map_put, find_slot, map_remove}

module _ {ℓ} {A : Type ℓ} where
  abbrev pub node_values : ℕ → List (Node A) → List A
  node_values k [] = []
  node_values k (n ∷ ns) = if n.key == k then n.content ∷ node_values k ns else node_values k ns

  abbrev pub values : ℕ → Map A → List A
  values k m = node_values k m.nodes

  node_values-append :
      (k : ℕ) (xs ys : List (Node A))
      → node_values k (xs ++ ys) ≡ node_values k xs ++ node_values k ys
  node_values-append k [] ys = refl
  node_values-append k (x ∷ xs) ys = ground (arith, node_values-append k xs ys)

  -- With memory, and the tail pointer at the last link, `_xcb_map_put` succeeds, adds its data at the end of the queue of its key, leaves
  -- the queues of all other keys as they are, and keeps the tail pointer at the last link.
  pub map_put-values :
      (m : Map A) (key k : ℕ) (d : A)
      → IsLinked m
      → ((map_put m key d true).1 ≡ true)
        × (values k (map_put m key d true).0
            ≡ (if key == k then values k m ++ (d ∷ []) else values k m))
        × IsLinked (map_put m key d true).0
  unfolding map_put
  map_put-values m key k d h =
      let n : Node A = record { key = key; content = d } in
      ground (
        arith,
        append-nodes m n h,
        append-IsLinked m n h,
        node_values-append k m.nodes (n ∷ []),
        append-nil (node_values k m.nodes),
      )

  pub map_put-IsLinked :
      (m : Map A) (key : ℕ) (d : A) (allocated : Bool)
      → IsLinked m
      → IsLinked (map_put m key d allocated).0
  unfolding map_put
  map_put-IsLinked m key d true h = append-IsLinked m (record { key = key; content = d }) h
  map_put-IsLinked m key d false h = h

  -- What `find_slot` finds at `cur + i`: the node at `i`.
  find_slot-lem :
      (ns : List (Node A)) (key cur : ℕ)
      → ((find_slot ns key cur ≡ none) × (node_values key ns ≡ []))
        ⊎ ((i : ℕ) × (d : A) × (find_slot ns key cur ≡ some (cur + i, d))
            × (i < length ns)
            × (node_values key ns ≡ d ∷ node_values key (take i ns ++ drop (suc i) ns))
            × ((k : ℕ) → key ≢ k → node_values k (take i ns ++ drop (suc i) ns) ≡ node_values k ns))
  unfolding find_slot
  find_slot-lem [] key cur = inl (refl, refl)
  find_slot-lem (n ∷ ns) key cur = elim (Bool-cases (n.key == key)) [
    | inl hit ↦ inr (0, n.content, rw hit (ground arith), omega arith, rw hit, λ k ne. ground arith)
    | inr miss ↦ elim (find_slot-lem ns key (suc cur)) [
      | inl (e, v) ↦ inl (rw miss e, rw miss v)
      | inr (i, d, e, h, v, o) ↦ inr (
        suc i,
        d,
        rw (miss, e) (ap (λ c. some (c, d)) (omega arith)),
        omega arith,
        rw miss v,
        λ k ne. ground (arith, o k ne),
      )
    ]
  ]

  pub map_remove_cases :
      (m : Map A) (key : ℕ)
      → IsLinked m
      → (((map_remove m key) ≡ (none, m)) × (values key m ≡ []))
        ⊎ ((d : A) × (m' : Map A) × (map_remove m key ≡ (some d, m'))
            × IsLinked m'
            × (values key m ≡ d ∷ values key m')
            × ((k : ℕ) → key ≢ k → values k m' ≡ values k m))
  unfolding map_remove unlink
  map_remove_cases m key h = elim (find_slot-lem m.nodes key 0) [
    | inl (e, v) ↦ inl (rw (e, map_remove), v)
    | inr (i, d, e, p, v, o) ↦ inr (
      d,
      unlink m i,
      rw (e, map_remove) (ap (λ c. (some d, unlink m c)) (omega arith)),
      unlink-IsLinked m i h p,
      v,
      o,
    )
  ]

  -- In a map whose tail pointer is at the last link, `_xcb_map_remove` returns the oldest data under the key, or null if there is none, and takes
  -- just that out: the queue of the key loses its first element, every other queue keeps all, and
  -- the tail pointer stays at the last link.
  pub map_remove-values :
      (m : Map A) (key k : ℕ)
      → IsLinked m
      → ((map_remove m key).0 ≡ head? (values key m))
        × (values k (map_remove m key).1 ≡ (if key == k then drop 1 (values k m) else values k m))
        × IsLinked (map_remove m key).1
  map_remove-values m key k h = elim (map_remove_cases m key h) [
    | inl (e, v) ↦ rw e (ground (arith, v))
    | inr (d, m', e, l, v, o) ↦
        rw (e, v)
          (
            refl,
            elim (Bool-cases (key == k)) [
              | inl same ↦ rw same (rw (← (==_iff key k).0 same) (rw v refl))
              | inr other ↦ rw other (o k (λ same. ground arith))
            ],
            l,
          )
  ]
