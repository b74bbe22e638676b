-- ===== src/Ext/Laws.antt =====
-- The cache as a map from extensions to lazy replies.
use androix_xcb_libxcb.Base.{
  ℕ, zero, suc, ◌-◌, ◌*◌, ◌≤◌, ◌<◌, ◌≡◌, ◌≢◌, inl, inr, refl, ◌∙◌, ap, true, List, [], ◌∷◌, ◌++◌,
  Option, some, ltb, ltb→lt, ltb→le, ◌==◌, if◌then◌else◌, get_or, set, replicate, length, arith,
  ==_iff, Bool-cases, length-append, length-replicate,
}
use androix_xcb_libxcb.Conn.{Lazy, lazy_none}
use androix_xcb_libxcb.Ext.{Ids, Ext, assign_id, get_index}

-- Ids are not above the counter, and no two extensions have the same id.
pub record IsNumbered (ids : Ids) : Type 0 where
  pub bound : (e : ℕ) → ids.global_id e ≤ ids.next_global_id
  pub distinct : (e e' : ℕ) → 0 < ids.global_id e → ids.global_id e ≡ ids.global_id e' → e ≡ e'

module _ {A : Type 0} where
  abbrev pub unasked : Lazy (Option A)
  unasked = lazy_none

  -- The entry for an id, in a cache of the connection.
  abbrev pub entry : List (Lazy (Option A)) → ℕ → Lazy (Option A)
  entry l zero = lazy_none
  entry l (suc n) = get_or l n lazy_none

  get_or-set :
      (l : List (Lazy (Option A))) (n : ℕ) (v : Lazy (Option A))
      → n < length l
      → get_or (set l n v) n lazy_none ≡ v
  get_or-set [] n v h = absurd (omega arith)
  get_or-set (x ∷ l) zero v h = refl
  get_or-set (x ∷ l) (suc n) v h = get_or-set l n v (omega arith)

  get_or-set_other :
      (l : List (Lazy (Option A))) (n k : ℕ) (v : Lazy (Option A))
      → n ≢ k
      → get_or (set l n v) k lazy_none ≡ get_or l k lazy_none
  get_or-set_other [] n k v h = refl
  get_or-set_other (x ∷ l) zero zero v h = absurd (h refl)
  get_or-set_other (x ∷ l) zero (suc k) v h = refl
  get_or-set_other (x ∷ l) (suc n) zero v h = refl
  get_or-set_other (x ∷ l) (suc n) (suc k) v h = get_or-set_other l n k v (λ e. h (ap suc e))

  get_or-replicate : (n k : ℕ) → get_or (replicate n unasked) k lazy_none ≡ unasked
  get_or-replicate zero k = refl
  get_or-replicate (suc n) zero = refl
  get_or-replicate (suc n) (suc k) = get_or-replicate n k

  get_or-grown :
      (l : List (Lazy (Option A))) (n k : ℕ)
      → get_or (l ++ replicate n lazy_none) k lazy_none ≡ get_or l k lazy_none
  get_or-grown [] n k = get_or-replicate n k
  get_or-grown (x ∷ l) n zero = refl
  get_or-grown (x ∷ l) n (suc k) = get_or-grown l n k

  entry-set :
      (l : List (Lazy (Option A))) (n m : ℕ) (v : Lazy (Option A))
      → suc n ≢ m
      → entry (set l n v) m ≡ entry l m
  entry-set l n zero v h = refl
  entry-set l n (suc m) v h = get_or-set_other l n m v (λ e. h (ap suc e))

  entry-cong :
      (l l' : List (Lazy (Option A))) (m : ℕ)
      → ((k : ℕ) → get_or l' k lazy_none ≡ get_or l k lazy_none)
      → entry l' m ≡ entry l m
  entry-cong l l' zero h = refl
  entry-cong l l' (suc m) h = h m

  -- A slot for an id, all entries as before.
  pub get_index_lem :
      (l : List (Lazy (Option A))) (idx : ℕ)
      → 0 < idx
      → (l' : List (Lazy (Option A))) × (get_index l idx true ≡ some l')
        × (idx ≤ length l')
        × ((k : ℕ) → get_or l' k lazy_none ≡ get_or l k lazy_none)
  unfolding get_index
  get_index_lem l idx pos = elim (Bool-cases (ltb (length l) idx)) [
    | inl short ↦ (
      l ++ replicate (idx * 2 - length l) lazy_none,
      rw short refl,
      omega (
        arith,
        length-append l (replicate (idx * 2 - length l) lazy_none),
        length-replicate (idx * 2 - length l) unasked,
        ltb→lt _ _ short,
      ),
      get_or-grown l (idx * 2 - length l),
    )
    | inr long ↦ (l, rw long refl, ltb→le _ _ long, λ k. refl)
  ]

-- After the assignment the extension has an id, and the ids are as they should be.
pub assign_id-IsNumbered :
    (ids : Ids) (e : ℕ)
    → IsNumbered ids
    → IsNumbered (assign_id ids e) × (0 < (assign_id ids e).global_id e)
unfolding assign_id
assign_id-IsNumbered ids e v = elim (Bool-cases (ids.global_id e == 0)) [
  | inl fresh ↦ rw fresh (
    record {
      bound = λ x. ground (arith, v.bound x);
      distinct = λ x y pos same. ground (arith, v.bound x, v.bound y, v.distinct x y, pos, same);
    },
    ground arith,
  )
  | inr known ↦ rw known (v, ground (arith, known))
]

-- The ids are as they should be, and nothing is kept for an id not yet given.
pub record IsValid {S A : Type 0} (c : Ext S A) : Type 0 where
  pub numbered : IsNumbered c.ids
  pub fresh : (k : ℕ) → c.ids.next_global_id ≤ k → get_or c.extensions k lazy_none ≡ lazy_none

-- What is kept for an extension.
abbrev pub cached : {S A : Type 0} → Ext S A → ℕ → Lazy (Option A)
cached c e = entry c.extensions (c.ids.global_id e)

module _ {S A : Type 0} where
  -- A write to the slot of an extension changes what is kept for that extension only.
  abbrev pub set_slot : Ext S A → ℕ → Lazy (Option A) → S → Ext S A
  set_slot c n v s = record c { extensions = set c.extensions n v; connection = s }

  pub set_slot-cached :
      (c : Ext S A) (e n : ℕ) (v : Lazy (Option A)) (s : S)
      → IsValid c
      → c.ids.global_id e ≡ suc n
      → n < length c.extensions
      → IsValid (set_slot c n v s)
        × ((x : ℕ) → cached (set_slot c n v s) x ≡ (if x == e then v else cached c x))
  set_slot-cached c e n v s ok id room = (
    record {
      numbered = ok.numbered;
      fresh = λ k h.
          get_or-set_other c.extensions n k v (λ q. omega (arith, ok.numbered.bound e, id, h, q))
          ∙ ok.fresh k h;
    },
    λ x. elim (Bool-cases (x == e)) [
      | inl same ↦ rw (same, (==_iff x e).0 same, id) (get_or-set c.extensions n v room)
      | inr other ↦ rw other (
          entry-set c.extensions n (c.ids.global_id x) v
            (λ q. ground (arith, other, ok.numbered.distinct e x (omega (arith, id)) (id ∙ q))))
    ],
  )

  pub assign_id-cached :
      (c : Ext S A) (e : ℕ) (l : List (Lazy (Option A)))
      → IsValid c
      → ((k : ℕ) → get_or l k lazy_none ≡ get_or c.extensions k lazy_none)
      → let c' = record c { ids = assign_id c.ids e; extensions = l } in
        IsValid c' × ((x : ℕ) → cached c' x ≡ cached c x)
  unfolding assign_id
  assign_id-cached c e l ok same =
      let numbered = assign_id-IsNumbered c.ids e ok.numbered in
      elim (Bool-cases (c.ids.global_id e == 0)) [
        | inr known ↦ rw known (
          record { numbered = ok.numbered; fresh = λ k h. same k ∙ ok.fresh k h },
          λ x. entry-cong c.extensions l (c.ids.global_id x) same,
        )
        | inl first ↦
            let numbered' = rw first at numbered.0 in
            let zero_id : c.ids.global_id e ≡ 0 = ground (arith, first) in
            let next = c.ids.next_global_id in
            rw first (
              record {
                numbered = numbered';
                fresh = λ k h. same k ∙ ok.fresh k (omega (arith, h));
              },
              λ x. elim (Bool-cases (x == e)) [
                | inl here ↦
                    rw (here, (==_iff x e).0 here, zero_id)
                      (same next ∙ ok.fresh next (omega arith))
                | inr other ↦ rw other (entry-cong c.extensions l (c.ids.global_id x) same)
              ],
            )
      ]
