-- ===== src/Ext/Entry.antt =====
-- The steps of xcb_get_extension_data, on the entry of one extension.
use androix_xcb_libxcb.Base.{
  ℕ, suc, ◌-◌, ◌<◌, ◌≡◌, ◌≢◌, ◌⊎◌, inl, inr, refl, ◌∙◌, ap, true, List, Option, none, some, ◌==◌,
  ==_iff, if◌then◌else◌, get_or, length, length-set, arith, Bool-cases,
}
use mathlib.Core.Path.{subst}
use androix_xcb_libxcb.Conn.{Lazy, lazy_none, lazy_cookie, lazy_forced}
use androix_xcb_libxcb.Ext.{QueryExtension, Ext, assign_id, get_index, query, get_lazyreply, force}
use androix_xcb_libxcb.Ext.Laws.{
  IsValid, cached, get_index_lem, set_slot, set_slot-cached, assign_id-cached, assign_id-IsNumbered,
}

-- The three states of a lazy value.
pub Lazy-cases :
    {A : Type 0} (l : Lazy A)
    → (l ≡ lazy_none) ⊎ (((k : ℕ) × (l ≡ lazy_cookie k)) ⊎ ((a : A) × (l ≡ lazy_forced a)))
Lazy-cases lazy_none = inl refl
Lazy-cases (lazy_cookie k) = inr (inl (k, refl))
Lazy-cases (lazy_forced a) = inr (inr (a, refl))

module _ {S A : Type 0} (server : QueryExtension S A) where
  -- What is asked for an extension: nothing if it was asked before.
  abbrev pub ask : Lazy (Option A) → S → ℕ → Lazy (Option A) × S
  ask lazy_none s e = let r = server.query_extension s e in (lazy_cookie r.0, r.1)
  ask (lazy_cookie k) s e = (lazy_cookie k, s)
  ask (lazy_forced a) s e = (lazy_forced a, s)

  -- The reply to what was asked.
  abbrev pub await : Lazy (Option A) → S → Option A × S
  await lazy_none s = (none, s)
  await (lazy_cookie k) s = server.query_extension_reply s k
  await (lazy_forced a) s = (a, s)

  -- The cache with the entry of one extension set, in a connection moved on to `s`.
  pub record Moved (c : Ext S A) (e : ℕ) (l : Lazy (Option A)) (s : S) (c' : Ext S A) : Type 0 where
    pub valid : IsValid c'
    pub connection : c'.connection ≡ s
    pub entries : (x : ℕ) → cached c' x ≡ (if x == e then l else cached c x)

  -- The extension has a slot.
  pub record HasSlot (c : Ext S A) (e n : ℕ) : Type 0 where
    pub id : c.ids.global_id e ≡ suc n
    pub room : n < length c.extensions

  unmoved :
      (c : Ext S A) (e : ℕ) (l : Lazy (Option A))
      → IsValid c
      → cached c e ≡ l
      → Moved c e l c.connection c
  unmoved c e l ok same = record {
    valid = ok;
    connection = refl;
    entries = λ x. elim (Bool-cases (x == e)) [
      | inl here ↦ rw (here, (==_iff x e).0 here) same
      | inr other ↦ rw other refl
    ];
  }

  entry-slot :
      (c : Ext S A) (e n : ℕ) → HasSlot c e n → cached c e ≡ get_or c.extensions n lazy_none
  entry-slot c e n h = rw (h.id) refl

  set_slot-Moved :
      (c : Ext S A) (e n : ℕ) (v : Lazy (Option A)) (s : S)
      → IsValid c
      → HasSlot c e n
      → Moved c e v s (set_slot c n v s) × HasSlot (set_slot c n v s) e n
  set_slot-Moved c e n v s ok h =
      let w = set_slot-cached c e n v s ok h.id h.room in
      (
        record { valid = w.0; connection = refl; entries = w.1 },
        record { id = h.id; room = omega (arith, h.room, length-set c.extensions n v) },
      )

  query-Moved :
      (c : Ext S A) (e n : ℕ)
      → IsValid c
      → HasSlot c e n
      → let a = ask (cached c e) c.connection e in
        Moved c e a.0 a.1 (query server c n e) × HasSlot (query server c n e) e n
  unfolding query
  query-Moved c e n ok h = elim (Lazy-cases (get_or c.extensions n lazy_none)) [
    | inl l ↦
        rw (entry-slot c e n h, query, l)
          (set_slot-Moved c e n (lazy_cookie (server.query_extension c.connection e).0)
            (server.query_extension c.connection e).1 ok h)
    | inr (inl (k, l)) ↦
        rw (entry-slot c e n h, query, l)
          (unmoved c e (lazy_cookie k) ok (entry-slot c e n h ∙ l), h)
    | inr (inr (a, l)) ↦
        rw (entry-slot c e n h, query, l)
          (unmoved c e (lazy_forced a) ok (entry-slot c e n h ∙ l), h)
  ]

  -- The slot that get_lazyreply makes sure of.
  prepared :
      (c : Ext S A) (e : ℕ)
      → IsValid c
      → (l : List (Lazy (Option A))) × (get_index c.extensions
            ((assign_id c.ids e).global_id e)
            true
          ≡ some l)
        × (let c' = record c { ids = assign_id c.ids e; extensions = l } in
            IsValid c'
            × ((x : ℕ) → cached c' x ≡ cached c x)
            × HasSlot c' e ((assign_id c.ids e).global_id e - 1))
  prepared c e ok =
      let (numbered, pos) = assign_id-IsNumbered c.ids e ok.numbered in
      let id = (assign_id c.ids e).global_id e in
      let (l, found, room, same) = get_index_lem c.extensions id pos in
      let w = assign_id-cached c e l ok same in
      (l, found, (w.0, w.1, record { id = omega (arith, pos); room = omega (arith, pos, room) }))

  Moved-trans :
      (c d c' : Ext S A) (e : ℕ) (l : Lazy (Option A)) (s : S)
      → ((x : ℕ) → cached d x ≡ cached c x)
      → Moved d e l s c'
      → Moved c e l s c'
  Moved-trans c d c' e l s same m = record {
    valid = m.valid;
    connection = m.connection;
    entries = λ x. m.entries x ∙ ap (λ k. if x == e then l else k) (same x);
  }

  pub Moved-twice :
      (c d c' : Ext S A) (e : ℕ) (k l : Lazy (Option A)) (s t : S)
      → Moved c e k s d
      → Moved d e l t c'
      → Moved c e l t c'
  Moved-twice c d c' e k l s t m m' = record {
    valid = m'.valid;
    connection = m'.connection;
    entries = λ x. elim (Bool-cases (x == e)) [
      | inl here ↦ m'.entries x ∙ rw here refl
      | inr other ↦ m'.entries x ∙ rw other (m.entries x ∙ rw other refl)
    ];
  }

  pub get_lazyreply-Moved :
      (c : Ext S A) (e : ℕ)
      → IsValid c
      → let a = ask (cached c e) c.connection e in
        (n : ℕ) × (c' : Ext S A) × (get_lazyreply server c e true ≡ (some n, c'))
        × Moved c e a.0 a.1 c'
        × HasSlot c' e n
  unfolding get_lazyreply
  get_lazyreply-Moved c e ok =
      let (l, found, (ok', same, slot)) = prepared c e ok in
      let n : ℕ = (assign_id c.ids e).global_id e - 1 in
      let d : Ext S A = record c { ids = assign_id c.ids e; extensions = l } in
      let q =
        subst
          (λ l.
            Moved d e (ask l c.connection e).0 (ask l c.connection e).1 (query server d n e)
            × HasSlot (query server d n e) e n)
          (same e) (query-Moved d e n ok' slot) in
      let a = ask (cached c e) c.connection e in
      (
        n,
        query server d n e,
        rw (found, get_lazyreply) refl,
        Moved-trans c d (query server d n e) e a.0 a.1 same q.0,
        q.1,
      )

  pub force-Moved :
      (c : Ext S A) (e n : ℕ)
      → IsValid c
      → HasSlot c e n
      → cached c e ≢ lazy_none
      → let r = await (cached c e) c.connection in
        ((force server c n).0 ≡ r.0) × Moved c e (lazy_forced r.0) r.1 (force server c n).1
  unfolding force
  force-Moved c e n ok h asked = elim (Lazy-cases (get_or c.extensions n lazy_none)) [
    | inl l ↦ absurd (asked (entry-slot c e n h ∙ l))
    | inr (inl (k, l)) ↦
        let r = server.query_extension_reply c.connection k in
        rw (entry-slot c e n h, force, l)
          (refl, (set_slot-Moved c e n (lazy_forced r.0) r.1 ok h).0)
    | inr (inr (a, l)) ↦
        rw (entry-slot c e n h, force, l)
          (refl, unmoved c e (lazy_forced a) ok (entry-slot c e n h ∙ l))
  ]
