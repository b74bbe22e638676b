-- ===== src/Base/Lists.antt =====
-- Lists measured and indexed by native numbers, and predicates on all members of a list.
use Prim.Native.Nat.{ℕ, zero, suc, ◌+◌, ◌-◌, ◌≤◌, ◌<◌, min}
use mathlib.Core.Path.{◌≡◌, refl, ap, sym, ◌∙◌}
use mathlib.Core.List.{List, [], ◌∷◌, ◌++◌}
use mathlib.Core.Option.{Option, none, some, some-injective}
use mathlib.Core.Bool.{Bool, true, false}
use mathlib.Core.Logic.{inl, inr}
use androix_xcb_libxcb.Base.Tests.{if◌then◌else◌, Bool-cases}
use native.Mathlib.Omega.{arith}

module _ {ℓ} {A : Type ℓ} where
  abbrev pub length : List A → ℕ
  length [] = 0
  length (x ∷ xs) = suc (length xs)

  abbrev pub get_elem? : List A → ℕ → Option A
  get_elem? [] i = none
  get_elem? (x ∷ xs) zero = some x
  get_elem? (x ∷ xs) (suc i) = get_elem? xs i

  -- A write out of bounds changes nothing.
  abbrev pub set : List A → ℕ → A → List A
  set [] i v = []
  set (x ∷ xs) zero v = v ∷ xs
  set (x ∷ xs) (suc i) v = x ∷ set xs i v

  abbrev pub get_or : List A → ℕ → A → A
  get_or [] i d = d
  get_or (x ∷ xs) zero d = x
  get_or (x ∷ xs) (suc i) d = get_or xs i d

  abbrev pub take : ℕ → List A → List A
  take zero xs = []
  take (suc n) [] = []
  take (suc n) (x ∷ xs) = x ∷ take n xs

  abbrev pub drop : ℕ → List A → List A
  drop zero xs = xs
  drop (suc n) [] = []
  drop (suc n) (x ∷ xs) = drop n xs

  abbrev pub replicate : ℕ → A → List A
  replicate zero a = []
  replicate (suc n) a = a ∷ replicate n a

  abbrev pub get_option : Option A → A → A
  get_option none d = d
  get_option (some a) d = a

  abbrev pub head? : List A → Option A
  head? [] = none
  head? (x ∷ xs) = some x

  pub length-append : (xs ys : List A) → length (xs ++ ys) ≡ length xs + length ys
  length-append [] ys = omega arith
  length-append (x ∷ xs) ys = omega (arith, length-append xs ys)

  pub length-replicate : (n : ℕ) (a : A) → length (replicate n a) ≡ n
  length-replicate zero a = refl
  length-replicate (suc n) a = ap suc (length-replicate n a)

  pub length-set : (xs : List A) (i : ℕ) (v : A) → length (set xs i v) ≡ length xs
  length-set [] i v = refl
  length-set (x ∷ xs) zero v = refl
  length-set (x ∷ xs) (suc i) v = ap suc (length-set xs i v)

  pub get_elem?-set_self :
      (xs : List A) (i : ℕ) (v : A) → i < length xs → get_elem? (set xs i v) i ≡ some v
  get_elem?-set_self [] i v h = elim h [ ]
  get_elem?-set_self (x ∷ xs) zero v h = refl
  get_elem?-set_self (x ∷ xs) (suc i) v h = get_elem?-set_self xs i v (omega arith)

  pub length-take : (n : ℕ) (xs : List A) → length (take n xs) ≡ min n (length xs)
  length-take zero xs = omega arith
  length-take (suc n) [] = omega arith
  length-take (suc n) (x ∷ xs) = omega (arith, length-take n xs)

  pub length-drop : (n : ℕ) (xs : List A) → length (drop n xs) ≡ length xs - n
  length-drop zero xs = omega arith
  length-drop (suc n) [] = omega arith
  length-drop (suc n) (x ∷ xs) = omega (arith, length-drop n xs)

  pub take-append-drop : (n : ℕ) (xs : List A) → take n xs ++ drop n xs ≡ xs
  take-append-drop zero xs = refl
  take-append-drop (suc n) [] = refl
  take-append-drop (suc n) (x ∷ xs) = ap (◌∷◌ x) (take-append-drop n xs)

  -- Taking all of a list, and a little of two lists joined.
  pub take-all : (n : ℕ) (xs : List A) → length xs ≤ n → take n xs ≡ xs
  take-all zero [] h = refl
  take-all zero (x ∷ xs) h = absurd (omega arith)
  take-all (suc n) [] h = refl
  take-all (suc n) (x ∷ xs) h = ap (◌∷◌ x) (take-all n xs (omega arith))

  pub take-append : (xs ys : List A) (n : ℕ) → n ≡ length xs → take n (xs ++ ys) ≡ xs
  take-append [] ys zero h = refl
  take-append [] ys (suc n) h = absurd (omega arith)
  take-append (x ∷ xs) ys zero h = absurd (omega arith)
  take-append (x ∷ xs) ys (suc n) h = ap (◌∷◌ x) (take-append xs ys n (omega arith))

  pub drop-append : (xs ys : List A) (n : ℕ) → n ≡ length xs → drop n (xs ++ ys) ≡ ys
  drop-append [] ys zero h = refl
  drop-append [] ys (suc n) h = absurd (omega arith)
  drop-append (x ∷ xs) ys zero h = absurd (omega arith)
  drop-append (x ∷ xs) ys (suc n) h = drop-append xs ys n (omega arith)

  abbrev pub All {κ} : (A → Type κ) → List A → Type κ
  All P [] = Unit
  All P (x ∷ xs) = P x × All P xs

  pub All-append {κ} : (P : A → Type κ) (xs ys : List A) → All P xs → All P ys → All P (xs ++ ys)
  All-append P [] ys hx hy = hy
  All-append P (x ∷ xs) ys hx hy = (hx.0, All-append P xs ys hx.1 hy)

  -- The elements from the first that fails the test on.
  abbrev pub drop_while : (A → Bool) → List A → List A
  drop_while p [] = []
  drop_while p (x ∷ xs) = if p x then drop_while p xs else x ∷ xs

  -- `after` is what is left of `before` when the longest prefix that passes the test is dropped.
  pub record Dropped (p : A → Bool) (before after : List A) : Type ℓ where
    pub gone : List A
    pub split : before ≡ gone ++ after
    pub all_pass : All (λ x. p x ≡ true) gone
    pub stops : (x : A) → head? after ≡ some x → p x ≡ false

  pub drop_while-Dropped : (p : A → Bool) (l : List A) → Dropped p l (drop_while p l)
  drop_while-Dropped p [] = record { gone = []; split = refl; all_pass = tt; stops = λ x e. cc }
  drop_while-Dropped p (x ∷ xs) = elim (Bool-cases (p x)) [
    | inl pass ↦ rw pass (
        let r = drop_while-Dropped p xs in
        record {
          gone = x ∷ r.gone;
          split = ap (◌∷◌ x) r.split;
          all_pass = (pass, r.all_pass);
          stops = r.stops;
        })
    | inr fail ↦ rw fail (record {
      gone = [];
      split = refl;
      all_pass = tt;
      stops = λ y e. ap p (sym (some-injective _ _ e)) ∙ fail;
    })
  ]

  pub take-plus :
      (bs t : List A) (n : ℕ) → length bs ≤ n → take n (bs ++ t) ≡ bs ++ take (n - length bs) t
  take-plus [] t n h = ap (λ k. take k t) (omega arith)
  take-plus (b ∷ bs) t zero h = absurd (omega arith)
  take-plus (b ∷ bs) t (suc n) h =
      ap (◌∷◌ b) (take-plus bs t n (omega arith)) ∙ ap (λ k. b ∷ (bs ++ take k t)) (omega arith)

  pub drop-plus :
      (bs t : List A) (n : ℕ) → length bs ≤ n → drop n (bs ++ t) ≡ drop (n - length bs) t
  drop-plus [] t n h = ap (λ k. drop k t) (omega arith)
  drop-plus (b ∷ bs) t zero h = absurd (omega arith)
  drop-plus (b ∷ bs) t (suc n) h = drop-plus bs t n (omega arith) ∙ ap (λ k. drop k t) (omega arith)

  pub take-part : (bs t : List A) (n : ℕ) → n ≤ length bs → take n (bs ++ t) ≡ take n bs
  take-part bs t zero h = refl
  take-part [] t (suc n) h = absurd (omega arith)
  take-part (b ∷ bs) t (suc n) h = ap (◌∷◌ b) (take-part bs t n (omega arith))

  pub drop-part : (bs t : List A) (n : ℕ) → n ≤ length bs → drop n (bs ++ t) ≡ drop n bs ++ t
  drop-part bs t zero h = refl
  drop-part [] t (suc n) h = absurd (omega arith)
  drop-part (b ∷ bs) t (suc n) h = drop-part bs t n (omega arith)

  pub drop-all : (n : ℕ) (xs : List A) → length xs ≤ n → drop n xs ≡ []
  drop-all zero [] h = refl
  drop-all zero (x ∷ xs) h = absurd (omega arith)
  drop-all (suc n) [] h = refl
  drop-all (suc n) (x ∷ xs) h = drop-all n xs (omega arith)

  pub drop-nil : (n : ℕ) → drop n [] ≡ []
  drop-nil zero = refl
  drop-nil (suc n) = refl

  pub drop-drop : (m n : ℕ) (xs : List A) → drop n (drop m xs) ≡ drop (m + n) xs
  drop-drop zero n xs = ap (λ k. drop k xs) (omega arith)
  drop-drop (suc m) n [] = drop-nil n ∙ sym (drop-nil (suc m + n))
  drop-drop (suc m) n (x ∷ xs) =
      drop-drop m n xs ∙ ap (λ k. drop k (x ∷ xs)) {x = suc (m + n)} (omega arith)
