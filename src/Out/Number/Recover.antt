-- ===== src/Out/Number/Recover.antt =====
-- The numbers of answered requests can be told from their low 16 bits.
use androix_xcb_libxcb.Base.{
  ℕ, ◌+◌, ◌*◌, ◌%◌, ◌≤◌, ◌<◌, ◌≡◌, refl, ap, ◌∙◌, Bool, Option, none, some, List, [], ◌∷◌, ◌++◌,
  map, if◌then◌else◌, arith, length,
}
use androix_xcb_libxcb.Sequence.{u64, widen16}
use androix_xcb_libxcb.Sequence.Laws.{widen16_recovers}
use androix_xcb_libxcb.Conn.{Conn, Workaround, Flags}
use androix_xcb_libxcb.Out.Number.{number_request}
use androix_xcb_libxcb.Out.Number.Laws.{Counted, number_request-Counted}

-- The numbers of the requests that the server answers, beside those before, when a request was
-- numbered: the request for input focus, and the request itself if it has a reply.
abbrev pub answered : Conn → Bool → Bool → List ℕ
answered c isvoid synced =
    let own : List ℕ = if isvoid then [] else (c.output.request + (if synced then 2 else 1)) ∷ [] in
    if synced then (c.output.request + 1) ∷ own else own

-- Numbers that grow by 1 to 2 ^ 16 - 1 at a time, from `e` on.
abbrev pub Gaps : ℕ → List ℕ → Type 0
Gaps e [] = Unit
Gaps e (x ∷ xs) = (e < x) × (x < e + 0x10000) × Gaps x xs

abbrev pub last_of : ℕ → List ℕ → ℕ
last_of e [] = e
last_of e (x ∷ xs) = last_of x xs

-- The number expected trails the number sent by less than 2 ^ 16 - 1.
pub record IsRecoverable (c : Conn) : Type 0 where
  pub behind : c.input.request_expected ≤ c.output.request
  pub near : c.output.request < c.input.request_expected + 0xffff

answered-Gaps :
    (c c' : Conn) (isvoid synced : Bool)
    → IsRecoverable c
    → Counted c isvoid synced c'
    → Gaps c.input.request_expected (answered c isvoid synced)
      × (last_of c.input.request_expected (answered c isvoid synced) ≡ c'.input.request_expected)
      × IsRecoverable c'
answered-Gaps c c' isvoid synced r n = ground arith

-- A request as the numbering sees it; `allocated` says whether malloc gives its pending reply.
pub record Request : Type 0 where
  pub isvoid : Bool
  pub workaround : Workaround
  pub flags : Flags
  pub allocated : Bool

-- Numbering requests one after the other; the list holds the numbers that are answered.
pub number_all : List Request → (ℕ → Bool) → Conn → Option (List ℕ × Conn)
number_all [] m c = some ([], c)
number_all (r ∷ rest) m c = elim (number_request c r.isvoid r.workaround r.flags r.allocated m) [
  | none ↦ none
  | some (synced, c') ↦ elim (number_all rest m c') [
    | none ↦ none
    | some (l, c'') ↦ some (answered c r.isvoid synced ++ l, c'')
  ]
]

-- Reading the low 16 bits of numbers one after the other, each beside the number read before.
pub widen_all : ℕ → List ℕ → List ℕ
widen_all lastread [] = []
widen_all lastread (x ∷ xs) = let s : ℕ = widen16 lastread x in s ∷ widen_all s xs

Gaps-le-last_of : (e : ℕ) (l : List ℕ) → Gaps e l → e ≤ last_of e l
Gaps-le-last_of e [] g = omega arith
Gaps-le-last_of e (x ∷ xs) g = omega (arith, Gaps-le-last_of x xs g.2)

Gaps-append :
    (e : ℕ) (l k : List ℕ)
    → Gaps e l
    → Gaps (last_of e l) k
    → Gaps e (l ++ k) × (last_of e (l ++ k) ≡ last_of (last_of e l) k)
Gaps-append e [] k g h = (h, refl)
Gaps-append e (x ∷ xs) k g h = let r = Gaps-append x xs k g.2 h in ((g.0, g.1, r.0), r.1)

widen_all-Gaps :
    (e : ℕ) (l : List ℕ) → Gaps e l → last_of e l < u64 → widen_all e (map (λ s. s % 0x10000) l) ≡ l
unfolding widen_all
widen_all-Gaps e [] g b = refl
widen_all-Gaps e (x ∷ xs) g b =
    rw (widen16_recovers e x (omega arith) g.1 (omega (arith, Gaps-le-last_of x xs g.2)))
      (ap (◌∷◌ x) (widen_all-Gaps x xs g.2 b))

number_all-cons :
    (q : Request) (rs : List Request) (m : ℕ → Bool) (c c' c'' : Conn) (synced : Bool) (l : List ℕ)
    → number_request c q.isvoid q.workaround q.flags q.allocated m ≡ some (synced, c')
    → number_all rs m c' ≡ some (l, c'')
    → number_all (q ∷ rs) m c ≡ some (answered c q.isvoid synced ++ l, c'')
unfolding number_all
number_all-cons q rs m c c' c'' synced l e e' = rw (e, number_all, e')

number_all-Gaps :
    (rs : List Request) (m : ℕ → Bool) (c : Conn)
    → IsRecoverable c
    → c.output.request + 2 * length rs + 2 < u64
    → (l : List ℕ) × (c' : Conn) × (number_all rs m c ≡ some (l, c'))
      × Gaps c.input.request_expected l
      × (last_of c.input.request_expected l ≡ c'.input.request_expected)
      × IsRecoverable c'
      × (c'.output.request ≤ c.output.request + 2 * length rs)
unfolding number_all
number_all-Gaps [] m c r h = ([], c, refl, tt, refl, r, omega arith)
number_all-Gaps (q ∷ rs) m c r h =
    let (synced, c', e, n) =
      number_request-Counted c q.isvoid q.workaround q.flags q.allocated m (omega arith) r.behind in
    let (g, last, r') = answered-Gaps c c' q.isvoid synced r n in
    let up : c'.output.request ≤ c.output.request + 2 = ground (arith, n.request) in
    let (l, c'', e', g', last', r'', up') = number_all-Gaps rs m c' r' (omega arith) in
    let a = answered c q.isvoid synced in
    let j = Gaps-append c.input.request_expected a l g (rw last g') in
    (
      a ++ l,
      c'',
      number_all-cons q rs m c c' c'' synced l e e',
      j.0,
      j.1 ∙ (ap (λ t. last_of t l) last ∙ last'),
      r'',
      omega arith,
    )

-- Whatever requests are sent, with a reply or without, the numbers of those that the server answers
-- can be told from their low 16 bits: reading these one after the other gives the numbers back, if
-- the counters start less than 2 ^ 16 - 1 apart and stay below the wrap of 64 bits. And the numbering
-- always ends, with the counters less than 2 ^ 16 - 1 apart again.
pub number_all-IsRecoverable :
    (rs : List Request) (m : ℕ → Bool) (c : Conn)
    → IsRecoverable c
    → c.output.request + 2 * length rs + 2 < u64
    → (l : List ℕ) × (c' : Conn) × (number_all rs m c ≡ some (l, c'))
      × (widen_all c.input.request_expected (map (λ s. s % 0x10000) l) ≡ l)
      × IsRecoverable c'
number_all-IsRecoverable rs m c r h =
    let (l, c', e, g, last, r', up) = number_all-Gaps rs m c r h in
    (l, c', e, widen_all-Gaps c.input.request_expected l g (rw last (omega (arith, r'.behind))), r')
