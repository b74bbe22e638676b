-- ===== src/In/Poll/Laws.antt =====
-- The packets that wait for a request, and how polling takes them.
use androix_xcb_libxcb.Base.{
  ℕ, zero, suc, ◌≡◌, ◌≢◌, inl, inr, refl, ap, sym, ◌∙◌, Bool, true, false, get_or, List, [], ◌∷◌,
  ◌++◌, Option, none, some, length, arith, ◌==◌, if◌then◌else◌, ◌||◌, Bool-cases, head?, ==_refl,
  append-nil, map,
}
use androix_xcb_libxcb.Sequence.{seq_lt32, seq_eq32}
use androix_xcb_libxcb.Chain.{pop, unlink}
use androix_xcb_libxcb.Chain.Laws.{IsLinked, chain_of, chain_of-eq, unlink-chain_of}
use androix_xcb_libxcb.Map.{Map, map_put, map_remove}
use androix_xcb_libxcb.Map.Laws.{values, map_put-values, map_remove-values, map_remove_cases}
use androix_xcb_libxcb.Conn.{In, Packet}
use androix_xcb_libxcb.In.Number.Laws.{IsValid}
use androix_xcb_libxcb.In.Poll.{Answer, take_stored, take_current, answer, poll_for_reply}

abbrev pub concat : List (List Packet) → List Packet
concat [] = []
concat (l ∷ ls) = l ++ concat ls

-- At most one list is stored under a key, and it is not empty.
abbrev pub OneList : List (List Packet) → Type 0
OneList [] = Unit
OneList ([] ∷ ls) = ⊥
OneList ((p ∷ ps) ∷ []) = Unit
OneList ((p ∷ ps) ∷ l ∷ ls) = ⊥

-- The packets read for a request and not yet handed out, in the order of arrival.
abbrev pub waiting : In → ℕ → List Packet
waiting i request =
    if seq_lt32 request i.request_read
    then concat (values request i.replies)
    else (if seq_eq32 request i.request_read then i.current_reply.nodes else [])

stored_back : List Packet → List (List Packet)
stored_back [] = []
stored_back (p ∷ ps) = (p ∷ ps) ∷ []

-- Taking the first packet of the list stored under a key leaves the others under it.
take_stored_lem :
    (i : In) (request : ℕ) (p : Packet) (ps : List Packet)
    → IsLinked i.replies
    → values request i.replies ≡ (p ∷ ps) ∷ []
    → (m : Map (List Packet)) × (take_stored i request true ≡ (some p, record i { replies = m }))
      × (values request m ≡ stored_back ps)
      × IsLinked m
unfolding take_stored stored_back
take_stored_lem i request p [] h e =
    let r = map_remove-values i.replies request request h in
    let first : (map_remove i.replies request).0 ≡ some (p ∷ []) = r.0 ∙ ap head? e in
    let left = rw (==_refl request, e) at r.1 in
    ((map_remove i.replies request).1, rw (first, take_stored), left, r.2)
take_stored_lem i request p (q ∷ qs) h e =
    let r = map_remove-values i.replies request request h in
    let first : (map_remove i.replies request).0 ≡ some (p ∷ q ∷ qs) = r.0 ∙ ap head? e in
    let left = rw (==_refl request, e) at r.1 in
    let m = (map_remove i.replies request).1 in
    let w = map_put-values m request request (q ∷ qs) r.2 in
    let back = rw (==_refl request, left) at w.1 in
    ((map_put m request (q ∷ qs) true).0, rw (first, take_stored), back, w.2)

take_stored-none :
    (i : In) (request : ℕ)
    → IsLinked i.replies
    → values request i.replies ≡ []
    → take_stored i request true ≡ (none, i)
unfolding take_stored
take_stored-none i request h e = elim (map_remove_cases i.replies request h) [
  | inl (r, _) ↦ ground (arith, r)
  | inr (d, m, r, l, v, o) ↦ cc
]

pub take_current_lem :
    (i : In) (p : Packet) (ps : List Packet)
    → IsLinked i.current_reply
    → i.current_reply.nodes ≡ p ∷ ps
    → take_current i ≡ (some p, record i { current_reply = chain_of ps })
unfolding take_current pop
take_current_lem i p ps h e =
    let c : i.current_reply ≡ chain_of (p ∷ ps) = chain_of-eq i.current_reply h ∙ ap chain_of e in
    ground (arith, e, ap (λ k. unlink k 0) c ∙ unlink-chain_of p ps)

OneList-stored_back : (ps : List Packet) → OneList (stored_back ps) × (concat (stored_back ps) ≡ ps)
unfolding stored_back
OneList-stored_back [] = (tt, refl)
OneList-stored_back (p ∷ ps) = (tt, append-nil (p ∷ ps))

concat-eq-cons :
    (ls : List (List Packet)) (p : Packet) (ps : List Packet)
    → OneList ls
    → concat ls ≡ p ∷ ps
    → ls ≡ (p ∷ ps) ∷ []
concat-eq-cons [] p ps o e = cc
concat-eq-cons ([] ∷ ls) p ps o e = absurd o
concat-eq-cons ((q ∷ qs) ∷ []) p ps o e = ap (λ l. l ∷ []) (sym (append-nil (q ∷ qs)) ∙ e)
concat-eq-cons ((q ∷ qs) ∷ l ∷ ls) p ps o e = absurd o

concat-eq-nil : (ls : List (List Packet)) → OneList ls → concat ls ≡ [] → ls ≡ []
concat-eq-nil [] o e = refl
concat-eq-nil ([] ∷ ls) o e = absurd o
concat-eq-nil ((q ∷ qs) ∷ []) o e = cc
concat-eq-nil ((q ∷ qs) ∷ l ∷ ls) o e = absurd o

-- What polling for a request relies on.
pub record Pollable (i : In) (request : ℕ) : Type 0 where
  pub valid : IsValid i
  pub one : OneList (values request i.replies)

-- While packets wait for a request, a poll hands out the first of them, and the others go on waiting.
pub poll_next :
    (i : In) (request : ℕ) (error : Bool) (p : Packet) (ps : List Packet)
    → Pollable i request
    → request ≢ 0
    → waiting i request ≡ p ∷ ps
    → (i' : In) × (poll_for_reply i request error true ≡ (some (answer (some p) error), i'))
      × (waiting i' request ≡ ps)
      × Pollable i' request
      × (i'.request_read ≡ i.request_read)
      × (i'.request_completed ≡ i.request_completed)
unfolding poll_for_reply
poll_next i request error p ps v nz w = elim (Bool-cases (seq_lt32 request i.request_read)) [
  | inl past ↦
      let (m, t, left, linked) =
        take_stored_lem i request p ps v.valid.stored
          (concat-eq-cons (values request i.replies) p ps v.one (rw past at w)) in
      let back = OneList-stored_back ps in
      (
        record i { replies = m },
        ground (arith, past, t),
        rw (past, left) back.1,
        record { valid = ground (arith, v.valid, linked); one = rw left back.0 },
        refl,
        refl,
      )
  | inr now ↦ elim (Bool-cases (seq_eq32 request i.request_read)) [
    | inl same ↦
        let here : i.current_reply.nodes ≡ p ∷ ps = rw (now, same) at w in
        (
          record i { current_reply = chain_of ps },
          ground (arith, now, same, here, take_current_lem i p ps v.valid.current here),
          rw (now, same),
          record { valid = ground (arith, v.valid); one = v.one },
          refl,
          refl,
        )
    | inr other ↦ cc (ap (λ l. l) (rw (now, other) at w))
  ]
]

-- In a valid state with nothing waiting for a request, a poll changes nothing: it says that no reply
-- will come for the request 0, a request before the one now read, and a completed one, and else that
-- one may yet come.
pub poll_empty :
    (i : In) (request : ℕ) (error : Bool)
    → Pollable i request
    → waiting i request ≡ []
    → poll_for_reply i request error true ≡ (
        if request == 0 || (seq_lt32 request i.request_read || seq_eq32 request i.request_completed)
        then (some (answer none error), i)
        else (none, i))
unfolding poll_for_reply
poll_empty i request error v w = elim (Bool-cases (seq_lt32 request i.request_read)) [
  | inl past ↦
      let none_left = concat-eq-nil (values request i.replies) v.one (rw past at w) in
      ground (arith, past, take_stored-none i request v.valid.stored none_left)
  | inr now ↦ elim (Bool-cases (seq_eq32 request i.request_read)) [
    | inl same ↦
        let here : i.current_reply.nodes ≡ [] = rw (now, same) at w in
        ground (arith, now, same, here)
    | inr other ↦ ground (arith, now, other)
  ]
]

-- Polling again and again.
pub drain : ℕ → In → ℕ → List (Option Answer)
drain zero i request = []
drain (suc n) i request = let r = poll_for_reply i request true true in r.0 ∷ drain n r.1 request

-- What a caller gets for a packet: an error, which has 0 as its first byte, if it passed a pointer for
-- one, and else a reply.
abbrev pub handed_out : Packet → Bool → Answer
handed_out p false =
    if get_or p.bytes 0 0 == 0
    then record { reply = none; error = none }
    else record { reply = some p; error = none }
handed_out p true =
    if get_or p.bytes 0 0 == 0
    then record { reply = none; error = some p }
    else record { reply = some p; error = none }

pub answer_lem : (p : Packet) (error : Bool) → answer (some p) error ≡ handed_out p error
unfolding answer
answer_lem p false = ground arith
answer_lem p true = ground arith

-- Polling again and again for a request other than 0, with a pointer for the error, hands out every
-- packet that waits for it once, in the order of arrival, each as an error if its first byte is 0 and
-- else as a reply. Every tail pointer of the input state is at its last link, the map holds at most one
-- list for the request, one that is not empty, and malloc succeeds.
pub drain_lem :
    (l : List Packet) (i : In) (request : ℕ)
    → Pollable i request
    → request ≢ 0
    → waiting i request ≡ l
    → drain (length l) i request ≡ map (λ p. some (handed_out p true)) l
unfolding drain
drain_lem [] i request v nz w = refl
drain_lem (p ∷ ps) i request v nz w =
    let (i', r, w', v', _, _) = poll_next i request true p ps v nz w in
    rw (r, answer_lem p true)
      (ap (◌∷◌ (some (handed_out p true))) (drain_lem ps i' request v' nz w'))
