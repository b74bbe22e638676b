-- ===== src/In/Number/Laws.antt =====
-- What the number of a packet says: the request it belongs to, the pending replies that are over.
use androix_xcb_libxcb.Base.{
  ℕ, zero, suc, ◌+◌, ◌-◌, ◌%◌, ◌^◌, ◌≤◌, ◌<◌, ◌≡◌, ◌≢◌, inl, inr, refl, ap, ◌∙◌, Bool, List, [],
  ◌∷◌, ◌++◌, true, false, List-cases, append-nil, ◌&&◌, length, arith, leb, ◌==◌, if◌then◌else◌,
  Bool-cases, drop_while,
}
use androix_xcb_libxcb.Sequence.{u64, u32, seq_le}
use androix_xcb_libxcb.Sequence.Laws.{seq_le_iff, widen16_recovers}
use androix_xcb_libxcb.Chain.{Chain}
use androix_xcb_libxcb.Chain.Laws.{IsLinked, chain_of, chain_of-eq, unlink-chain_of}
use androix_xcb_libxcb.Map.{Map, map_put}
use androix_xcb_libxcb.Map.Laws.{values, map_put-IsLinked, map_put-values}
use androix_xcb_libxcb.Conn.{In, Packet, PendingReply, external_socket_owner}
use androix_xcb_libxcb.In.Number.{
  GenericReply, xcb_error, read_number, store_current, complete_before, is_done, drop_done,
  number_packet,
}

-- A pending reply that is over once all requests up to `completed` are: its last request is one of
-- them, and it is not that of an external socket owner, who may send more.
abbrev pub is_over : ℕ → PendingReply → Bool
is_over completed p = elim p.workaround [
  | external_socket_owner ↦ false
  | _ ↦ seq_le p.last_request completed
]

is_done-is_over : (completed : ℕ) (p : PendingReply) → is_done completed p ≡ is_over completed p
unfolding is_done
is_done-is_over completed p = ground arith

drop_done-chain_of :
    (n completed : ℕ) (l : List PendingReply)
    → length l ≤ n
    → drop_done n completed (chain_of l) ≡ chain_of (drop_while (is_over completed) l)
unfolding drop_done
drop_done-chain_of zero completed [] h = refl
drop_done-chain_of zero completed (p ∷ ps) h = absurd (omega arith)
drop_done-chain_of (suc n) completed [] h = refl
drop_done-chain_of (suc n) completed (p ∷ ps) h = elim (Bool-cases (is_over completed p)) [
  | inl done ↦
      rw (is_done-is_over completed p, done, unlink-chain_of p ps)
        (drop_done-chain_of n completed ps (omega arith))
  | inr more ↦ rw (is_done-is_over completed p, more)
]

-- The loop over the pending replies drops those that are done, up to the first that is not.
pub drop_done_lem :
    (completed : ℕ) (c : Chain PendingReply)
    → IsLinked c
    → drop_done (length c.nodes) completed c ≡ chain_of (drop_while (is_over completed) c.nodes)
drop_done_lem completed c h =
    ap (drop_done (length c.nodes) completed) (chain_of-eq c h)
    ∙ drop_done-chain_of (length c.nodes) completed c.nodes (omega arith)

-- The part of `_xcb_in` that the lists make up is well-formed: each tail pointer is at its last link.
pub record IsValid (i : In) : Type 0 where
  pub current : IsLinked i.current_reply
  pub stored : IsLinked i.replies
  pub events : IsLinked i.events
  pub pending : IsLinked i.pending_replies

-- The request up to which all is done, once a packet with the number `s` has come, but for an error.
abbrev pub completed_at : In → ℕ → ℕ
completed_at i s = if i.request_read == s then i.request_completed else s - 1

-- A list as the only one under its key, or no list, if it is empty or there is no memory for it.
abbrev pub put_away : List Packet → Bool → Bool → List (List Packet)
put_away [] memory here = []
put_away (p ∷ ps) memory here = if memory && here then (p ∷ ps) ∷ [] else []

-- How a packet with the full number `s` and the given type moves the input state; `memory` says
-- whether there is memory for a node of the map.
pub record Numbered (i : In) (s response_type : ℕ) (memory : Bool) (i' : In) : Type 0 where
  pub read : i'.request_read ≡ s
  pub expected : i'.request_expected ≡ (if leb s i.request_expected then i.request_expected else s)
  pub completed :
      i'.request_completed ≡ (if response_type == xcb_error then s else completed_at i s)
  pub pending :
      i'.pending_replies.nodes ≡ drop_while (is_over (completed_at i s)) i.pending_replies.nodes
  pub current : i'.current_reply.nodes ≡ (if i.request_read == s then i.current_reply.nodes else [])
  pub stored :
      (key : ℕ)
      → values key i'.replies
        ≡ values key i.replies
          ++ (if i.request_read == s
              then []
              else put_away i.current_reply.nodes memory (i.request_read % u32 == key))
  pub valid : IsValid i'

module _ (i : In) (s : ℕ) where
  read_number_lem :
      i.request_read ≤ s
      → s < i.request_read + 0x10000
      → s < u64
      → i.request_expected < u64
      → s < i.request_expected + 2 ^ 63
      → i.request_expected < s + 2 ^ 63
      → read_number i (s % 0x10000) ≡ record i {
        request_read = s;
        request_expected = if leb s i.request_expected then i.request_expected else s;
      }
  unfolding read_number
  read_number_lem a b c d e f =
      rw (widen16_recovers i.request_read s a b c)
        (ground (arith, seq_le_iff s i.request_expected c d e f))

store_current-IsValid :
    (i : In) (lastread : ℕ) (m : Bool) → IsValid i → IsValid (store_current i lastread m)
unfolding store_current
store_current-IsValid i lastread m v =
    ground (arith, map_put-IsLinked i.replies (lastread % u32) i.current_reply.nodes m v.stored)

complete_before-IsValid :
    (i : In) (lastread : ℕ) (m : Bool) → IsValid i → IsValid (complete_before i lastread m)
unfolding complete_before
complete_before-IsValid i lastread m v = ground (arith, store_current-IsValid i lastread m v)

pub number_packet-IsValid :
    (k : ℕ) (i : In) (rep : GenericReply) (m : Bool) → IsValid i → IsValid (number_packet k i rep m)
unfolding number_packet read_number
number_packet-IsValid k i rep m v =
    let j = complete_before (read_number i rep.sequence) i.request_read m in
    ground (
      arith,
      complete_before-IsValid (read_number i rep.sequence) i.request_read m,
      drop_done_lem j.request_completed j.pending_replies,
    )

-- store_current touches the current reply and the map only
store_current_rest :
    (i : In) (lastread : ℕ) (m : Bool)
    → let j = store_current i lastread m in
      (j.request_read ≡ i.request_read)
      × (j.request_expected ≡ i.request_expected)
      × (j.pending_replies ≡ i.pending_replies)
      × (j.current_reply.nodes ≡ [])
unfolding store_current
store_current_rest i lastread m = ground arith

map_put-refused :
    (m : Map (List Packet)) (key : ℕ) (d : List Packet) → (map_put m key d false).0 ≡ m
unfolding map_put
map_put-refused m key d = refl

store_current-values :
    (i : In) (lastread : ℕ) (m : Bool) (key : ℕ)
    → IsLinked i.replies
    → values key (store_current i lastread m).replies
      ≡ values key i.replies ++ put_away i.current_reply.nodes m (lastread % u32 == key)
unfolding store_current
store_current-values i lastread true key v = elim (List-cases i.current_reply.nodes) [
  | inl e ↦ rw (e, append-nil (values key i.replies))
  | inr (p, ps, e) ↦
      let w = map_put-values i.replies (lastread % u32) key i.current_reply.nodes v in
      ground (arith, e, w.1, append-nil (values key i.replies))
]
store_current-values i lastread false key v = elim (List-cases i.current_reply.nodes) [
  | inl e ↦ rw (e, append-nil (values key i.replies))
  | inr (p, ps, e) ↦ ground (
    arith,
    e,
    append-nil (values key i.replies),
    map_put-refused i.replies (lastread % u32) i.current_reply.nodes,
  )
]

-- The input state after lines 102 to 118.
record Advanced (i : In) (s : ℕ) (m : Bool) (j : In) : Type 0 where
  read : j.request_read ≡ s
  expected : j.request_expected ≡ (if leb s i.request_expected then i.request_expected else s)
  completed : j.request_completed ≡ completed_at i s
  pending : j.pending_replies ≡ i.pending_replies
  stored :
      (key : ℕ)
      → values key j.replies
        ≡ values key i.replies
          ++ (if i.request_read == s
              then []
              else put_away i.current_reply.nodes m (i.request_read % u32 == key))
  current : j.current_reply.nodes ≡ (if i.request_read == s then i.current_reply.nodes else [])

complete_before-Advanced :
    (i j : In) (s : ℕ) (m : Bool)
    → IsLinked i.replies
    → i.request_read ≤ s
    → s < u64
    → j ≡ record i {
      request_read = s;
      request_expected = if leb s i.request_expected then i.request_expected else s;
    }
    → Advanced i s m (complete_before j i.request_read m)
unfolding complete_before
complete_before-Advanced i j s m v a c e =
    let r : ℕ = if leb s i.request_expected then i.request_expected else s in
    let k = record i { request_read = s; request_expected = r } in
    let rest = store_current_rest j i.request_read m in
    record {
      read = ground (arith, rest);
      expected = ground (arith, rest);
      completed = ground (arith, rest);
      pending = ground (arith, rest);
      stored = λ key. elim (Bool-cases (i.request_read == s)) [
        | inl same ↦
            let t : (s == i.request_read) ≡ true = ground (arith, same) in
            rw (e, same, t, append-nil (values key i.replies))
        | inr other ↦
            let t : (s == i.request_read) ≡ false = ground (arith, other) in
            rw (e, other, t) (store_current-values k i.request_read m key v)
      ];
      current = ground (arith, rest);
    }

-- A packet whose number is the low half of `s` is counted under `s`, if `s` is the last number read
-- or less than 2 ^ 16 after it (and below 2 ^ 64, and less than 2 ^ 63 from the number expected):
-- `s` becomes the number read, and the number expected if that is lower; all requests before `s` are
-- complete, and `s` too for an error; the current reply is closed if it belongs to another request;
-- if there is memory its packets go into the map under the number of that request, at the end of the
-- lists for it, and the lists of the map are otherwise as they were; the pending replies lose the
-- longest prefix that is complete by then, those of an external socket owner never being complete;
-- and the tail pointers, all at their last links before, still are. The type must not be that of the
-- event without a number.
pub number_packet_lem :
    (keymap_notify : ℕ) (i : In) (s : ℕ) (rep : GenericReply) (m : Bool)
    → IsValid i
    → rep.response_type % 0x80 ≢ keymap_notify
    → rep.sequence ≡ s % 0x10000
    → i.request_read ≤ s
    → s < i.request_read + 0x10000
    → s < u64
    → i.request_expected < u64
    → s < i.request_expected + 2 ^ 63
    → i.request_expected < s + 2 ^ 63
    → Numbered i s rep.response_type m (number_packet keymap_notify i rep m)
unfolding number_packet
number_packet_lem k i s rep m v nk q a b c d e f =
    let j = complete_before (read_number i rep.sequence) i.request_read m in
    let numbered : read_number i rep.sequence ≡ _ =
      ap (read_number i) q ∙ read_number_lem i s a b c d e f in
    let adv = complete_before-Advanced i (read_number i rep.sequence) s m v.stored a c numbered in
    ground (
      arith,
      number_packet-IsValid k i rep m v,
      drop_done_lem j.request_completed j.pending_replies,
      adv.read,
      adv.stored,
      adv.expected,
      adv.completed,
      adv.pending,
      adv.current,
    )

-- The header of a packet leaves the queue and the events alone.
pub number_packet_rest :
    (k : ℕ) (i : In) (rep : GenericReply) (m : Bool)
    → let j = number_packet k i rep m in (j.queue ≡ i.queue) × (j.events ≡ i.events)
unfolding number_packet complete_before store_current read_number
number_packet_rest k i rep m = ground arith
