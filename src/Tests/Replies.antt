-- ===== src/Tests/Replies.antt =====
-- The map of replies, polling, discarding, and the socket that comes back.
use androix_xcb_libxcb.Base.{ℕ, ◌≡◌, refl, true, [], ◌∷◌, some, arith, map}
use androix_xcb_libxcb.Chain.Laws.{IsLinked, chain_of}
use androix_xcb_libxcb.Map.{Map, map_put, map_remove}
use androix_xcb_libxcb.Map.Laws.{values, map_put-values, map_remove-values}
use androix_xcb_libxcb.Sequence.{seq_lt32}
use androix_xcb_libxcb.Conn.{Conn, In, Packet, PendingReply, external_socket_owner}
use androix_xcb_libxcb.In.Number.Laws.{IsValid}
use androix_xcb_libxcb.In.Poll.Laws.{Pollable, drain, drain_lem, handed_out}
use androix_xcb_libxcb.Tests.Data.{start, quiet, with_input, packet_with, pending}

abbrev two_keys : Map ℕ
two_keys = chain_of (
    record { key = 5; content = 50 }
    ∷ record { key = 6; content = 60 }
    ∷ record { key = 5; content = 51 }
    ∷ [])

map_put-values_example :
    ((map_put two_keys 5 52 true).1 ≡ true)
    × (values 5 (map_put two_keys 5 52 true).0 ≡ 50 ∷ 51 ∷ 52 ∷ [])
    × IsLinked (map_put two_keys 5 52 true).0
map_put-values_example = map_put-values two_keys 5 5 52 refl

map_remove-values_example :
    ((map_remove two_keys 5).0 ≡ some 50)
    × (values 6 (map_remove two_keys 5).1 ≡ 60 ∷ [])
    × IsLinked (map_remove two_keys 5).1
map_remove-values_example = map_remove-values two_keys 5 6 refl

abbrev one : Packet
one = packet_with (1 ∷ 1 ∷ [])

abbrev two : Packet
two = packet_with (1 ∷ 2 ∷ [])

abbrev problem : Packet
problem = packet_with (0 ∷ 3 ∷ [])

-- Two replies and an error are stored for the request 4, one reply is there for the request 6.
abbrev stocked : In
stocked = record quiet {
  request_expected = 9;
  request_read = 6;
  request_completed = 5;
  current_reply = chain_of (two ∷ []);
  replies = chain_of (record { key = 4; content = one ∷ two ∷ problem ∷ [] } ∷ []);
  events = chain_of (one ∷ two ∷ []);
  pending_replies = chain_of (pending 6 ∷ pending 8 ∷ []);
}

stocked-IsValid : IsValid stocked
stocked-IsValid = record { current = refl; stored = refl; events = refl; pending = refl }

stocked-Pollable : Pollable stocked 4
stocked-Pollable = record { valid = stocked-IsValid; one = tt }

drain_lem_example :
    drain 3 stocked 4 ≡ map (λ p. some (handed_out p true)) (one ∷ two ∷ problem ∷ [])
unfolding seq_lt32
drain_lem_example =
    drain_lem (one ∷ two ∷ problem ∷ []) stocked 4 stocked-Pollable (omega arith) refl

abbrev sending : Conn
sending = record (with_input stocked) { output = record start.output { request = 9 } }

abbrev owned : PendingReply
owned = record (pending 8) { workaround = external_socket_owner }
