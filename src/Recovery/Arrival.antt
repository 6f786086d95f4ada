-- ===== src/Recovery/Arrival.antt =====
-- How TCP cuts the answer of the recovery server, and what is left over of a cut message.
use real_time_cr.Prelude.{ltb, if◌then◌else◌, length, ℕ, ◌+◌, ◌-◌, ◌<◌, ◌≡◌, List, [], ◌∷◌}
use real_time_cr.Recovery.{Recv, chunk, closed}
use real_time_cr.Recovery.Moved.{IsMovable}

-- The bytes are less than the first message to come.
abbrev pub IsShortOf : List ℕ → List (List ℕ) → Type 0
IsShortOf rest [] = rest ≡ []
IsShortOf rest (m ∷ ms) = length rest < length m

-- The pieces as `recv` hands them over, and the end of the stream.
abbrev pub pieces : List (List ℕ) → List Recv → List Recv
pieces [] more = closed ∷ more
pieces (c ∷ cs) more = chunk c ∷ pieces cs more

-- Of the first `n` bytes of the messages: how many belong to the message that is cut, and the messages
-- from that one on.
abbrev pub left_over : List (List ℕ) → ℕ → ℕ
left_over [] n = 0
left_over (m ∷ ms) n =
    let rest = left_over ms (n - length m) in if ltb n (length m) then n else rest

abbrev pub not_whole : List (List ℕ) → ℕ → List (List ℕ)
not_whole [] n = []
not_whole (m ∷ ms) n =
    let rest = not_whole ms (n - length m) in if ltb n (length m) then m ∷ ms else rest

-- With each piece, what is left over of a cut message is no more than what there is in front of it since the
-- last move, or is all there is. `extra` bytes stand in front of the messages, and `pending` bytes of the first one
-- have come before.
abbrev pub AreMovable : (extra : ℕ) → List (List ℕ) → (pending : ℕ) → List (List ℕ) → Type 0
AreMovable extra ms pending [] = Unit
AreMovable extra ms pending (c ∷ cs) =
    IsMovable (extra + (pending + length c)) (left_over ms (pending + length c))
    × AreMovable 0 (not_whole ms (pending + length c)) (left_over ms (pending + length c)) cs
