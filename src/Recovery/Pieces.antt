-- ===== src/Recovery/Pieces.antt =====
-- The answer of the recovery server in pieces, as TCP cuts it.
use real_time_cr.Prelude.{
  ltb, leb, ◌==◌, Bool, Bool-cases, length, get_or, drop, All, length-append, get_or-append_lt,
  drop-append_le, drop-all, Exec, ok, bind-eq-ok, ℕ, suc, ◌+◌, ◌-◌, ◌≤◌, ◌<◌, ◌≡◌, refl, sym, ap,
  ◌∙◌, inl, inr, true, false, Option, some, List, [], ◌∷◌, ◌++◌, arith, subst,
}
use mathlib.Core.List.{append_assoc}
use real_time_cr.Message.{BcastMsg, assign}
use real_time_cr.Recovery.Packets.{
  Reader, turn, turn_on, take_member, take_trailer, take_response, advanced, partial_read, kept,
  get_packet_loop, read_packets, moved, get_packet_from_message,
}
use real_time_cr.Recovery.{Progress, World, Recv, receive, close_socket, reader}
use real_time_cr.Recovery.Rounds.{turn-advanced}
use real_time_cr.Recovery.Arrival.{IsShortOf, pieces, left_over, not_whole, AreMovable}
use real_time_cr.Recovery.Moved.{IsMovable, moved-kept}
use real_time_cr.Recovery.Parsing.{enough_fuel}
use real_time_cr.Recovery.Answer.{
  IsMessage, IsResponse, IsBlind, concat, handle, handle_all, reader_with, turn-message,
  switch_by_size, size_bounds, trailer_size,
}
use real_time_cr.Message.Kind

split_append :
    (m a b c : List ℕ)
    → length m ≤ length a
    → a ++ b ≡ m ++ c
    → (a' : List ℕ) × (a ≡ m ++ a') × (a' ++ b ≡ c)
split_append [] a b c le e = (a, refl, e)
split_append (x ∷ m) [] b c le e = absurd (omega arith)
split_append (x ∷ m) (y ∷ a) b c le e =
    let (a', e1, e2) = split_append m a b c (omega arith) (ap (drop 1) e) in
    let head : y ≡ x = ap (λ l. get_or l 0 0) e in (a', rw head (ap (λ l. x ∷ l) e1), e2)

nothing_left : (a b : List ℕ) → a ++ b ≡ [] → a ≡ []
nothing_left [] b e = refl
nothing_left (x ∷ a) b e = absurd (ground arith)

module _ {S : Type 0} (write : BcastMsg → S → Exec S) (garbage : List ℕ) where
  step :
      (a rest : List ℕ) (r r1 : Reader S)
      → 9 ≤ length a
      → turn write a r ≡ ok (advanced rest r1)
      → read_packets write a r ≡ read_packets write rest r1
  unfolding read_packets get_packet_loop
  step a rest r r1 le t =
      let header : ltb (length a) 9 ≡ false = ground arith in
      let (less, _) = turn-advanced write a [] rest r r1 le t in
      rw (get_packet_loop, header, t)
        (enough_fuel write (length a) (suc (length rest)) rest r1 less (omega arith))

  -- The first bytes of a message, and not all of them, are kept.
  pub part_of_message :
      (m a b c : List ℕ) (r : Reader S)
      → IsMessage m
      → a ++ b ≡ m ++ c
      → length a < length m
      → read_packets write a r ≡ ok (some (kept a r))
  unfolding read_packets get_packet_loop take_member take_trailer
  part_of_message m a b c r is e short = elim (Bool-cases (ltb (length a) 9)) [
    | inl no_header ↦ rw (get_packet_loop, no_header) refl
    | inr header ↦
        let kind = get_or m 8 0 in
        let nine : 9 ≤ length a = ground arith in
        let kind_eq : get_or a 8 0 ≡ kind =
          sym (get_or-append_lt a b 8 0 nine)
          ∙ ap (λ l. get_or l 8 0) e
          ∙ get_or-append_lt m c 8 0 (omega arith) in
        let partial : turn write a r ≡ ok partial_read =
          elim (Bool-cases (kind == Kind.end_of_master)) [
            | inl trailer ↦
                let thirteen = trailer_size kind (length m) is trailer in
                let cut : leb 13 (length a) ≡ false = ground arith in
                rw (kind_eq, switch_by_size write garbage kind (length m) a r is, trailer, cut) refl
            | inr other ↦
                let cut : leb (length m) (length a) ≡ false = ground arith in
                rw (kind_eq, switch_by_size write garbage kind (length m) a r is, other, cut) refl
          ] in
        rw (get_packet_loop, header, partial) refl
  ]

  -- What the loop of `GetPacketFromMessage` makes of the bytes `a`, with the bytes `b` still to come: messages are handled,
  -- and fewer bytes than the next one has are kept.
  pub record Cut (ms : List (List ℕ)) (a b u : List ℕ) (q q' : Progress × S) : Type 0 where
    pub rest : List ℕ
    pub union : List ℕ
    pub reached : Progress × S
    pub to_come : List (List ℕ)
    pub read :
        read_packets write a (reader_with write garbage u q)
        ≡ ok (some (kept rest (reader_with write garbage union reached)))
    pub whole : All IsMessage to_come
    pub stream : rest ++ b ≡ concat to_come
    pub short : IsShortOf rest to_come
    pub rest_size : length rest ≡ left_over ms (length a)
    pub to_come_eq : to_come ≡ not_whole ms (length a)
    pub handled : handle_all write garbage to_come reached ≡ ok q'

  pub stream-Cut :
      (ms : List (List ℕ)) (a b u : List ℕ) (q q' : Progress × S)
      → IsBlind write garbage
      → All IsMessage ms
      → a ++ b ≡ concat ms
      → handle_all write garbage ms q ≡ ok q'
      → Cut ms a b u q q'
  unfolding handle_all read_packets get_packet_loop
  stream-Cut [] a b u q q' blind is e h =
      let none_left : a ≡ [] = nothing_left a b e in
      record {
        rest = [];
        union = u;
        reached = q;
        to_come = [];
        read = rw none_left refl;
        whole = tt;
        stream = rw none_left at e;
        short = refl;
        rest_size = refl;
        to_come_eq = refl;
        handled = h;
      }
  stream-Cut (m ∷ ms) a b u q q' blind (is, all) e h =
      elim (Bool-cases (ltb (length a) (length m))) [
        | inl part ↦ record {
          rest = a;
          union = u;
          reached = q;
          to_come = m ∷ ms;
          read =
              part_of_message m a b (concat ms) (reader_with write garbage u q) is e (ground arith);
          whole = (is, all);
          stream = e;
          short = ground arith;
          rest_size = rw part refl;
          to_come_eq = rw part refl;
          handled = h;
        }
        | inr full ↦
            let (low, high) = size_bounds (get_or m 8 0) (length m) is in
            let (a', e1, e2) = split_append m a b (concat ms) (ground arith) e in
            let (q1, k, l) =
              bind-eq-ok (handle write garbage m q) (handle_all write garbage ms) h in
            let u1 = assign (length m) m u in
            let size : length a' ≡ length a - length m =
              omega (arith, ap length e1, length-append m a') in
            let c = stream-Cut ms a' b u1 q1 q' blind all e2 l in
            record {
              rest = c.rest;
              union = c.union;
              reached = c.reached;
              to_come = c.to_come;
              read =
                  step a a' (reader_with write garbage u q) (reader_with write garbage u1 q1)
                    (ground arith) (rw e1 (turn-message write garbage m a' u q q1 blind is k))
                  ∙ c.read;
              whole = c.whole;
              stream = c.stream;
              short = c.short;
              rest_size = rw full (c.rest_size ∙ ap (left_over ms) size);
              to_come_eq = rw full (c.to_come_eq ∙ ap (not_whole ms) size);
              handled = c.handled;
            }
      ]

  pub response_passed :
      (response a : List ℕ) (r : Reader S)
      → IsResponse response
      → read_packets write (response ++ a) r ≡ read_packets write a r
  unfolding turn_on take_response
  response_passed response a r is =
      let there : 10 ≤ length (response ++ a) = omega (arith, length-append response a, is.size) in
      let kind_eq : get_or (response ++ a) 8 0 ≡ Kind.recovery_response =
        get_or-append_lt response a 8 0 (omega (arith, is.size)) ∙ is.kind in
      let status_eq : get_or (response ++ a) 9 0 ≡ get_or response 9 0 =
        get_or-append_lt response a 9 0 (omega (arith, is.size)) in
      let other : (get_or response 9 0 == Kind.recovery_response) ≡ false =
        ground (arith, is.status) in
      let tail : drop 10 (response ++ a) ≡ a =
        drop-append_le 10 response a (omega (arith, is.size))
        ∙ ap (λ l. l ++ a) (drop-all 10 response (omega (arith, is.size))) in
      let enough : leb 10 (length (response ++ a)) ≡ true = ground arith in
      step (response ++ a) a r r (omega arith) (rw (kind_eq, enough, status_eq, other, tail) refl)

  module _ (connection_delay max_packet_count : ℕ) where
    all_received :
        (ms : List (List ℕ)) (pending : List ℕ)
        → All IsMessage ms
        → pending ++ [] ≡ concat ms
        → IsShortOf pending ms
        → ms ≡ []
    all_received [] pending all e short = refl
    all_received (m ∷ ms) pending (is, all) e short =
        absurd (omega (arith, ap length e, length-append pending [], length-append m (concat ms)))

    abbrev pub ended :
        Progress → World S → Progress × S → Exec (Option ((Bool × Progress) × World S))
    ended p w q' = ok (
        some (
          (true, q'.0),
          close_socket write garbage connection_delay max_packet_count (record w { sink = q'.1 }),
        ))

    -- The call on the bytes `bytes`, of which `a` is left behind a response.
    pub one_piece :
        (ms : List (List ℕ)) (a b bytes : List ℕ) (p : Progress) (w : World S) (q' : Progress × S)
        (c : Cut ms a b garbage (p, w.sink) q')
        → read_packets write bytes (reader_with write garbage garbage (p, w.sink))
          ≡ read_packets write a (reader_with write garbage garbage (p, w.sink))
        → IsMovable (length bytes) (left_over ms (length a))
        → get_packet_from_message write garbage bytes
            (reader write garbage connection_delay max_packet_count p w)
          ≡ ok (some (kept c.rest (reader_with write garbage c.union c.reached)))
    unfolding get_packet_from_message
    one_piece ms a b bytes p w q' c passed movable =
        ap (moved write (length bytes)) (passed ∙ c.read)
        ∙ moved-kept write (length bytes) c.rest (reader_with write garbage c.union c.reached)
            (subst (IsMovable (length bytes)) (sym c.rest_size) movable)

    -- The rest of the answer, if the call on the first piece is the one on `a`.
    pub receive-pieces :
        (cs ms : List (List ℕ)) (more : List Recv) (pending : List ℕ) (p : Progress) (w : World S)
        (q' : Progress × S)
        → IsBlind write garbage
        → All IsMessage ms
        → pending ++ concat cs ≡ concat ms
        → IsShortOf pending ms
        → AreMovable 0 ms (length pending) cs
        → handle_all write garbage ms (p, w.sink) ≡ ok q'
        → receive write garbage connection_delay max_packet_count (pieces cs more) pending p w
          ≡ ended p w q'
    unfolding receive handle_all
    receive-pieces [] ms more pending p w q' blind all e short movable h =
        let none_left = all_received ms pending all e short in
        let h1 : ok (p, w.sink) ≡ ok q' = rw none_left at h in
        let same : (p, w.sink) ≡ q' = ground arith in ap (ended p w) same
    receive-pieces (d ∷ cs) ms more pending p w q' blind all e short (now, later) h =
        let c =
          stream-Cut ms (pending ++ d) (concat cs) garbage (p, w.sink) q' blind all
            (append_assoc pending d (concat cs) ∙ e) h in
        let size = length-append pending d in
        let zero_more : 0 + (length pending + length d) ≡ length (pending ++ d) =
          omega (arith, size) in
        let here : IsMovable (length (pending ++ d)) (left_over ms (length (pending ++ d))) =
          subst (λ n. IsMovable n (left_over ms (length (pending ++ d)))) zero_more
            (subst (λ n. IsMovable (0 + (length pending + length d)) (left_over ms n)) (sym size)
              now) in
        let there : AreMovable 0 c.to_come (length c.rest) cs =
          rw (c.to_come_eq, c.rest_size, size) later in
        let run = one_piece ms (pending ++ d) (concat cs) (pending ++ d) p w q' c refl here in
        rw (receive, run)
          (receive-pieces cs c.to_come more c.rest c.reached.0 (record w { sink = c.reached.1 }) q'
            blind c.whole c.stream c.short there c.handled)
