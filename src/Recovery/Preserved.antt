-- ===== src/Recovery/Preserved.antt =====
-- What `WriteDataInFile1` keeps, the recovery manager keeps.
use real_time_cr.Prelude.{
  ltb, leb, ◌==◌, if◌then◌else◌, Bool-cases, length, get_or, drop, Exec, ok, bind-eq-ok, ℕ, zero,
  suc, ◌≡◌, sym, ap, ◌∙◌, inl, inr, Bool, true, false, some, List, arith, subst,
}
use real_time_cr.Message.{BcastMsg, read_bcast_msg, assign}
use real_time_cr.Recovery.Packets.{
  turn_on, unchanged, Reader, take_member, Parsed, take_response, take_trailer, get_packet_loop,
  Turn, is_generic_order, kept, stopped, advanced, taken,
}
use real_time_cr.Recovery.Turns.{reader_of, turn_of}
use real_time_cr.Recovery.Rounds.{turn-cases}
use real_time_cr.Recovery.Parsing.{stuck}
use real_time_cr.Message.Kind
use real_time_cr.Message.Size

module _ {S : Type 0} (write : BcastMsg → S → Exec S) (P : S → Type 0)
    (keeps : (m : BcastMsg) (s s' : S) → P s → write m s ≡ ok s' → P s') where
  -- The state behind the result of a round.
  TurnKeeps : (List ℕ → Reader S → Exec (Turn S)) → Type 0
  TurnKeeps f =
      (a rest : List ℕ) (r r1 : Reader S) → P r.sink → f a r ≡ ok (advanced rest r1) → P r1.sink

  if-TurnKeeps :
      (c : Bool) (f g : List ℕ → Reader S → Exec (Turn S))
      → TurnKeeps f
      → TurnKeeps g
      → TurnKeeps (λ a r. if c then f a r else g a r)
  unfolding TurnKeeps
  if-TurnKeeps true f g hf hg = hf
  if-TurnKeeps false f g hf hg = hg

  take_member-TurnKeeps : (size : ℕ) → TurnKeeps (take_member write size)
  unfolding TurnKeeps take_member
  take_member-TurnKeeps size a rest r r1 p h = elim (Bool-cases (leb size (length a))) [
    | inr short ↦ absurd (ground arith)
    | inl there ↦
        let (sink, w, e) =
          bind-eq-ok (write (read_bcast_msg (assign size a r.union)) r.sink)
            (λ sink. ok (advanced (drop size a) (taken write size a r sink))) (rw there at h) in
        subst (λ x. P x.sink) (ap (λ t. reader_of r (turn_of t)) e)
          (keeps (read_bcast_msg (assign size a r.union)) r.sink sink p w)
  ]

  take_trailer-TurnKeeps : TurnKeeps (take_trailer write)
  unfolding TurnKeeps take_trailer
  take_trailer-TurnKeeps a rest r r1 p h =
      elim (Bool-cases (leb Size.mst_data_trailer (length a))) [
        | inr short ↦ absurd (ground arith)
        | inl there ↦ subst (λ x. P x.sink) (ap (λ t. reader_of r (turn_of t)) (rw there at h)) p
      ]

  take_response-TurnKeeps : TurnKeeps (take_response write)
  unfolding TurnKeeps take_response
  take_response-TurnKeeps a rest r r1 p h = let same : r ≡ r1 = ground arith in rw (← same) p

  nothing-TurnKeeps : TurnKeeps (λ _ _. ok unchanged)
  unfolding TurnKeeps
  nothing-TurnKeeps a rest r r1 p h = cc

  turn-TurnKeeps : (kind : ℕ) → TurnKeeps (turn_on write kind)
  unfolding turn_on
  turn-TurnKeeps kind = if-TurnKeeps (kind == Kind.recovery_response) _ _ take_response-TurnKeeps (
      if-TurnKeeps (is_generic_order write kind) _ _ (take_member-TurnKeeps 38) (
        if-TurnKeeps (kind == Kind.trade_message) _ _ (take_member-TurnKeeps 45) (
          if-TurnKeeps (kind == Kind.spread_trade_message) _ _ (take_member-TurnKeeps 45) (
            if-TurnKeeps (kind == Kind.begin_of_master) _ _ (take_member-TurnKeeps 13) (
              if-TurnKeeps (kind == Kind.contract_information) _ _ (take_member-TurnKeeps 41) (
                if-TurnKeeps (kind == Kind.spread_information) _ _ (take_member-TurnKeeps 19) (
                  if-TurnKeeps (kind == Kind.end_of_master) _ _ take_trailer-TurnKeeps
                    nothing-TurnKeeps)))))))

  abbrev pub sink_of : Parsed S → S
  sink_of (kept rest r) = r.sink
  sink_of (stopped r) = r.sink

  pub loop-keeps :
      (fuel : ℕ) (a : List ℕ) (r : Reader S) (q : Parsed S)
      → P r.sink
      → get_packet_loop write fuel a r ≡ ok (some q)
      → P (sink_of q)
  unfolding get_packet_loop TurnKeeps
  loop-keeps zero a r q p h = cc
  loop-keeps (suc fuel) a r q p h = elim (Bool-cases (ltb (length a) Size.msg_header)) [
    | inl short ↦ ended (kept a r) p (rw (get_packet_loop, short) at h)
    | inr header ↦ elim (turn-cases write a r) [
      | inl (rest, r1, t) ↦
          loop-keeps fuel rest r1 q (turn-TurnKeeps (get_or a 8 0) a rest r r1 p t)
            (rw (get_packet_loop, header, t) at h)
      | inr (inl t) ↦ ended (kept a r) p (rw (get_packet_loop, header, t) at h)
      | inr (inr (inl t)) ↦ let e = sym (stuck write (suc fuel) a r header t) ∙ h in cc
      | inr (inr (inr (inl t))) ↦ ended (stopped r) p (rw (get_packet_loop, header, t) at h)
      | inr (inr (inr (inr (e, t)))) ↦ let f = rw (get_packet_loop, header, t) at h in cc
    ]
  ]
    where
      ended : (x : Parsed S) → P (sink_of x) → ok (some x) ≡ ok (some q) → P (sink_of q)
      ended x px e = let same : x ≡ q = ground arith in subst (λ y. P (sink_of y)) same px
