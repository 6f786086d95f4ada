-- ===== src/Recovery/Rounds.antt =====
-- The switch of `GetPacketFromMessage` on the message type.
use real_time_cr.Prelude.{
  ◌==◌, length, get_or, Fault, Exec, ok, fault, ℕ, suc, ◌≤◌, ◌≡◌, refl, ◌⊎◌, inl, inr, List, ◌++◌,
  arith, get_or-append_lt,
}
use real_time_cr.Message.{BcastMsg}
use real_time_cr.Recovery.Turns.{
  IsAhead, IsShort, if-IsAhead, if-IsShort, take_response-IsShort, take_response-IsAhead,
  take_member-IsAhead, take_member-IsShort, take_trailer-IsAhead, take_trailer-IsShort,
  unchanged-IsAhead, unchanged-IsShort,
}
use real_time_cr.Recovery.Packets.{
  Reader, turn_on, Turn, turn, advanced, partial_read, is_generic_order, unchanged, refused,
}
use real_time_cr.Message.Kind
use real_time_cr.Message.Size

module _ {S : Type 0} (write : BcastMsg → S → Exec S) where
  switch-IsAhead : (kind : ℕ) → IsAhead (turn_on write kind)
  unfolding turn_on
  switch-IsAhead kind =
      if-IsAhead (kind == Kind.recovery_response) _ _ (take_response-IsAhead write) (
        if-IsAhead (is_generic_order write kind) _ _ (take_member-IsAhead write 37) (
          if-IsAhead (kind == Kind.trade_message) _ _ (take_member-IsAhead write 44) (
            if-IsAhead (kind == Kind.spread_trade_message) _ _ (take_member-IsAhead write 44) (
              if-IsAhead (kind == Kind.begin_of_master) _ _ (take_member-IsAhead write 12) (
                if-IsAhead (kind == Kind.contract_information) _ _ (take_member-IsAhead write 40) (
                  if-IsAhead (kind == Kind.spread_information) _ _ (take_member-IsAhead write 18) (
                    if-IsAhead (kind == Kind.end_of_master) _ _ (take_trailer-IsAhead write)
                      (unchanged-IsAhead S))))))))

  switch-IsShort : (kind : ℕ) → IsShort (turn_on write kind)
  unfolding turn_on
  switch-IsShort kind =
      if-IsShort (kind == Kind.recovery_response) _ _ (take_response-IsShort write) (
        if-IsShort (is_generic_order write kind) _ _ (take_member-IsShort write 38 (omega arith)) (
          if-IsShort (kind == Kind.trade_message) _ _ (take_member-IsShort write 45 (omega arith)) (
            if-IsShort (kind == Kind.spread_trade_message) _ _
              (take_member-IsShort write 45 (omega arith))
              (if-IsShort (kind == Kind.begin_of_master) _ _
                (take_member-IsShort write 13 (omega arith))
                (if-IsShort (kind == Kind.contract_information) _ _
                  (take_member-IsShort write 41 (omega arith))
                  (if-IsShort (kind == Kind.spread_information) _ _
                    (take_member-IsShort write 19 (omega arith))
                    (if-IsShort (kind == Kind.end_of_master) _ _ (take_trailer-IsShort write)
                      (unchanged-IsShort S))))))))

  pub turn-advanced :
      (a b rest : List ℕ) (r r1 : Reader S)
      → Size.msg_header ≤ length a
      → turn write a r ≡ ok (advanced rest r1)
      → (suc (length rest) ≤ length a) × (turn write (a ++ b) r ≡ ok (advanced (rest ++ b) r1))
  unfolding IsAhead
  turn-advanced a b rest r r1 header h =
      rw (get_or-append_lt a b 8 0 header) (switch-IsAhead (get_or a 8 0) a b rest r r1 h)

  pub turn-partial :
      (a : List ℕ) (r : Reader S) → turn write a r ≡ ok partial_read → suc (length a) ≤ Size.trd_msg
  unfolding IsShort
  turn-partial a r h = switch-IsShort (get_or a 8 0) a r h

  -- A round has one of five outcomes.
  abbrev pub Outcome : List ℕ → Reader S → Type 0
  Outcome a r =
      ((rest : List ℕ) × (r1 : Reader S) × (turn write a r ≡ ok (advanced rest r1)))
      ⊎ ((turn write a r ≡ ok partial_read)
          ⊎ ((turn write a r ≡ ok unchanged)
              ⊎ ((turn write a r ≡ ok refused) ⊎ ((e : Fault) × (turn write a r ≡ fault e)))))

  classify :
      (t : Exec (Turn S))
      → ((rest : List ℕ) × (r1 : Reader S) × (t ≡ ok (advanced rest r1)))
        ⊎ ((t ≡ ok partial_read)
            ⊎ ((t ≡ ok unchanged) ⊎ ((t ≡ ok refused) ⊎ ((e : Fault) × (t ≡ fault e)))))
  classify (ok (advanced rest r1)) = inl (rest, r1, refl)
  classify (ok partial_read) = inr (inl refl)
  classify (ok unchanged) = inr (inr (inl refl))
  classify (ok refused) = inr (inr (inr (inl refl)))
  classify (fault e) = inr (inr (inr (inr (e, refl))))

  pub turn-cases : (a : List ℕ) (r : Reader S) → Outcome a r
  turn-cases a r = classify (turn write a r)
