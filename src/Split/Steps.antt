-- ===== src/Split/Steps.antt =====
-- The steps of a round of `SplitTrade`: each comes to its end, and what it keeps.
use real_time_cr.Prelude.{
  leb, ◌==◌, if◌then◌else◌, Bool-cases, length, All, length-append, All-append, Exec, ok, ◌>>=◌, ℕ,
  ◌<◌, ◌≡◌, refl, ap, ◌∙◌, ◌≢◌, ◌⊎◌, inl, inr, Bool, true, false, some, [], ◌∷◌, ◌++◌, arith,
  keep-All,
}
use real_time_cr.Contract.{
  TokenDataStore, IsKnown, OmsScripInfo, has_leg, TradeMsgStore, leg_type, find,
}
use real_time_cr.Split.{
  SplitState, drop_others, reset_extra_details, other_expiry, other_strike, rescan, BcastMsg,
  second_level_order_validation, ExtraDetails, comes_back, is_level, append, push,
}
use real_time_cr.Split.Erased.{
  same_expiry, keep_strike, expiry_of, delete_packet_till_expiry_date-eq,
  delete_packet_till_strike_price-eq, drop_leg, second_level_order_validation-eq,
}
use real_time_cr.Split.Kept.{
  get_extra_details-ok, drop_leg-append, has_leg-append, drop_leg-All, keep_strike-All,
}
use real_time_cr.Split.Details.{reset_extra_details, ExtraDetails}
use real_time_cr.Message.{BcastMsg}
use real_time_cr.Split.Erase.{second_level_order_validation}

-- What each round keeps: the tokens of the open group are known, the instrument type of the last
-- packet is that of a packet in the group, and `P` holds of the open trades and of those cut off.
pub record IsSound (td : TokenDataStore) (P : BcastMsg → Type 0) (s : SplitState) : Type 0 where
  pub known : All (IsKnown td) s.trade_msg_store
  pub last :
      (s.details.last_custom_instrument_type ≡ 0)
      ⊎ (has_leg td s.details.last_custom_instrument_type s.trade_msg_store ≡ true)
  pub held : All P s.trade_msg_store
  pub cut_off : All (All P) s.trade_vector_store

abbrev pub Runs : TokenDataStore → (BcastMsg → Type 0) → Exec SplitState → Type 0
Runs td P r = (s : SplitState) × (r ≡ ok s) × IsSound td P s

module _ (td : TokenDataStore) (P : BcastMsg → Type 0) where
  pub drop_others-Runs :
      (info : OmsScripInfo) (s : SplitState) → IsSound td P s → Runs td P (drop_others td info s)
  unfolding drop_others
  drop_others-Runs info s v =
      let by_expiry = same_expiry td info.expiry_date s.trade_msg_store in
      let by_strike = keep_strike td info.strike_price s.trade_msg_store in
      let known1 =
        keep-All (IsKnown td) (λ m. info.expiry_date == expiry_of td m) s.trade_msg_store v.known in
      let known2 = keep_strike-All td (IsKnown td) info.strike_price s.trade_msg_store v.known in
      let (d1, r1, l1) = get_extra_details-ok td by_expiry reset_extra_details known1 in
      let (d2, r2, l2) = get_extra_details-ok td by_strike reset_extra_details known2 in
      let e1 = delete_packet_till_expiry_date-eq td info.expiry_date s.trade_msg_store v.known in
      let e2 = delete_packet_till_strike_price-eq td info.strike_price s.trade_msg_store v.known in
      elim (Bool-cases (other_expiry info s.details)) [
        | inl x ↦ (
          record s { trade_msg_store = by_expiry; details = d1 },
          rw (x, e1, r1),
          record {
            known = known1;
            last = l1;
            held = keep-All P (λ m. info.expiry_date == expiry_of td m) s.trade_msg_store v.held;
            cut_off = v.cut_off;
          },
        )
        | inr x ↦ elim (Bool-cases (other_strike info s.details)) [
          | inl y ↦ (
            record s { trade_msg_store = by_strike; details = d2 },
            rw (x, y, e2, r2),
            record {
              known = known2;
              last = l2;
              held = keep_strike-All td P info.strike_price s.trade_msg_store v.held;
              cut_off = v.cut_off;
            },
          )
          | inr y ↦ (s, rw (x, y), v)
        ]
      ]

  has_leg-length : (l : ℕ) (ms : TradeMsgStore) → has_leg td l ms ≡ true → 0 < length ms
  has_leg-length l [] h = cc
  has_leg-length l (m ∷ ms) h = omega arith

  pub has_leg-snoc :
      (m : BcastMsg) (xs : TradeMsgStore) → has_leg td (leg_type td m) (xs ++ (m ∷ [])) ≡ true
  has_leg-snoc m xs = ground (arith, has_leg-append td (leg_type td m) xs (m ∷ []))

  -- After a step of a round: the packets are known, `P` holds, and the new packet is there.
  pub record IsOpen (m : BcastMsg) (t : SplitState) : Type 0 where
    pub known : All (IsKnown td) t.trade_msg_store
    pub mine : has_leg td (leg_type td m) t.trade_msg_store ≡ true
    pub held : All P t.trade_msg_store
    pub cut_off : All (All P) t.trade_vector_store

  rescan-ok :
      (n l : ℕ) (pre : TradeMsgStore) (m : BcastMsg) (s : SplitState)
      → s.trade_msg_store ≡ pre ++ (m ∷ [])
      → IsOpen m s
      → has_leg td l pre ≡ true
      → l ≢ n
      → (t : SplitState) × (rescan td n s ≡ ok t) × IsOpen m t
  unfolding rescan
  rescan-ok n l pre m s e o h ne =
      let (x, xs, dropped) = drop_leg-append td n l pre m h ne in
      let kept : TradeMsgStore = x ∷ (xs ++ (m ∷ [])) in
      let dropped' : drop_leg td n s.trade_msg_store ≡ kept = rw e dropped in
      let known : All (IsKnown td) kept =
        rw dropped' at (drop_leg-All td (IsKnown td) n s.trade_msg_store o.known) in
      let held : All P kept = rw dropped' at (drop_leg-All td P n s.trade_msg_store o.held) in
      let (d, run, _) = get_extra_details-ok td kept reset_extra_details known in
      let long : leb (length s.trade_msg_store) 1 ≡ false =
        ground (arith, has_leg-length l pre h, length-append pre (m ∷ []), ap length e) in
      let erased : second_level_order_validation td n s.trade_msg_store ≡ ok kept =
        second_level_order_validation-eq td n s.trade_msg_store o.known
        ∙ rw (long, dropped') refl in
      (
        record s { trade_msg_store = kept; details = d },
        rw (erased, run),
        record {
          known = known;
          mine = ground (arith, has_leg-snoc m (x ∷ xs));
          held = held;
          cut_off = o.cut_off;
        },
      )

  -- What the three cases do before they add the packet; `f` takes its quantity off again.
  abbrev branch :
      OmsScripInfo → Bool → Bool → (ExtraDetails → ExtraDetails) → SplitState → Exec SplitState
  branch info own others f s =
      if comes_back info own others s.details
      then (if is_level s.details
          then ok (push s s.trade_msg_store)
          else (rescan td info.custom_instrument_type s >>= λ t.
              ok (record t { details = f t.details })))
      else ok s

  pub append-IsOpen :
      (info : OmsScripInfo) (m : BcastMsg) (s : SplitState)
      → find td m.token ≡ some info
      → P m
      → IsSound td P s
      → IsOpen m (append m s)
  append-IsOpen info m s e h v = record {
    known = All-append (IsKnown td) s.trade_msg_store (m ∷ []) v.known ((info, e), tt);
    mine = has_leg-snoc m s.trade_msg_store;
    held = All-append P s.trade_msg_store (m ∷ []) v.held (h, tt);
    cut_off = v.cut_off;
  }

  push-IsOpen : (m : BcastMsg) (s : SplitState) → IsOpen m s → IsOpen m (push s s.trade_msg_store)
  push-IsOpen m s o = record {
    known = o.known;
    mine = o.mine;
    held = o.held;
    cut_off =
        All-append (All P) s.trade_vector_store (s.trade_msg_store ∷ []) o.cut_off (o.held, tt);
  }

  pub branch-ok :
      (info : OmsScripInfo) (own others : Bool) (f : ExtraDetails → ExtraDetails) (m : BcastMsg)
      (s : SplitState)
      → IsOpen m (append m s)
      → IsSound td P s
      → (t : SplitState) × (branch info own others f (append m s) ≡ ok t) × IsOpen m t
  branch-ok info own others f m s o v = elim (Bool-cases (comes_back info own others s.details)) [
    | inr stays ↦ (append m s, rw stays, o)
    | inl back ↦ elim (Bool-cases (is_level (append m s).details)) [
      | inl level ↦ (
        push (append m s) (append m s).trade_msg_store,
        rw (back, level),
        push-IsOpen m (append m s) o,
      )
      | inr uneven ↦
          let l = s.details.last_custom_instrument_type in
          let there : has_leg td l s.trade_msg_store ≡ true = elim v.last [
            | inl z ↦ ground arith
            | inr h ↦ h
          ] in
          let (t, run, o') =
            rescan-ok info.custom_instrument_type l s.trade_msg_store m (append m s) refl o there
              (ground arith) in
          (
            record t { details = f t.details },
            rw (back, uneven, run),
            record { known = o'.known; mine = o'.mine; held = o'.held; cut_off = o'.cut_off },
          )
    ]
  ]

  pub IsOpen-IsSound :
      (info : OmsScripInfo) (m : BcastMsg) (t : SplitState) (d : ExtraDetails)
      → find td m.token ≡ some info
      → d.last_custom_instrument_type ≡ info.custom_instrument_type
      → IsOpen m t
      → IsSound td P (record t { details = d })
  IsOpen-IsSound info m t d e same o = record {
    known = o.known;
    last = inr (ground (arith, e, o.mine));
    held = o.held;
    cut_off = o.cut_off;
  }
