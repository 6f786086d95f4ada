-- ===== src/Split/Safe.antt =====
-- `SplitTrade` has no undefined behaviour on trades whose tokens are all known.
use real_time_cr.Prelude.{
  ◌==◌, Bool-cases, length, All, All-append, ok, ◌≡◌, refl, inl, inr, ◌&&◌, ◌||◌, Option, none,
  some, [], ◌∷◌, arith,
}
use real_time_cr.Contract.{
  TokenDataStore, IsKnown, OmsScripInfo, TradeMsgStore, find, switch, is_unsided, TokenStore,
  TradeVectorStore,
}
use real_time_cr.Split.{
  SplitState, reset_extra_details, BcastMsg, cut, case_fut, case_call, case_put, is_level, append,
  all_traded, sub32, add_fut, add_call, add_put, close_picked, split_one, split_trade, split_all,
  close_level, no_split, refresh,
}
use real_time_cr.Split.Kept.{has_leg-append}
use real_time_cr.Split.Details.{reset_extra_details, add_put, add_fut, add_call}
use real_time_cr.Message.{BcastMsg}
use real_time_cr.Split.Erase.{refresh}
use real_time_cr.Split.InRange.{middle_group-ok, AllPicked}
use real_time_cr.Words.{sub32}
use real_time_cr.Split.Steps.{
  IsSound, IsOpen, Runs, drop_others-Runs, append-IsOpen, branch-ok, IsOpen-IsSound,
}

module _ (td : TokenDataStore) (P : BcastMsg → Type 0) where
  case_fut-Runs :
      (info : OmsScripInfo) (m : BcastMsg) (s : SplitState)
      → find td m.token ≡ some info
      → IsOpen td P m (append m s)
      → IsSound td P s
      → Runs td P (case_fut td info m (append m s))
  unfolding case_fut
  case_fut-Runs info m s e o v =
      let (t, run, o') =
        branch-ok td P info s.details.fut_token (s.details.put_token || s.details.call_token)
          (λ d. record d { fut_qty = sub32 d.fut_qty m.trade_qty }) m s o v in
      (
        record t { details = add_fut info m t.details },
        rw run,
        IsOpen-IsSound td P info m t (add_fut info m t.details) e refl o',
      )

  case_call-Runs :
      (info : OmsScripInfo) (m : BcastMsg) (s : SplitState)
      → find td m.token ≡ some info
      → IsOpen td P m (append m s)
      → IsSound td P s
      → Runs td P (case_call td info m (append m s))
  unfolding case_call
  case_call-Runs info m s e o v =
      let (t, run, o') =
        branch-ok td P info s.details.call_token (s.details.put_token || s.details.fut_token)
          (λ d. record d { call_qty = sub32 d.call_qty m.trade_qty }) m s o v in
      (
        record t { details = add_call info m t.details },
        rw run,
        IsOpen-IsSound td P info m t (add_call info m t.details) e refl o',
      )

  case_put-Runs :
      (info : OmsScripInfo) (m : BcastMsg) (s : SplitState)
      → find td m.token ≡ some info
      → IsOpen td P m (append m s)
      → IsSound td P s
      → Runs td P (case_put td info m (append m s))
  unfolding case_put
  case_put-Runs info m s e o v =
      let (t, run, o') =
        branch-ok td P info s.details.put_token (s.details.call_token || s.details.fut_token)
          (λ d. record d { put_qty = sub32 d.put_qty m.trade_qty }) m s o v in
      (
        record t { details = add_put info m t.details },
        rw run,
        IsOpen-IsSound td P info m t (add_put info m t.details) e refl o',
      )

  close_level-IsSound : (s : SplitState) → IsSound td P s → IsSound td P (close_level s)
  close_level-IsSound s v = record {
    known = tt;
    last = inl refl;
    held = tt;
    cut_off =
        All-append (All P) s.trade_vector_store (s.trade_msg_store ∷ []) v.cut_off (v.held, tt);
  }

  close_picked-IsSound :
      (s : SplitState) (g : Option TradeMsgStore)
      → AllPicked P g
      → IsSound td P s
      → IsSound td P (close_picked s g)
  close_picked-IsSound s none h v = v
  close_picked-IsSound s (some group) h v = record {
    known = tt;
    last = inl refl;
    held = tt;
    cut_off = All-append (All P) s.trade_vector_store (group ∷ []) v.cut_off (h, tt);
  }

  cut-Runs : (s : SplitState) → IsSound td P s → Runs td P (cut td s)
  unfolding cut
  cut-Runs s v = elim (Bool-cases (is_level s.details)) [
    | inl level ↦ (close_level s, rw level, close_level-IsSound s v)
    | inr uneven ↦ elim (Bool-cases (all_traded s.details)) [
      | inr few ↦ (s, rw (uneven, few), v)
      | inl full ↦
          let (g, run, a) = middle_group-ok P s.trade_msg_store v.held td v.known in
          (close_picked s g, rw (uneven, full, run), close_picked-IsSound s g a v)
    ]
  ]

  -- The instrument types 1, 2 and 3, or another one.
  case-Runs :
      (info : OmsScripInfo) (m : BcastMsg) (s : SplitState)
      → find td m.token ≡ some info
      → P m
      → IsSound td P s
      → Runs td P (
          switch info.custom_instrument_type
            (case_fut td info m (append m s))
            (case_call td info m (append m s))
            (case_put td info m (append m s))
            (ok (append m s)))
  case-Runs info m s e h v =
      let o = append-IsOpen td P info m s e h v in
      elim (Bool-cases (info.custom_instrument_type == 1)) [
        | inl one ↦ rw one (case_fut-Runs info m s e o v)
        | inr a ↦ elim (Bool-cases (info.custom_instrument_type == 2)) [
          | inl two ↦ rw (a, two) (case_call-Runs info m s e o v)
          | inr b ↦ elim (Bool-cases (info.custom_instrument_type == 3)) [
            | inl three ↦ rw (a, b, three) (case_put-Runs info m s e o v)
            | inr c ↦
                rw (a, b, c)
                  (
                    append m s,
                    refl,
                    record {
                      known = o.known;
                      last = elim v.last [
                        | inl z ↦ inl z
                        | inr w ↦ inr (
                            ground (
                              arith,
                              has_leg-append td s.details.last_custom_instrument_type
                                  s.trade_msg_store (m ∷ []),
                            ))
                      ];
                      held = o.held;
                      cut_off = o.cut_off;
                    },
                  )
          ]
        ]
      ]

  split_one-Runs :
      (m : BcastMsg) (s : SplitState)
      → IsKnown td m
      → P m
      → IsSound td P s
      → Runs td P (split_one td m s)
  unfolding split_one
  split_one-Runs m s (info, e) h v = elim (Bool-cases (is_unsided m)) [
    | inl u ↦ (
      record s { trade_msg_store = []; details = reset_extra_details },
      rw u,
      record { known = tt; last = inl refl; held = tt; cut_off = v.cut_off },
    )
    | inr sided ↦
        let (s1, r1, v1) =
          drop_others-Runs td P info (record s { scrip = some info })
            (record { known = v.known; last = v.last; held = v.held; cut_off = v.cut_off }) in
        let (s3, r3, v3) = case-Runs info m s1 e h v1 in
        let (s4, r4, v4) = cut-Runs s3 v3 in
        let found : refresh td m s.scrip ≡ some info = ground (arith, e) in
        (s4, rw (sided, found, r1, r3) r4, v4)
  ]

  split_all-Runs :
      (ms : TradeMsgStore) (s : SplitState)
      → All (IsKnown td) ms
      → All P ms
      → IsSound td P s
      → Runs td P (split_all td ms s)
  unfolding split_all
  split_all-Runs [] s k h v = (s, refl, v)
  split_all-Runs (m ∷ ms) s (k, ks) (h, hs) v =
      let (s1, r1, v1) = split_one-Runs m s k h v in
      let (s2, r2, v2) = split_all-Runs ms s1 ks hs v1 in (s2, rw r1 r2, v2)

  -- On trades whose tokens are known `SplitTrade` comes to its end: no null pointer or end iterator
  -- is read through, no index is out of range, and no erasure runs over the end of a vector. What
  -- holds of all the trades holds of all packets of the groups.
  pub split_trade_safe :
      (tokens : TokenStore) (ms : TradeMsgStore)
      → All (IsKnown td) ms
      → All P ms
      → (groups : TradeVectorStore) × (split_trade td tokens ms ≡ ok groups) × All (All P) groups
  unfolding split_trade
  split_trade_safe tokens ms k h =
      let (s, run, v) =
        split_all-Runs ms no_split k h
          (record { known = tt; last = inl refl; held = tt; cut_off = tt }) in
      elim (Bool-cases (length ms == 3 && length tokens == 3)) [
        | inl three ↦ (ms ∷ [], rw three, (h, tt))
        | inr more ↦ (s.trade_vector_store, rw (more, run), v.cut_off)
      ]
