-- ===== src/Feed/Blind.antt =====
-- `WriteDataInFile1` looks at no byte of the union behind the message.
use real_time_cr.Prelude.{
  ◌==◌, ==_iff, Bool-cases, length, get_or, take, drop, length-drop, take-append_le, drop-append_le,
  take-all, ok, ℕ, zero, suc, ◌+◌, ◌%◌, ◌≤◌, ◌≡◌, refl, sym, ap, ◌∙◌, inl, inr, true, false, some,
  List, [], ◌∷◌, ◌++◌, arith,
}
use real_time_cr.ShmQueue.{SpscQueue}
use real_time_cr.Writer.Groups.{ConRevTradeDetails}
use real_time_cr.Writer.{Stores, write_data_in_file, on_order, is_order}
use real_time_cr.Feed.{write_data_in_file1}
use real_time_cr.Message.{BcastMsg, read_bcast_msg, assign, field, number}
use real_time_cr.Recovery.Answer.{IsMessage, IsBlind, size_of, size_bounds}
use real_time_cr.Message.Kind

field-append :
    (offset width : ℕ) (m x : List ℕ)
    → offset + width ≤ length m
    → field offset width (m ++ x) ≡ field offset width m
field-append offset width m x le =
    rw
      (
        drop-append_le offset m x (omega arith),
        take-append_le width (drop offset m) x (omega (arith, length-drop offset m)),
      )
      refl

field-assign :
    (m u : List ℕ) (offset width : ℕ)
    → offset + width ≤ length m
    → field offset width (assign (length m) m u) ≡ field offset width m
field-assign m u offset width le =
    rw (take-all (length m) m (omega arith)) (field-append offset width m (drop (length m) u) le)

byte : (k : ℕ) (m : List ℕ) → number (take 1 (drop k m)) ≡ get_or m k 0 % 256
unfolding number
byte zero [] = refl
byte zero (x ∷ m) = omega arith
byte (suc k) [] = refl
byte (suc k) (x ∷ m) = byte k m

trade_size :
    (kind n : ℕ) → size_of kind ≡ some n → (kind % 256 == Kind.trade_message) ≡ true → n ≡ 45
unfolding size_of
trade_size kind n h e = ground arith

-- The fields of the header, and all fields of a trade.
header_fields :
    (m u : List ℕ)
    → 9 ≤ length m
    → ((read_bcast_msg (assign (length m) m u)).strem_id ≡ field 2 2 m)
      × ((read_bcast_msg (assign (length m) m u)).msg_type ≡ get_or m 8 0 % 256)
unfolding read_bcast_msg
header_fields m u le =
    (field-assign m u 2 2 (omega arith), field-assign m u 8 1 (omega arith) ∙ byte 8 m)

pub seq_no-assign :
    (m u : List ℕ) → 9 ≤ length m → (read_bcast_msg (assign (length m) m u)).seq_no ≡ field 4 4 m
unfolding read_bcast_msg
seq_no-assign m u le = field-assign m u 4 4 (omega arith)

trade_fields :
    (m u : List ℕ) → length m ≡ 45 → read_bcast_msg (assign (length m) m u) ≡ read_bcast_msg m
unfolding read_bcast_msg
trade_fields m u size = λ i. record {
  msg_len = field-assign m u 0 2 (omega arith) i;
  strem_id = field-assign m u 2 2 (omega arith) i;
  seq_no = field-assign m u 4 4 (omega arith) i;
  msg_type = field-assign m u 8 1 (omega arith) i;
  timestamp = field-assign m u 9 8 (omega arith) i;
  buy_ord_id = field-assign m u 17 8 (omega arith) i;
  sell_ord_id = field-assign m u 25 8 (omega arith) i;
  token = field-assign m u 33 4 (omega arith) i;
  trade_price = field-assign m u 37 4 (omega arith) i;
  trade_qty = field-assign m u 41 4 (omega arith) i;
}

module _ (spsc : SpscQueue ConRevTradeDetails) (garbage : List ℕ)
    (connection_delay max_packet_count : ℕ) where
  order_by_stream :
      (m m' : BcastMsg) (s : Stores spsc)
      → m.strem_id ≡ m'.strem_id
      → on_order spsc m s ≡ on_order spsc m' s
  unfolding on_order
  order_by_stream m m' s e = rw e refl

  order_case :
      (m : BcastMsg) (s : Stores spsc)
      → is_order spsc m.msg_type ≡ true
      → write_data_in_file spsc m s ≡ on_order spsc m s
  unfolding write_data_in_file
  order_case m s e = rw e refl

  other_case :
      (m : BcastMsg) (s : Stores spsc)
      → is_order spsc m.msg_type ≡ false
      → (m.msg_type == Kind.trade_message) ≡ false
      → write_data_in_file spsc m s ≡ ok s
  unfolding write_data_in_file
  other_case m s e e1 = rw (e, e1) refl

  same_effect :
      (m m' : BcastMsg) (s : Stores spsc)
      → m.msg_type ≡ m'.msg_type
      → m.strem_id ≡ m'.strem_id
      → ((m.msg_type == Kind.trade_message) ≡ true → m ≡ m')
      → write_data_in_file spsc m s ≡ write_data_in_file spsc m' s
  same_effect m m' s type stream trade =
      let order' = ap (is_order spsc) (sym type) in
      let trade' = ap (λ k. k == Kind.trade_message) (sym type) in
      elim (Bool-cases (is_order spsc m.msg_type)) [
        | inl order ↦
            order_case m s order
            ∙ order_by_stream m m' s stream
            ∙ sym (order_case m' s (order' ∙ order))
        | inr other ↦ elim (Bool-cases (m.msg_type == Kind.trade_message)) [
          | inl traded ↦ ap (λ x. write_data_in_file spsc x s) (trade traded)
          | inr rest ↦
              other_case m s other rest ∙ sym (other_case m' s (order' ∙ other) (trade' ∙ rest))
        ]
      ]

  pub write_data_in_file1-IsBlind :
      IsBlind (write_data_in_file1 spsc garbage connection_delay max_packet_count) garbage
  unfolding write_data_in_file1
  write_data_in_file1-IsBlind m u s is =
      let kind = get_or m 8 0 in
      let (low, high) = size_bounds kind (length m) is in
      let (stream, type) = header_fields m u (omega arith) in
      let (stream', type') = header_fields m garbage (omega arith) in
      same_effect (read_bcast_msg (assign (length m) m u))
        (read_bcast_msg (assign (length m) m garbage)) s (type ∙ sym type') (stream ∙ sym stream')
        (λ traded.
          let size =
            trade_size kind (length m) is (ap (λ k. k == Kind.trade_message) (sym type) ∙ traded) in
          trade_fields m u size ∙ sym (trade_fields m garbage size))

  -- A trailer makes `WriteDataInFile1` do nothing, so that it makes no difference that the recovery manager passes over it.
  pub write-trailer :
      (m u : List ℕ) (s : Stores spsc)
      → IsMessage m
      → (get_or m 8 0 == Kind.end_of_master) ≡ true
      → write_data_in_file1 spsc garbage connection_delay max_packet_count
          (read_bcast_msg (assign (length m) m u))
          s
        ≡ ok s
  unfolding write_data_in_file1
  write-trailer m u s is trailer =
      let kind = get_or m 8 0 in
      let (low, high) = size_bounds kind (length m) is in
      let (stream, type) = header_fields m u (omega arith) in
      let e : (read_bcast_msg (assign (length m) m u)).msg_type ≡ Kind.end_of_master =
        type ∙ ap (λ k. k % 256) ((==_iff kind Kind.end_of_master).0 trailer) in
      other_case (read_bcast_msg (assign (length m) m u)) s (ap (is_order spsc) e)
        (ap (λ k. k == Kind.trade_message) e)
