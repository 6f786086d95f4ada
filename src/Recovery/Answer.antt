-- ===== src/Recovery/Answer.antt =====
-- The answer of the recovery server: a response and messages, in a stream of bytes that arrives in pieces.
use real_time_cr.Prelude.{
  leb, ◌==◌, ◌||◌, if◌then◌else◌, Bool-cases, length, get_or, drop, length-append, length-drop,
  take-append_le, drop-append_le, get_or-append_lt, take-all, drop-all, Exec, ok, ◌>>=◌, bind-eq-ok,
  ℕ, Bool, ◌≤◌, ◌≡◌, ◌≢◌, refl, ap, ◌∙◌, inl, inr, true, false, Option, none, some, List, [], ◌∷◌,
  ◌++◌, arith,
}
use real_time_cr.Message.{BcastMsg, read_bcast_msg, assign, field}
use real_time_cr.Recovery.Packets.{
  Reader, turn_on, turn, take_member, take_trailer, advanced, taken, take_response, unchanged,
}
use real_time_cr.Recovery.{Progress}
use real_time_cr.Words.{add32}
use real_time_cr.Message.Kind
use real_time_cr.Message.Size

-- The size of a message of the feed, by its type.
abbrev is_order_kind : ℕ → Bool
is_order_kind kind =
    kind == Kind.new_order
    || kind == Kind.order_modification
    || kind == Kind.order_cancellation
    || kind == Kind.spread_new_order
    || kind == Kind.spread_order_modification
    || kind == Kind.spread_order_cancellation

unfoldable pub size_of : ℕ → Option ℕ
size_of kind =
    if is_order_kind kind
    then some Size.generic_ord_msg
    else if kind == Kind.trade_message
    then some Size.trd_msg
    else if kind == Kind.spread_trade_message
    then some Size.trd_msg
    else if kind == Kind.begin_of_master
    then some Size.mst_data_header
    else if kind == Kind.contract_information
    then some Size.contract_info
    else if kind == Kind.spread_information
    then some Size.sprd_contract_info
    else if kind == Kind.end_of_master
    then some Size.mst_data_trailer
    else none

-- The bytes of one whole message.
abbrev pub IsMessage : List ℕ → Type 0
IsMessage m = size_of (get_or m 8 0) ≡ some (length m)

pub size_bounds : (kind n : ℕ) → size_of kind ≡ some n → (13 ≤ n) × (n ≤ 45)
unfolding size_of
size_bounds kind n h = ground arith

size_not_response : (kind n : ℕ) → size_of kind ≡ some n → (kind == Kind.recovery_response) ≡ false
unfolding size_of
size_not_response kind n h = ground arith

pub trailer_size :
    (kind n : ℕ) → size_of kind ≡ some n → (kind == Kind.end_of_master) ≡ true → n ≡ 13
unfolding size_of
trailer_size kind n h e = ground arith

-- The switch of the code, by the size.
pick_by_size :
    {A : Type 0} (kind n : ℕ) (member : ℕ → A) (response trailer unknown : A)
    → size_of kind ≡ some n
    → (if kind == Kind.recovery_response
        then response
        else if is_order_kind kind
        then member Size.generic_ord_msg
        else if kind == Kind.trade_message
        then member Size.trd_msg
        else if kind == Kind.spread_trade_message
        then member Size.trd_msg
        else if kind == Kind.begin_of_master
        then member Size.mst_data_header
        else if kind == Kind.contract_information
        then member Size.contract_info
        else if kind == Kind.spread_information
        then member Size.sprd_contract_info
        else if kind == Kind.end_of_master
        then trailer
        else unknown)
      ≡ (if kind == Kind.end_of_master then trailer else member n)
unfolding size_of
pick_by_size kind n member response trailer unknown h = ground arith

-- The response that lets the request through: 10 bytes of the type `RECOVERY_RESPONSE`, with a status that is not
-- the character of that type.
pub record IsResponse (bytes : List ℕ) : Type 0 where
  pub size : length bytes ≡ 10
  pub kind : get_or bytes 8 0 ≡ Kind.recovery_response
  pub status : get_or bytes 9 0 ≢ Kind.recovery_response

abbrev pub concat : List (List ℕ) → List ℕ
concat [] = []
concat (m ∷ ms) = m ++ concat ms

module _ {S : Type 0} (write : BcastMsg → S → Exec S) (garbage : List ℕ) where
  -- What `WriteDataInFile1` does with one message by itself, and with one after the other. A trailer is not written.
  unfoldable pub write_message : List ℕ → S → Exec S
  write_message m s =
      if get_or m 8 0 == Kind.end_of_master
      then ok s
      else write (read_bcast_msg (assign (length m) m garbage)) s

  unfoldable pub write_messages : List (List ℕ) → S → Exec S
  write_messages [] s = ok s
  write_messages (m ∷ ms) s = write_message m s >>= write_messages ms

  -- The same with the number of the message noted, and one more in the count.
  unfoldable pub handle : List ℕ → Progress × S → Exec (Progress × S)
  unfolding write_message
  handle m (p, s) = write_message m s >>= λ s'.
      ok (record { recovery_count = add32 p.recovery_count 1; last_seq_no = field 4 4 m }, s')

  unfoldable pub handle_all : List (List ℕ) → Progress × S → Exec (Progress × S)
  handle_all [] q = ok q
  handle_all (m ∷ ms) q = handle m q >>= handle_all ms

  -- A member that is there in full is taken off, whatever comes behind it.
  take_member-whole :
      (n : ℕ) (m b : List ℕ) (r : Reader S)
      → length m ≡ n
      → take_member write n (m ++ b) r ≡ (
          write (read_bcast_msg (assign n m r.union)) r.sink >>= λ s.
          ok (advanced b (taken write n m r s)))
  unfolding take_member
  take_member-whole n m b r e =
      let there : leb n (length (m ++ b)) ≡ true = ground (arith, length-append m b) in
      let rest : drop n (m ++ b) ≡ b =
        drop-append_le n m b (omega arith) ∙ ap (λ l. l ++ b) (drop-all n m (omega arith)) in
      rw (there, take-append_le n m b (omega arith), rest) refl

  take_trailer-whole :
      (m b : List ℕ) (r : Reader S)
      → length m ≡ 13
      → take_trailer write (m ++ b) r ≡ ok (advanced b (taken write (length m) m r r.sink))
  unfolding take_trailer
  take_trailer-whole m b r e =
      let there : leb 13 (length (m ++ b)) ≡ true = ground (arith, length-append m b) in
      let rest : drop 13 (m ++ b) ≡ b =
        drop-append_le 13 m b (omega arith) ∙ ap (λ l. l ++ b) (drop-all 13 m (omega arith)) in
      rw (there, take-append_le 13 m b (omega arith), rest, e) refl

  pub switch_by_size :
      (kind n : ℕ) (bytes : List ℕ) (r : Reader S)
      → size_of kind ≡ some n
      → turn_on write kind bytes r ≡ (
          if kind == Kind.end_of_master
          then take_trailer write bytes r
          else take_member write n bytes r)
  unfolding turn_on
  switch_by_size kind n bytes r h =
      pick_by_size kind n (λ k. take_member write k bytes r) (take_response write bytes r)
        (take_trailer write bytes r) (ok unchanged) h

  seq_no-message :
      (m u : List ℕ) → 8 ≤ length m → (read_bcast_msg (assign (length m) m u)).seq_no ≡ field 4 4 m
  unfolding read_bcast_msg
  seq_no-message m u h =
      let tail = drop (length m) u in
      rw
        (
          take-all (length m) m (omega arith),
          drop-append_le 4 m tail (omega arith),
          take-append_le 4 (drop 4 m) tail (omega (arith, length-drop 4 m)),
        )
        refl

  abbrev pub reader_with : List ℕ → Progress × S → Reader S
  reader_with u (p, s) = record {
    union = u;
    last_seq_no = p.last_seq_no;
    count = p.recovery_count;
    sink = s;
  }

  -- What `WriteDataInFile1` does with a whole message does not depend on the bytes behind it in the union.
  abbrev pub IsBlind : Type 0
  IsBlind =
      (m u : List ℕ) (s : S)
      → IsMessage m
      → write (read_bcast_msg (assign (length m) m u)) s
        ≡ write (read_bcast_msg (assign (length m) m garbage)) s

  -- The reader behind a message.
  reader_behind :
      (m b u : List ℕ) (p : Progress) (s s' : S) (q' : Progress × S)
      → 8 ≤ length m
      → ok (record { recovery_count = add32 p.recovery_count 1; last_seq_no = field 4 4 m }, s')
        ≡ ok q'
      → ok (advanced b (taken write (length m) m (reader_with u (p, s)) s'))
        ≡ ok (advanced b (reader_with (assign (length m) m u) q'))
  reader_behind m b u p s s' q' low h =
      let e : (record { recovery_count = add32 p.recovery_count 1; last_seq_no = field 4 4 m }, s')
          ≡ q' =
        ground arith in
      ap
        (λ n. ok (
          advanced b (record {
            union = assign (length m) m u;
            last_seq_no = n;
            count = add32 p.recovery_count 1;
            sink = s';
          })))
        (seq_no-message m u low)
      ∙ ap (λ q. ok (advanced b (reader_with (assign (length m) m u) q))) e

  pub turn-message :
      (m b u : List ℕ) (q q' : Progress × S)
      → IsBlind
      → IsMessage m
      → handle m q ≡ ok q'
      → turn write (m ++ b) (reader_with u q)
        ≡ ok (advanced b (reader_with (assign (length m) m u) q'))
  unfolding handle
  turn-message m b u (p, s) q' blind is h =
      let kind = get_or m 8 0 in
      let (low, high) = size_bounds kind (length m) is in
      let kind_eq : get_or (m ++ b) 8 0 ≡ kind = get_or-append_lt m b 8 0 (omega arith) in
      let switched = switch_by_size kind (length m) (m ++ b) (reader_with u (p, s)) is in
      elim (Bool-cases (kind == Kind.end_of_master)) [
        | inl trailer ↦
            let thirteen = trailer_size kind (length m) is trailer in
            rw (kind_eq, switched, trailer)
              (take_trailer-whole m b (reader_with u (p, s)) thirteen
                ∙ reader_behind m b u p s s q' (omega arith) (rw trailer at h))
        | inr other ↦
            let (s', e, k) =
              bind-eq-ok (write (read_bcast_msg (assign (length m) m garbage)) s) _
                (rw other at h) in
            rw (kind_eq, switched, other)
              (take_member-whole (length m) m b (reader_with u (p, s)) refl
                ∙ rw (blind m u s is, e) (reader_behind m b u p s s' q' (omega arith) k))
      ]
