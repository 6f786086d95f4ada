-- ===== src/Recovery/Packets.antt =====
-- recoverymgr.h, `GetPacketFromMessage`: takes messages off the front of the received bytes. The
-- bytes not yet read stand for the position in the buffer. `write` is `WriteDataInFile1` on the state
-- behind it.
use real_time_cr.Prelude.{
  ltb, leb, ◌==◌, ◌!=◌, ◌-◌, overlapping_memcpy, fault, if◌then◌else◌, length, get_or, drop, Exec,
  ok, ◌>>=◌, ℕ, zero, suc, Bool, true, false, ◌&&◌, ◌||◌, Option, none, some, List,
}
use real_time_cr.Message.{BcastMsg, read_bcast_msg, assign, request_success}
use real_time_cr.Words.{add32}
use real_time_cr.Message.Kind
use real_time_cr.Message.Size

-- The variables of one call: the local union, the two references, and the state that `write` changes.
pub record Reader (S : Type 0) : Type 0 where
  pub union : List ℕ
  pub last_seq_no : ℕ
  pub count : ℕ
  pub sink : S

-- One round of the loop: bytes are taken off, a message is not there in full, nothing changes at all,
-- or the function returns -1.
pub data Turn (S : Type 0) : Type 0 where
  advanced : List ℕ → Reader S → Turn S
  partial_read : Turn S
  unchanged : Turn S
  refused : Turn S

-- The function returns 0 with the bytes left over, or returns -1.
pub data Parsed (S : Type 0) : Type 0 where
  kept : List ℕ → Reader S → Parsed S
  stopped : Reader S → Parsed S

module _ {S : Type 0} (write : BcastMsg → S → Exec S) where
  -- `memcpy` of a member into the union, and the update of the references.
  abbrev pub taken : ℕ → List ℕ → Reader S → S → Reader S
  taken size bytes r sink = record {
    union = assign size bytes r.union;
    last_seq_no = (read_bcast_msg (assign size bytes r.union)).seq_no;
    count = add32 r.count 1;
    sink = sink;
  }

  unfoldable pub take_member : ℕ → List ℕ → Reader S → Exec (Turn S)
  take_member size bytes r =
      if leb size (length bytes)
      then (write (read_bcast_msg (assign size bytes r.union)) r.sink >>= λ sink.
          ok (advanced (drop size bytes) (taken size bytes r sink)))
      else ok partial_read

  -- The trailer is counted and not written.
  unfoldable pub take_trailer : List ℕ → Reader S → Exec (Turn S)
  take_trailer bytes r =
      if leb Size.mst_data_trailer (length bytes)
      then ok
          (advanced (drop Size.mst_data_trailer bytes) (taken Size.mst_data_trailer bytes r r.sink))
      else ok partial_read

  unfoldable pub take_response : List ℕ → Reader S → Exec (Turn S)
  take_response bytes r =
      let status = get_or bytes 9 0 in
      if leb Size.recovery_resp (length bytes)
      then (if status == Kind.recovery_response && status != request_success
          then ok refused
          else ok (advanced (drop Size.recovery_resp bytes) r))
      else ok unchanged

  abbrev pub is_generic_order : ℕ → Bool
  is_generic_order kind =
      kind == Kind.new_order
      || kind == Kind.order_modification
      || kind == Kind.order_cancellation
      || kind == Kind.spread_new_order
      || kind == Kind.spread_order_modification
      || kind == Kind.spread_order_cancellation

  -- The switch on the type in the header.
  unfoldable pub turn_on : ℕ → List ℕ → Reader S → Exec (Turn S)
  unfolding take_member take_trailer take_response
  turn_on kind bytes r =
      if kind == Kind.recovery_response
      then take_response bytes r
      else if is_generic_order kind
      then take_member Size.generic_ord_msg bytes r
      else if kind == Kind.trade_message
      then take_member Size.trd_msg bytes r
      else if kind == Kind.spread_trade_message
      then take_member Size.trd_msg bytes r
      else if kind == Kind.begin_of_master
      then take_member Size.mst_data_header bytes r
      else if kind == Kind.contract_information
      then take_member Size.contract_info bytes r
      else if kind == Kind.spread_information
      then take_member Size.sprd_contract_info bytes r
      else if kind == Kind.end_of_master
      then take_trailer bytes r
      else ok unchanged

  abbrev pub turn : List ℕ → Reader S → Exec (Turn S)
  turn bytes r = turn_on (get_or bytes 8 0) bytes r

  -- The loop, up to the `memcpy` of what is left. `none` says that it has not ended when the fuel is
  -- used up.
  unfoldable pub get_packet_loop : ℕ → List ℕ → Reader S → Exec (Option (Parsed S))
  get_packet_loop zero bytes r = ok none
  get_packet_loop (suc fuel) bytes r = elim (ltb (length bytes) Size.msg_header) [
    | true ↦ ok (some (kept bytes r))
    | false ↦ turn bytes r >>= λ t. elim t [
      | advanced rest r' ↦ get_packet_loop fuel rest r'
      | partial_read ↦ ok (some (kept bytes r))
      | unchanged ↦ get_packet_loop fuel bytes r
      | refused ↦ ok (some (stopped r))
    ]
  ]

  -- The loop with one round more than there are bytes.
  unfoldable pub read_packets : List ℕ → Reader S → Exec (Option (Parsed S))
  unfolding get_packet_loop
  read_packets bytes r = get_packet_loop (suc (length bytes)) bytes r

  -- `memcpy(pcBuffer, pcBuffer + lnAvailable, nPendingData)`: undefined if more bytes are moved than
  -- have been read in front of them. Where nothing has been read, the bytes go onto themselves.
  abbrev pub overlaps : (total pending : ℕ) → Bool
  overlaps total pending = pending != total && ltb (total - pending) pending

  unfoldable pub move_to_front : ℕ → Parsed S → Exec (Option (Parsed S))
  move_to_front total (stopped r) = ok (some (stopped r))
  move_to_front total (kept rest r) =
      if overlaps total (length rest) then fault overlapping_memcpy else ok (some (kept rest r))

  abbrev pub moved : ℕ → Exec (Option (Parsed S)) → Exec (Option (Parsed S))
  moved total m = m >>= λ o. elim o [ none ↦ ok none | some q ↦ move_to_front total q ]

  -- `garbage` is what each call finds in its local union.
  unfoldable pub get_packet_from_message :
      (garbage : List ℕ) → List ℕ → Reader S → Exec (Option (Parsed S))
  unfolding read_packets move_to_front
  get_packet_from_message garbage bytes r =
      moved (length bytes) (read_packets bytes (record r { union = garbage }))
