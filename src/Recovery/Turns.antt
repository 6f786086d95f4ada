-- ===== src/Recovery/Turns.antt =====
-- One round of the loop of `GetPacketFromMessage`.
use real_time_cr.Prelude.{
  leb, ◌==◌, ◌!=◌, if◌then◌else◌, Bool-cases, length, get_or, drop, length-append, length-drop,
  Exec, ok, fault, bind-eq-ok, ℕ, suc, ◌≤◌, ◌≡◌, refl, sym, ap, inl, inr, Bool, true, false, ◌&&◌,
  List, [], ◌++◌, arith, take-append_le, drop-append_le, get_or-append_lt, subst,
}
use real_time_cr.Message.{BcastMsg, read_bcast_msg, assign, request_success}
use real_time_cr.Recovery.Packets.{
  unchanged, Reader, Turn, partial_read, advanced, take_member, refused, taken, take_trailer,
  take_response,
}
use real_time_cr.Message.Kind
use real_time_cr.Message.Size

pub length-drop-lt :
    (n : ℕ) (a : List ℕ) → suc n ≤ length a → suc (length (drop (suc n) a)) ≤ length a
length-drop-lt n a h = omega (arith, length-drop (suc n) a)

module _ {S : Type 0} where
  -- What a round takes off was there in full, and taking it does not look at what comes behind it.
  unfoldable pub IsAhead : (List ℕ → Reader S → Exec (Turn S)) → Type 0
  IsAhead m =
      (a b rest : List ℕ) (r r1 : Reader S)
      → m a r ≡ ok (advanced rest r1)
      → (suc (length rest) ≤ length a) × (m (a ++ b) r ≡ ok (advanced (rest ++ b) r1))

  -- A message that is not there in full has fewer bytes than a trade message.
  unfoldable pub IsShort : (List ℕ → Reader S → Exec (Turn S)) → Type 0
  IsShort m = (a : List ℕ) (r : Reader S) → m a r ≡ ok partial_read → suc (length a) ≤ Size.trd_msg

  pub if-IsAhead :
      (c : Bool) (m n : List ℕ → Reader S → Exec (Turn S))
      → IsAhead m
      → IsAhead n
      → IsAhead (λ a r. if c then m a r else n a r)
  unfolding IsAhead
  if-IsAhead true m n hm hn = hm
  if-IsAhead false m n hm hn = hn

  pub if-IsShort :
      (c : Bool) (m n : List ℕ → Reader S → Exec (Turn S))
      → IsShort m
      → IsShort n
      → IsShort (λ a r. if c then m a r else n a r)
  unfolding IsShort
  if-IsShort true m n hm hn = hm
  if-IsShort false m n hm hn = hn

  abbrev pub rest_of : List ℕ → Turn S → List ℕ
  rest_of d (advanced rest r) = rest
  rest_of d partial_read = d
  rest_of d unchanged = d
  rest_of d refused = d

  abbrev pub reader_of : Reader S → Turn S → Reader S
  reader_of d (advanced rest r) = r
  reader_of d partial_read = d
  reader_of d unchanged = d
  reader_of d refused = d

  abbrev pub turn_of : Exec (Turn S) → Turn S
  turn_of (ok t) = t
  turn_of (fault e) = unchanged

pub unchanged-IsAhead : (S : Type 0) → IsAhead {S = S} (λ _ _. ok unchanged)
unfolding IsAhead
unchanged-IsAhead S a b rest r r1 h = cc

pub unchanged-IsShort : (S : Type 0) → IsShort {S = S} (λ _ _. ok unchanged)
unfolding IsShort
unchanged-IsShort S a r h = cc

module _ {S : Type 0} (write : BcastMsg → S → Exec S) where
  pub take_member-IsAhead : (n : ℕ) → IsAhead (take_member write (suc n))
  unfolding take_member IsAhead
  take_member-IsAhead n a b rest r r1 h = elim (Bool-cases (leb (suc n) (length a))) [
    | inr short ↦ absurd (ground arith)
    | inl there ↦
        let size = suc n in
        let h1 = rw there at h in
        let (sink, w, e) =
          bind-eq-ok (write (read_bcast_msg (assign (suc n) a r.union)) r.sink)
            (λ sink. ok (advanced (drop (suc n) a) (taken write (suc n) a r sink))) h1 in
        let le : suc n ≤ length a = ground arith in
        let tail : drop (suc n) a ≡ rest = ap (λ t. rest_of [] (turn_of t)) e in
        let longer : leb (suc n) (length (a ++ b)) ≡ true = ground (arith, length-append a b) in
        (
          subst (λ l. suc (length l) ≤ length a) tail (length-drop-lt n a le),
          rw
              (
                longer,
                take-append_le (suc n) a b le,
                drop-append_le (suc n) a b le,
                w,
                tail,
                sym (ap (λ t. reader_of r (turn_of t)) e),
              )
              refl,
        )
  ]

  pub take_member-IsShort : (n : ℕ) → n ≤ Size.trd_msg → IsShort (take_member write n)
  unfolding take_member IsShort
  take_member-IsShort n le a r h = elim (Bool-cases (leb n (length a))) [
    | inr short ↦ ground arith
    | inl there ↦
        let h1 = rw there at h in
        let (sink, w, e) =
          bind-eq-ok (write (read_bcast_msg (assign n a r.union)) r.sink)
            (λ sink. ok (advanced (drop n a) (taken write n a r sink))) h1 in
        cc
  ]

  pub take_trailer-IsAhead : IsAhead (take_trailer write)
  unfolding take_trailer IsAhead
  take_trailer-IsAhead a b rest r r1 h = elim (Bool-cases (leb Size.mst_data_trailer (length a))) [
    | inr short ↦ absurd (ground arith)
    | inl there ↦
        let e = rw there at h in
        let le : 13 ≤ length a = ground arith in
        let tail : drop 13 a ≡ rest = ap (λ t. rest_of [] (turn_of t)) e in
        let longer : leb 13 (length (a ++ b)) ≡ true = ground (arith, length-append a b) in
        (
          subst (λ l. suc (length l) ≤ length a) tail (length-drop-lt 12 a le),
          rw
              (
                longer,
                take-append_le 13 a b le,
                drop-append_le 13 a b le,
                tail,
                sym (ap (λ t. reader_of r (turn_of t)) e),
              )
              refl,
        )
  ]

  pub take_trailer-IsShort : IsShort (take_trailer write)
  unfolding take_trailer IsShort
  take_trailer-IsShort a r h = ground arith

  pub take_response-IsAhead : IsAhead (take_response write)
  unfolding take_response IsAhead
  take_response-IsAhead a b rest r r1 h = elim (Bool-cases (leb Size.recovery_resp (length a))) [
    | inr short ↦ absurd (ground arith)
    | inl there ↦
        let le : 10 ≤ length a = ground arith in
        let longer : leb 10 (length (a ++ b)) ≡ true = ground (arith, length-append a b) in
        elim (Bool-cases
          (get_or a 9 0 == Kind.recovery_response && get_or a 9 0 != request_success)) [
            | inl bad ↦ let e = rw (there, bad) at h in cc
            | inr good ↦
                let e = rw (there, good) at h in
                let tail : drop 10 a ≡ rest = ap (λ t. rest_of [] (turn_of t)) e in
                (
                  subst (λ l. suc (length l) ≤ length a) tail (length-drop-lt 9 a le),
                  rw
                      (
                        longer,
                        get_or-append_lt a b 9 0 le,
                        good,
                        drop-append_le 10 a b le,
                        tail,
                        sym (ap (λ t. reader_of r (turn_of t)) e),
                      )
                      refl,
                )
          ]
  ]

  pub take_response-IsShort : IsShort (take_response write)
  unfolding take_response IsShort
  take_response-IsShort a r h = ground arith
