-- ===== src/Logger/Slots.antt =====
-- What the slots of the logger hold. The message `i` goes through the slot `i % 10000`; the
-- messages `[taken, placed)` are in the ring, and the flags of `[cleared, placed)` are set.
use real_time_cr.Prelude.{
  ◌==◌, Bool-cases, length, get_elem?, ℕ, suc, ◌+◌, ◌%◌, ◌≤◌, ◌<◌, ◌≡◌, refl, sym, ap, ◌∙◌, inl,
  inr, Bool, true, false, some, List, ◌++◌, arith, subst, get_elem?-append_some,
}
use real_time_cr.Logger.{LogMsg, no_log_msg, logger_queue_size, update}

abbrev pub slot : ℕ → ℕ
slot i = i % logger_queue_size

-- The messages from `stored` on are not in the ring, and their slots hold no message.
pub record Slots (logged : List LogMsg) (taken cleared placed stored : ℕ) (records : ℕ → LogMsg)
    (flag : ℕ → Bool) : Type 0 where
  pub flagged : (i : ℕ) → cleared ≤ i → i < placed → flag (slot i) ≡ true
  pub free : (i : ℕ) → placed ≤ i → i < cleared + logger_queue_size → flag (slot i) ≡ false
  pub held : (i : ℕ) → taken ≤ i → i < placed → get_elem? logged i ≡ some (records (slot i))
  pub blank : (i : ℕ) → stored ≤ i → i < taken + logger_queue_size → records (slot i) ≡ no_log_msg

slot-ne : (i j : ℕ) → i < j → j < i + logger_queue_size → (slot i == slot j) ≡ false
slot-ne i j lt near = ground arith

pub slot-ne_sym : (i j : ℕ) → i < j → j < i + logger_queue_size → (slot j == slot i) ≡ false
slot-ne_sym i j lt near = ground arith

pub update-other {ℓ} :
    {A : Type ℓ} (f : ℕ → A) (i j : ℕ) (x : A) → (j == i) ≡ false → update f i x j ≡ f j
update-other f i j x e = rw e refl

update-here {ℓ} : {A : Type ℓ} (f : ℕ → A) (i j : ℕ) (x : A) → (j == i) ≡ true → update f i x j ≡ x
update-here f i j x e = rw e refl

update-set {ℓ} : {A : Type ℓ} (f : ℕ → A) (i j : ℕ) (x : A) → f j ≡ x → update f i x j ≡ x
update-set f i j x e = ground arith

-- One round of the ring further is the same slot.
below_next :
    (i c : ℕ)
    → i < suc c + logger_queue_size
    → (slot i == slot c) ≡ false
    → i < c + logger_queue_size
below_next i c lt e = ground arith

pub update-same {ℓ} : {A : Type ℓ} (f : ℕ → A) (i : ℕ) (x : A) → update f i x i ≡ x
update-same f i x = ground arith

module _ {logged : List LogMsg} {t c p : ℕ} {records : ℕ → LogMsg} {flag : ℕ → Bool} where
  pub Slots-logged :
      {q : ℕ} (more : List LogMsg)
      → p ≤ length logged
      → Slots logged t c p q records flag
      → Slots (logged ++ more) t c p q records flag
  Slots-logged more le h = record {
    flagged = h.flagged;
    free = h.free;
    held = λ i lo hi. get_elem?-append_some logged more i (h.held i lo hi);
    blank = h.blank;
  }

  -- The record of the message `p`.
  pub Slots-store :
      (m : LogMsg)
      → t ≤ p
      → p < t + logger_queue_size
      → Slots logged t c p p records flag
      → Slots logged t c p (suc p) (update records (slot p) m) flag
  Slots-store m le room h = record {
    flagged = h.flagged;
    free = h.free;
    held = λ i lo hi.
        h.held i lo hi
        ∙ ap some (sym (update-other records (slot p) (slot i) m (slot-ne i p hi (omega arith))));
    blank = λ i lo hi.
        update-other records (slot p) (slot i) m (slot-ne_sym p i lo (omega arith))
        ∙ h.blank i (omega arith) hi;
  }

  -- Its flag.
  pub Slots-flag :
      c ≤ p
      → p < c + logger_queue_size
      → get_elem? logged p ≡ some (records (slot p))
      → Slots logged t c p (suc p) records flag
      → Slots logged t c (suc p) (suc p) records (update flag (slot p) true)
  Slots-flag le room is h = record {
    flagged = λ i lo hi. elim (Bool-cases (i == p)) [
      | inl e ↦ ground arith
      | inr e ↦ update-set flag (slot p) (slot i) true (h.flagged i lo (ground arith))
    ];
    free = λ i lo hi.
        update-other flag (slot p) (slot i) true (slot-ne_sym p i lo (omega arith))
        ∙ h.free i (omega arith) hi;
    held = λ i lo hi. elim (Bool-cases (i == p)) [
      | inl e ↦
          let j : p ≡ i = ground arith in
          subst (λ k. get_elem? logged k ≡ some (records (slot k))) j is
      | inr e ↦ h.held i lo (ground arith)
    ];
    blank = h.blank;
  }

module _ {logged : List LogMsg} {c p q : ℕ} {records : ℕ → LogMsg} {flag : ℕ → Bool} where
  -- The message `c` is taken out.
  pub Slots-take :
      c < p
      → p ≤ c + logger_queue_size
      → Slots logged c c p q records flag
      → Slots logged (suc c) c p q (update records (slot c) no_log_msg) flag
  Slots-take lt near h = record {
    flagged = h.flagged;
    free = h.free;
    held = λ i lo hi.
        h.held i (omega arith) hi
        ∙ ap some (
            sym (
              update-other records (slot c) (slot i) no_log_msg
                (slot-ne_sym c i lo (omega arith))));
    blank = λ i lo hi. elim (Bool-cases (slot i == slot c)) [
      | inl e ↦ update-here records (slot c) (slot i) no_log_msg e
      | inr e ↦
          update-other records (slot c) (slot i) no_log_msg e ∙ h.blank i lo (below_next i c hi e)
    ];
  }

  pub Slots-clear :
      c < p
      → p ≤ c + logger_queue_size
      → Slots logged (suc c) c p q records flag
      → Slots logged (suc c) (suc c) p q records (update flag (slot c) false)
  Slots-clear lt near h = record {
    flagged = λ i lo hi.
        update-other flag (slot c) (slot i) false (slot-ne_sym c i lo (omega arith))
        ∙ h.flagged i (omega arith) hi;
    free = λ i lo hi. elim (Bool-cases (slot i == slot c)) [
      | inl e ↦ update-here flag (slot c) (slot i) false e
      | inr e ↦ update-other flag (slot c) (slot i) false e ∙ h.free i lo (below_next i c hi e)
    ];
    held = h.held;
    blank = h.blank;
  }
