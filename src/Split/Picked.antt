-- ===== src/Split/Picked.antt =====
-- What the three loops of `SplitTrade` pick out of the open trades.
use real_time_cr.Prelude.{
  ◌==◌, Bool-cases, take, drop, length, get_elem?, out_of_range, ok, deref, bind-eq-ok, ℕ, zero,
  suc, ◌+◌, ◌%◌, ◌^◌, ◌<◌, ◌≡◌, refl, sym, ap, ◌∙◌, inl, inr, Option, none, some, [], ◌∷◌, ◌++◌,
  arith, take-get_elem?,
}
use real_time_cr.Contract.{TradeMsgStore}
use real_time_cr.Message.{BcastMsg}
use real_time_cr.Split.Groups.{first_group, second_group, third_group, Picked, pick}
use mathlib.Core.List.{append-nil, append_assoc}

-- The trades from the last one to the first.
abbrev pub backwards : TradeMsgStore → TradeMsgStore
backwards [] = []
backwards (m ∷ ms) = backwards ms ++ (m ∷ [])

backwards-append :
    (ms : TradeMsgStore) (m : BcastMsg) → backwards (ms ++ (m ∷ [])) ≡ m ∷ backwards ms
backwards-append [] m = refl
backwards-append (x ∷ ms) m = ap (λ l. l ++ (x ∷ [])) (backwards-append ms m)

abbrev pub traded : TradeMsgStore → ℕ
traded [] = 0
traded (m ∷ ms) = m.trade_qty + traded ms

traded-append :
    (ms : TradeMsgStore) (m : BcastMsg) → traded (ms ++ (m ∷ [])) ≡ traded ms + m.trade_qty
traded-append [] m = omega arith
traded-append (x ∷ ms) m = omega (arith, traded-append ms m)

deref-some : (o : Option BcastMsg) {m : BcastMsg} → deref o out_of_range ≡ ok m → o ≡ some m
deref-some none e = cc
deref-some (some x) e = ground arith

drop-get_elem? :
    (ms : TradeMsgStore) (i : ℕ) {m : BcastMsg}
    → get_elem? ms i ≡ some m
    → drop i ms ≡ m ∷ drop (suc i) ms
drop-get_elem? [] i e = cc
drop-get_elem? (x ∷ ms) zero e = let s : x ≡ _ = ground arith in ap (λ y. y ∷ ms) s
drop-get_elem? (x ∷ ms) (suc i) e = drop-get_elem? ms i e

-- The trade at the index is in front of the rest.
next-drop :
    (ms : TradeMsgStore) (i : ℕ) {m : BcastMsg}
    → deref (get_elem? ms i) out_of_range ≡ ok m
    → drop i ms ≡ m ∷ drop (i + 1) ms
next-drop ms i {m} d =
    let one : suc i ≡ i + 1 = omega arith in
    drop-get_elem? ms i (deref-some (get_elem? ms i) d) ∙ ap (λ n. m ∷ drop n ms) one

-- A part `part` of the trades in front of `k`, picked from its end.
pub record Front (ms : TradeMsgStore) (k : ℕ) (p q : Picked) : Type 0 where
  pub before : TradeMsgStore
  pub part : TradeMsgStore
  pub parts : take k ms ≡ before ++ part
  pub packets : q.packets ≡ p.packets ++ backwards part
  pub qty : q.qty ≡ (p.qty + traded part) % 2 ^ 32

pub first_group-Front :
    (ms : TradeMsgStore) (qty k : ℕ) (p q : Picked)
    → p.qty < 2 ^ 32
    → first_group ms qty k p ≡ ok q
    → Front ms k p q
unfolding first_group
first_group-Front ms qty zero p q small h =
    let e : p ≡ q = ground arith in
    rw (← e) (record {
      before = [];
      part = [];
      parts = refl;
      packets = sym (append-nil p.packets);
      qty = omega arith;
    })
first_group-Front ms qty (suc k) p q small h =
    let (m, d, h1) = bind-eq-ok (deref (get_elem? ms k) out_of_range) _ h in
    let here : take k ms ++ (m ∷ []) ≡ take (suc k) ms =
      take-get_elem? k ms (deref-some (get_elem? ms k) d) in
    elim (Bool-cases ((pick m p).qty == qty)) [
      | inl stop ↦
          let e : pick m p ≡ q = ground arith in
          rw (← e) (record {
            before = take k ms;
            part = m ∷ [];
            parts = sym here;
            packets = refl;
            qty = omega arith;
          })
      | inr more ↦
          let f = first_group-Front ms qty k (pick m p) q (omega arith) (rw more at h1) in
          record {
            before = f.before;
            part = f.part ++ (m ∷ []);
            parts =
                sym here ∙ ap (λ l. l ++ (m ∷ [])) f.parts ∙ append_assoc f.before f.part (m ∷ []);
            packets =
                f.packets
                ∙ append_assoc p.packets (m ∷ []) (backwards f.part)
                ∙ ap (λ l. p.packets ++ l) (sym (backwards-append f.part m));
            qty = omega (arith, f.qty, traded-append f.part m);
          }
    ]

pub second_group-eq :
    (ms : TradeMsgStore) (k i : ℕ) (out out' : TradeMsgStore)
    → second_group ms i k out ≡ ok out'
    → (part : TradeMsgStore) × (drop i ms ≡ part ++ drop (i + k) ms)
      × (length part ≡ k)
      × (out' ≡ out ++ part)
unfolding second_group
second_group-eq ms zero i out out' h =
    let e : out ≡ out' = ground arith in
    let at : i ≡ i + 0 = omega arith in
    ([], ap (λ n. drop n ms) at, refl, sym e ∙ sym (append-nil out))
second_group-eq ms (suc k) i out out' h =
    let (m, d, h1) = bind-eq-ok (deref (get_elem? ms i) out_of_range) _ h in
    let (part, e, l, f) = second_group-eq ms k (i + 1) (out ++ (m ∷ [])) out' h1 in
    let here = next-drop ms i d in
    let at : i + 1 + k ≡ i + suc k = omega arith in
    (
      m ∷ part,
      here ∙ ap (λ l. m ∷ l) (e ∙ ap (λ n. part ++ drop n ms) at),
      omega (arith, l),
      f ∙ append_assoc out (m ∷ []) part,
    )

-- A part `part` of the trades from `i` on, picked from its front.
pub record Back (ms : TradeMsgStore) (i : ℕ) (p q : Picked) : Type 0 where
  pub part : TradeMsgStore
  pub behind : TradeMsgStore
  pub parts : drop i ms ≡ part ++ behind
  pub packets : q.packets ≡ p.packets ++ part
  pub qty : q.qty ≡ (p.qty + traded part) % 2 ^ 32

pub third_group-Back :
    (ms : TradeMsgStore) (qty i k : ℕ) (p q : Picked)
    → p.qty < 2 ^ 32
    → third_group ms qty i k p ≡ ok q
    → Back ms i p q
unfolding third_group
third_group-Back ms qty i zero p q small h =
    let e : p ≡ q = ground arith in
    rw (← e) (record {
      part = [];
      behind = drop i ms;
      parts = refl;
      packets = sym (append-nil p.packets);
      qty = omega arith;
    })
third_group-Back ms qty i (suc k) p q small h =
    let (m, d, h1) = bind-eq-ok (deref (get_elem? ms i) out_of_range) _ h in
    let here = next-drop ms i d in
    elim (Bool-cases ((pick m p).qty == qty)) [
      | inl stop ↦
          let e : pick m p ≡ q = ground arith in
          rw (← e) (record {
            part = m ∷ [];
            behind = drop (i + 1) ms;
            parts = here;
            packets = refl;
            qty = omega arith;
          })
      | inr more ↦
          let f = third_group-Back ms qty (i + 1) k (pick m p) q (omega arith) (rw more at h1) in
          record {
            part = m ∷ f.part;
            behind = f.behind;
            parts = here ∙ ap (λ l. m ∷ l) f.parts;
            packets = f.packets ∙ append_assoc p.packets (m ∷ []) f.part;
            qty = omega (arith, f.qty);
          }
    ]
