-- ===== src/Recovery/Leaks.antt =====
-- The sockets that are open after a run of the recovery manager.
use real_time_cr.Prelude.{
  if◌then◌else◌, ==_iff, ℕ, ◌≡◌, refl, sym, ap, ◌∙◌, Bool, not, ◌&&◌, List, [], ◌∷◌, ◌++◌,
}
use mathlib.Core.List.{append_assoc}
use real_time_cr.Recovery.{World, Attempt, Event, requested, shut, opened, connected, slept}
use real_time_cr.Calls.{is_negative, without}

-- What is open after the events, the socket opened last first.
abbrev pub after_event : Event → List ℕ → List ℕ
after_event (opened fd) fds = fd ∷ fds
after_event (shut fd) fds = without fd fds
after_event (connected fd) fds = fds
after_event (requested from to) fds = fds
after_event (slept n) fds = fds

abbrev pub open_after : List Event → List ℕ → List ℕ
open_after [] fds = fds
open_after (e ∷ es) fds = open_after es (after_event e fds)

-- A connection that fails behind a socket that has been made.
abbrev pub fails : Attempt → Bool
fails a = not (is_negative a.socket) && not a.server_connected

abbrev pub add_leaked : List Attempt → List ℕ → List ℕ
add_leaked [] fds = fds
add_leaked (a ∷ rest) fds = add_leaked rest (if fails a then a.socket ∷ fds else fds)

pub open_after-append :
    (es fs : List Event) (fds : List ℕ)
    → open_after (es ++ fs) fds ≡ open_after fs (open_after es fds)
open_after-append [] fs fds = refl
open_after-append (e ∷ es) fs fds = open_after-append es fs (after_event e fds)

pub add_leaked-append :
    (used more : List Attempt) (fds : List ℕ)
    → add_leaked (used ++ more) fds ≡ add_leaked more (add_leaked used fds)
add_leaked-append [] more fds = refl
add_leaked-append (a ∷ rest) more fds =
    add_leaked-append rest more (if fails a then a.socket ∷ fds else fds)

pub without_first : (fd : ℕ) (fds : List ℕ) → without fd (fd ∷ fds) ≡ fds
without_first fd fds = rw (==_iff fd fd).1 refl

-- The attempts that a run has used up, and the sockets that it has left open: those of the used attempts whose
-- connection has failed.
pub record Leaves {S : Type 0} (w w' : World S) : Type 0 where
  pub used : List Attempt
  pub used_up : w.attempts ≡ used ++ w'.attempts
  pub left_open : open_after w'.log [] ≡ add_leaked used (open_after w.log [])

module _ {S : Type 0} where
  pub Leaves-idle : (w : World S) → Leaves w w
  Leaves-idle w = record { used = []; used_up = refl; left_open = refl }

  pub Leaves-chain : (u v w : World S) → Leaves u v → Leaves v w → Leaves u w
  Leaves-chain u v w a b = record {
    used = a.used ++ b.used;
    used_up =
        a.used_up ∙ ap (λ l. a.used ++ l) b.used_up ∙ sym (append_assoc a.used b.used w.attempts);
    left_open =
        b.left_open
        ∙ ap (add_leaked b.used) a.left_open
        ∙ sym (add_leaked-append a.used b.used (open_after u.log []));
  }
