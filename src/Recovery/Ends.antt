-- ===== src/Recovery/Ends.antt =====
-- When `GetPacketFromMessage` does not come back.
use real_time_cr.Prelude.{length, get_or, Exec, ok, ℕ, ◌≡◌, ◌⊎◌, List}
use real_time_cr.Message.{BcastMsg}
use real_time_cr.Message.Kind
use real_time_cr.Message.Size
use real_time_cr.Recovery.Answer.{IsMessage}
use real_time_cr.Recovery.Packets.{Reader, Turn, unchanged}

-- A whole message, or a whole response.
abbrev pub IsFrame : List ℕ → Type 0
IsFrame f =
    IsMessage f ⊎ ((length f ≡ Size.recovery_resp) × (get_or f 8 0 ≡ Kind.recovery_response))

module _ {S : Type 0} (write : BcastMsg → S → Exec S) where
  -- A round in which nothing changes has no type that it knows, or a response that is not there in full.
  NotIdle : (List ℕ → Reader S → Exec (Turn S)) → Type 0
  NotIdle f = (a : List ℕ) (r : Reader S) → f a r ≡ ok unchanged → ⊥
