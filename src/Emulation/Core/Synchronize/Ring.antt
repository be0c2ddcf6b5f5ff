-- ===== src/Emulation/Core/Synchronize/Ring.antt =====
-- emulation/src/emulcore.rs, `synchronize`: all the machines of an emulation together.
--
-- The machines are numbered by their position. Each one has the messages that wait for it, in the
-- order in which they were sent.
use kollaps.Prelude.{
  ℕ, ◌+◌, ◌*◌, ◌%◌, ◌≤◌, ◌<◌, ◌≡◌, true, none, some, List, [], ◌∷◌, ◌++◌, ◌==◌, if◌then◌else◌,
}
use kollaps.Emulation.Core.Synchronize.{
  SyncMessage, Sync, Turn, Outcome, waits, starts, fails, on_message, initially,
}

pub data Local : Type 0 where
  running : Sync → Local
  started : ℕ → Local
  failed : Local

abbrev pub assign : {A : Type 0} → (ℕ → A) → ℕ → A → ℕ → A
assign f i a j = if i == j then a else f j

pub record System : Type 0 where
  pub at : ℕ → Local
  pub waiting : ℕ → List SyncMessage

-- The machine after a round.
unfoldable pub local : Outcome → Local
local (waits s _) = running s
local (starts t _) = started t
local fails = failed

unfoldable pub sent : Outcome → List SyncMessage
sent (waits _ (some m)) = m ∷ []
sent (starts _ (some m)) = m ∷ []
sent _ = []

unfoldable pub put : ℕ → List SyncMessage → (ℕ → List SyncMessage) → ℕ → List SyncMessage
put i ms w = assign w i (w i ++ ms)

-- Machine `i` takes its first message; what it sends waits for the next machine of the `n`.
unfoldable pub deliver : ℕ → ℕ → Sync → SyncMessage → List SyncMessage → Turn → System → System
unfolding on_message local sent put
deliver n i s m rest turn sys =
    let outcome = on_message (i == 0) true s m turn in
    record {
      at = assign sys.at i (local outcome);
      waiting = put ((i + 1) % n) (sent outcome) (assign sys.waiting i rest);
    }

unfoldable pub start_all : ℕ → (ℕ → Turn) → System
unfolding initially put
start_all n firsts = record {
  at = λ i. running (initially (i == 0) (firsts i)).0;
  waiting = λ i.
      if i == 1 then elim (initially true (firsts 0)).1 [ none ↦ [] | some m ↦ m ∷ [] ] else [];
}

-- Two numbers that differ by at most `e`.
abbrev pub Close : ℕ → ℕ → ℕ → Type 0
Close e a b = (a ≤ b + e) × (b ≤ a + e)

-- The conversions of serde_millis are exact up to `e` nanoseconds. It counts the milliseconds by the
-- clock of the system, cuts off what is less, and reads two clocks one after the other; `e` is the
-- most that this and the distance between the clocks of two machines make.
pub record IsExact (e : ℕ) (turn : Turn) : Type 0 where
  pub sends : (t : ℕ) → Close e (turn.to_millis t * 1000000) t
  pub receives : (millis : ℕ) → Close e (turn.from_millis millis) (millis * 1000000)

-- The states that the machines reach, where the conversions are exact up to `e`.
pub data Reach (n e : ℕ) : System → Type 0 where
  start : (firsts : ℕ → Turn) → IsExact e (firsts 0) → Reach n e (start_all n firsts)
  later :
      {sys : System}
      → Reach n e sys
      → (i : ℕ) (s : Sync) (m : SyncMessage) (rest : List SyncMessage) (turn : Turn)
      → IsExact e turn
      → i < n
      → sys.at i ≡ running s
      → sys.waiting i ≡ m ∷ rest
      → Reach n e (deliver n i s m rest turn sys)
