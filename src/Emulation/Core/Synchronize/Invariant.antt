-- ===== src/Emulation/Core/Synchronize/Invariant.antt =====
-- emulation/src/emulcore.rs, `synchronize`: what holds while a message goes round the machines.
use kollaps.Prelude.{
  ℕ, zero, suc, refl, ◌+◌, ◌*◌, ◌%◌, ◌<◌, ◌≡◌, ◌≢◌, ◌⊎◌, Bool, true, false, ◌||◌, Option, none,
  some, List, [], ◌∷◌, ◌==◌, arith, ltb, ℕ_discrete, dec_lt,
}
use kollaps.Emulation.Core.Synchronize.{SyncMessage, emul_start, emul_start_ok, Outcome}
use kollaps.Emulation.Core.Synchronize.Ring.{
  Local, running, started, failed, System, assign, local, sent, put, Close,
}

unfoldable pub begin_of : Local → Option ℕ
begin_of (running s) = some s.begin_time
begin_of (started _) = none
begin_of failed = none

unfoldable pub start_of : Local → Option ℕ
start_of (running _) = none
start_of (started t) = some t
start_of failed = none

-- One message waits, at machine `t`.
pub record Token (t : ℕ) (m : SyncMessage) (w : ℕ → List SyncMessage) : Type 0 where
  pub here : w t ≡ m ∷ []
  pub elsewhere : (j : ℕ) → j ≢ t → w j ≡ []

-- A message that waits at `t` has been at machine `i`.
unfoldable pub passed : ℕ → ℕ → Bool
passed t i = t == 0 || ltb i t

-- How far the time of machine `i` may be from that of the leader: each machine before it sent the
-- time once, and the next one received it.
unfoldable pub far : ℕ → ℕ → ℕ
far e zero = 0
far e (suc i) = far e i + (e + e)

pub far_next : (e i : ℕ) → far e (i + 1) ≡ far e i + (e + e)
unfolding far
far_next e i = let next : i + 1 ≡ suc i = omega arith in rw next refl

pub far_none : (e : ℕ) → far e 0 ≡ 0
unfolding far
far_none e = refl

-- There is a time, and it is close to `b`.
abbrev pub Near : ℕ → ℕ → Option ℕ → Type 0
Near r b o = (x : ℕ) × (o ≡ some x) × Close r x b

pub record Proposing (n e b t : ℕ) (sys : System) : Type 0 where
  pub inside : t < n
  pub stamp : ℕ
  pub token : Token t (emul_start stamp) sys.waiting
  pub near : (u : ℕ) → t ≡ u + 1 → Close (far e u + e) (stamp * 1000000) b
  pub idle : (i : ℕ) → i < n → start_of (sys.at i) ≡ none
  pub known : (i : ℕ) → i < n → passed t i ≡ true → Near (far e i) b (begin_of (sys.at i))

pub record Confirming (n e b t : ℕ) (sys : System) : Type 0 where
  pub inside : t < n
  pub token : Token t emul_start_ok sys.waiting
  pub behind : (i : ℕ) → i < n → i ≢ 0 → passed t i ≡ true → Near (far e i) b (start_of (sys.at i))
  pub idle : (i : ℕ) → i < n → (i ≡ 0) ⊎ (passed t i ≡ false) → start_of (sys.at i) ≡ none
  pub known :
      (i : ℕ) → i < n → (i ≡ 0) ⊎ (passed t i ≡ false) → Near (far e i) b (begin_of (sys.at i))

pub record Over (n e b : ℕ) (sys : System) : Type 0 where
  pub quiet : (j : ℕ) → sys.waiting j ≡ []
  pub one_time :
      (i : ℕ) → i < n → (start_of (sys.at i) ≡ none) ⊎ Near (far e i) b (start_of (sys.at i))
  pub everywhere :
      start_of (sys.at 0) ≢ none → (i : ℕ) → i < n → Near (far e i) b (start_of (sys.at i))

pub data Inv (n e : ℕ) (sys : System) : Type 0 where
  proposing : (b t : ℕ) → Proposing n e b t sys → Inv n e sys
  confirming : (b t : ℕ) → Confirming n e b t sys → Inv n e sys
  over : (b : ℕ) → Over n e b sys → Inv n e sys

-- What a machine that changes, and what another one shows.
pub Near-here :
    (g : Local → Option ℕ) (f : ℕ → Local) (t i : ℕ) (l : Local) (r b x : ℕ)
    → i ≡ t
    → g l ≡ some x
    → Close r x b
    → Near r b (g (assign f t l i))
Near-here g f t i l r b x e shows close =
    let test : (t == i) ≡ true = ground arith in (x, rw test shows, close)

pub Near-other :
    (g : Local → Option ℕ) (f : ℕ → Local) (t i : ℕ) (l : Local) (r b : ℕ)
    → i ≢ t
    → Near r b (g (f i))
    → Near r b (g (assign f t l i))
Near-other g f t i l r b other h = let test : (t == i) ≡ false = ground arith in rw test h

-- The next machine.
pub data Next (n i : ℕ) : Type 0 where
  further : i + 1 < n → (i + 1) % n ≡ i + 1 → Next n i
  around : i + 1 ≡ n → (i + 1) % n ≡ 0 → Next n i

pub next_lem : (n i : ℕ) → i < n → Next n i
next_lem n i h = elim (dec_lt (i + 1) n) [
  | yes lt ↦ further lt (grind arith)
  | no last ↦ let e : i + 1 ≡ n = omega arith in around e (grind arith)
]

module _ (w : ℕ → List SyncMessage) (t : ℕ) (m : SyncMessage) (token : Token t m w) where
  open token use {here, elsewhere}

  pub Token-put : (u : ℕ) (k : SyncMessage) → Token u k (put u (k ∷ []) (assign w t []))
  unfolding put
  Token-put u k = record {
    here = ground (arith, here, elsewhere u);
    elsewhere = λ j other. ground (arith, here, elsewhere j);
  }

  pub quiet-put : (u j : ℕ) → put u [] (assign w t []) j ≡ []
  unfolding put
  quiet-put u j = ground (arith, here, elsewhere u, elsewhere j)

  -- Only the machine that has the message can take one.
  pub taken :
      (i : ℕ) (k : SyncMessage) (rest : List SyncMessage)
      → w i ≡ k ∷ rest
      → (i ≡ t) × (k ≡ m) × (rest ≡ [])
  taken i k rest h = elim (ℕ_discrete i t) [
    | yes e ↦ ground (arith, here)
    | no other ↦ ground (arith, elsewhere i other)
  ]

-- The machines after machine `t` did `o`, where `u` is the next one.
unfoldable pub after : ℕ → ℕ → Outcome → System → System
after u t o sys = record {
  at = assign sys.at t (local o);
  waiting = put u (sent o) (assign sys.waiting t []);
}
