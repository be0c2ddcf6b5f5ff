-- ===== src/Emulation/Core/Synchronize/Agreement.antt =====
-- emulation/src/emulcore.rs, `synchronize`: the machines begin at almost one time.
use kollaps.Prelude.{
  ℕ, zero, suc, true, Bool-cases, ◌+◌, ◌*◌, ◌≤◌, ◌<◌, ◌≡◌, refl, sym, ◌∙◌, inl, inr, some, List,
  ◌∷◌, arith, ℕ_discrete,
}
use mathlib.Core.Option.{some-injective}
use kollaps.Emulation.Core.Synchronize.{
  SyncMessage, emul_start, emul_start_ok, Sync, Turn, initially,
}
use kollaps.Emulation.Core.Synchronize.Ring.{
  Local, running, started, failed, System, deliver, start_all, Close, IsExact, Reach, start, later,
}
use kollaps.Emulation.Core.Synchronize.Invariant.{
  begin_of, start_of, passed, far, far_none, Near, Inv, proposing, confirming, over, taken, after,
}
use kollaps.Emulation.Core.Synchronize.Wave.{proposed, confirmed}

start_all-Inv :
    (n e : ℕ) (firsts : ℕ → Turn) → 2 ≤ n → IsExact e (firsts 0) → Inv n e (start_all n firsts)
unfolding start_all initially begin_of start_of passed
start_all-Inv n e firsts two exact =
    let begin = (initially true (firsts 0)).0.begin_time in
    let (under, above) = exact.sends begin in
    proposing begin 1 (record {
      inside = omega arith;
      stamp = (firsts 0).to_millis begin;
      token = record { here = refl; elsewhere = λ j other. ground arith };
      near = λ u at_u. (omega arith, omega arith);
      idle = λ i le. refl;
      known = λ i le h.
          let here : i ≡ 0 = ground arith in rw here (begin, refl, (omega arith, omega arith));
    })

module _ (n e : ℕ) (two : 2 ≤ n) where
  deliver-Inv :
      (sys : System) (i : ℕ) (s : Sync) (m : SyncMessage) (rest : List SyncMessage) (turn : Turn)
      → Inv n e sys
      → IsExact e turn
      → sys.at i ≡ running s
      → sys.waiting i ≡ m ∷ rest
      → Inv n e (deliver n i s m rest turn sys)
  unfolding deliver after begin_of
  deliver-Inv sys i s m rest turn (proposing b t p) exact runs first =
      let (at_t, is, end) = taken sys.waiting t (emul_start p.stamp) p.token i m rest first in
      rw (at_t, is, end) (proposed n e b t sys s two turn exact p (rw (← at_t, runs) refl))
  deliver-Inv sys i s m rest turn (confirming b t c) exact runs first =
      let (at_t, is, end) = taken sys.waiting t emul_start_ok c.token i m rest first in
      rw (at_t, is, end) (confirmed n e b t sys s two turn c (rw (← at_t, runs) refl))
  deliver-Inv sys i s m rest turn (over b o) exact runs first = ground (arith, o.quiet i)

  Reach-Inv : {sys : System} → Reach n e sys → Inv n e sys
  Reach-Inv (start firsts exact) = start_all-Inv n e firsts two exact
  Reach-Inv (later {sys} r i s m rest turn exact _ runs first) =
      deliver-Inv sys i s m rest turn (Reach-Inv r) exact runs first

  started-Close :
      (r b : ℕ) (sys : System) (i t : ℕ)
      → start_of (sys.at i) ≡ some t
      → Near r b (start_of (sys.at i))
      → Close r t b
  started-Close r b sys i t h (x, ex, close) =
      let same : x ≡ t = some-injective _ _ (sym ex ∙ h) in rw (← same) close

  agreed :
      (sys : System)
      → Inv n e sys
      → (b : ℕ) × ((i t : ℕ) → i < n → start_of (sys.at i) ≡ some t → Close (far e i) t b)
        × ((t : ℕ)
            → start_of (sys.at 0) ≡ some t
            → (i : ℕ) → i < n
            → (u : ℕ) × (start_of (sys.at i) ≡ some u))
  unfolding passed
  agreed sys (proposing b k p) = (
    b,
    (λ i t le h. absurd (ground (arith, p.idle i le))),
    λ t h i le. absurd (ground (arith, p.idle 0 (omega arith))),
  )
  agreed sys (confirming b k c) = (
    b,
    (λ i t le h. elim (ℕ_discrete i 0) [
      | yes zero_ ↦ absurd (ground (arith, c.idle i le (inl zero_)))
      | no follower ↦ elim (Bool-cases (passed k i)) [
        | inl been ↦ started-Close (far e i) b sys i t h (c.behind i le follower been)
        | inr ahead ↦ absurd (ground (arith, c.idle i le (inr ahead)))
      ]
    ]),
    λ t h i le. absurd (ground (arith, c.idle 0 (omega arith) (inl refl))),
  )
  agreed sys (over b o) = (
    b,
    (λ i t le h. elim (o.one_time i le) [
      | inl silent ↦ absurd (ground arith)
      | inr near ↦ started-Close (far e i) b sys i t h near
    ]),
    λ t h i le. let (u, eu, _) = o.everywhere (λ silent. ground arith) i le in (u, eu),
  )

started-start_of : (l : Local) (t : ℕ) → start_of l ≡ some t → l ≡ started t
unfolding start_of
started-start_of (running s) t e = cc
started-start_of (started u) t e = cc
started-start_of failed t e = cc

far_times : (e i : ℕ) → far e i ≡ i * (2 * e)
unfolding far
far_times e zero = omega arith
far_times e (suc i) =
    let before = far_times e i in
    let next : suc i * (2 * e) ≡ i * (2 * e) + 2 * e = grind arith in omega arith

-- In every state that at least two machines reach, where each conversion of a time that is sent or
-- received is exact up to `e`, there is a time, at which the leader begins if it does, such that
-- machine `i` begins at most `i * 2 * e` before or after it, whichever messages are lost; and when
-- the leader has begun, all the machines have begun.
pub Reach-agreement :
    (n e : ℕ) {sys : System}
    → 2 ≤ n
    → Reach n e sys
    → (b : ℕ) × ((i t : ℕ) → i < n → sys.at i ≡ started t → Close (i * (2 * e)) t b)
      × ((t : ℕ)
          → sys.at 0 ≡ started t
          → (t ≡ b) × ((i : ℕ) → i < n → (u : ℕ) × (sys.at i ≡ started u)))
unfolding start_of
Reach-agreement n e {sys} two r =
    let (b, close, all) = agreed n e two sys (Reach-Inv n e two r) in
    (
      b,
      (λ i t le h. rw (← far_times e i) (close i t le (rw h refl))),
      λ t h.
          let (low, high) = close 0 t (omega arith) (rw h refl) in
          let exactly = far_none e in
          (
            omega arith,
            λ i le. let (u, eu) = all t (rw h refl) i le in (u, started-start_of (sys.at i) u eu),
          ),
    )
