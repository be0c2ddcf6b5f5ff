-- ===== src/Emulation/Core/Synchronize/Wave.antt =====
-- emulation/src/emulcore.rs, `synchronize`: each message that goes round the machines keeps the
-- invariant.
use kollaps.Prelude.{
  ℕ, ◌+◌, ◌-◌, ◌*◌, ◌%◌, ◌≤◌, ◌<◌, ◌≡◌, ◌≢◌, refl, sym, ap, ◌∙◌, inl, inr, true, false, Option,
  none, some, ◌==◌, arith, ltb, ℕ_discrete, Bool-cases,
}
use mathlib.Core.Option.{some-injective}
use kollaps.Emulation.Core.Synchronize.{
  SyncMessage, emul_start, emul_start_ok, Sync, Turn, waits, starts, fails, on_message, on_leader,
  on_follower, sending, seconds,
}
use kollaps.Emulation.Core.Synchronize.Ring.{
  Local, running, started, failed, System, local, sent, Close, IsExact,
}
use kollaps.Emulation.Core.Synchronize.Invariant.{
  begin_of, start_of, passed, far, far_next, far_none, Near, Proposing, Confirming, Over, Inv,
  proposing, confirming, over, Near-here, Near-other, further, around, next_lem, Token-put,
  quiet-put, after,
}

module _ (n e b t : ℕ) (sys : System) (s : Sync) (two : 2 ≤ n) where
  module _ (p : Proposing n e b t sys) where
    open p use {inside, stamp, token, near, idle, known}

    pass_on :
        (s' : Sync) (millis : ℕ)
        → t ≢ 0
        → Close (far e t) s'.begin_time b
        → Close e (millis * 1000000) s'.begin_time
        → Proposing n e b
            ((t + 1) % n)
            (after ((t + 1) % n) t (waits s' (some (emul_start millis))) sys)
    unfolding after local sent start_of begin_of passed
    pass_on s' millis follower (low, high) (under, above) = elim (next_lem n t inside) [
      | further lt next ↦ rw next (record {
        inside = lt;
        stamp = millis;
        token = Token-put sys.waiting t (emul_start stamp) token (t + 1) (emul_start millis);
        near = λ u at_u. let same : t ≡ u = omega arith in rw (← same) (omega arith, omega arith);
        idle = λ i le. ground (arith, idle i le);
        known = λ i le h. elim (ℕ_discrete i t) [
          | yes here ↦
              Near-here begin_of sys.at t i (running s') (far e i) b s'.begin_time here refl
                (rw here (low, high))
          | no other ↦
              Near-other begin_of sys.at t i (running s') (far e i) b other
                (known i le (ground arith))
        ];
      })
      | around last next ↦ rw next (record {
        inside = omega arith;
        stamp = millis;
        token = Token-put sys.waiting t (emul_start stamp) token 0 (emul_start millis);
        near = λ u at_u. absurd (omega arith);
        idle = λ i le. ground (arith, idle i le);
        known = λ i le h. elim (ℕ_discrete i t) [
          | yes here ↦
              Near-here begin_of sys.at t i (running s') (far e i) b s'.begin_time here refl
                (rw here (low, high))
          | no other ↦
              Near-other begin_of sys.at t i (running s') (far e i) b other
                (known i le (ground arith))
        ];
      })
    ]

    adapt :
        (s' : Sync) (millis : ℕ)
        → t ≡ 0
        → Close e (millis * 1000000) s'.begin_time
        → Proposing n e s'.begin_time 1 (after 1 t (waits s' (some (emul_start millis))) sys)
    unfolding after local sent start_of begin_of passed
    adapt s' millis leader (under, above) = record {
      inside = omega arith;
      stamp = millis;
      token = Token-put sys.waiting t (emul_start stamp) token 1 (emul_start millis);
      near = λ u at_u. (omega arith, omega arith);
      idle = λ i le. ground (arith, idle i le);
      known = λ i le h.
          let here : i ≡ t = ground arith in
          Near-here begin_of sys.at t i (running s') (far e i) s'.begin_time s'.begin_time here refl
            (omega arith, omega arith);
    }

    confirm :
        t ≡ 0 → s.begin_time ≡ b → Confirming n e b 1 (after 1 t (waits s (some emul_start_ok)) sys)
    unfolding after local sent start_of begin_of passed
    confirm leader mine = record {
      inside = omega arith;
      token = Token-put sys.waiting t (emul_start stamp) token 1 emul_start_ok;
      behind = λ i le other h. absurd (ground arith);
      idle = λ i le h. ground (arith, idle i le);
      known = λ i le h. elim (ℕ_discrete i t) [
        | yes here ↦
            Near-here begin_of sys.at t i (running s) (far e i) b s.begin_time here refl
              (omega arith, omega arith)
        | no other ↦
            Near-other begin_of sys.at t i (running s) (far e i) b other (known i le (ground arith))
      ];
    }

    fail_early : (u : ℕ) → Over n e b (after u t fails sys)
    unfolding after local sent start_of begin_of
    fail_early u = record {
      quiet = quiet-put sys.waiting t (emul_start stamp) token u;
      one_time = λ i le. inl (ground (arith, idle i le));
      everywhere = λ h. absurd (h (ground (arith, idle 0)));
    }

  module _ (c : Confirming n e b t sys) where
    open c use {inside, token, behind, idle, known}

    started_at :
        (u i : ℕ) (m : Option SyncMessage)
        → i < n
        → Close (far e t) s.begin_time b
        → (i ≢ t → (i ≢ 0) × (passed t i ≡ true))
        → Near (far e i) b (start_of ((after u t (starts s.begin_time m) sys).at i))
    unfolding after local start_of
    started_at u i m le close before = elim (ℕ_discrete i t) [
      | yes here ↦
          Near-here start_of sys.at t i (started s.begin_time) (far e i) b s.begin_time here refl
            (rw here close)
      | no other ↦
          let (follower, h) = before other in
          Near-other start_of sys.at t i (started s.begin_time) (far e i) b other
            (behind i le follower h)
    ]

    follow :
        t ≢ 0
        → Close (far e t) s.begin_time b
        → Confirming n e b
            ((t + 1) % n)
            (after ((t + 1) % n) t (starts s.begin_time (some emul_start_ok)) sys)
    unfolding after local sent start_of begin_of passed
    follow follower close = elim (next_lem n t inside) [
      | further lt next ↦ rw next (record {
        inside = lt;
        token = Token-put sys.waiting t emul_start_ok token (t + 1) emul_start_ok;
        behind = λ i le other h.
            started_at (t + 1) i (some emul_start_ok) le close (λ away. (other, ground arith));
        idle = λ i le h. ground (arith, idle i le);
        known = λ i le h.
            let other : i ≢ t = λ here. ground arith in
            Near-other begin_of sys.at t i (started s.begin_time) (far e i) b other
              (known i le (ground arith));
      })
      | around last next ↦ rw next (record {
        inside = omega arith;
        token = Token-put sys.waiting t emul_start_ok token 0 emul_start_ok;
        behind = λ i le other h.
            started_at 0 i (some emul_start_ok) le close (λ away. (other, ground arith));
        idle = λ i le h. ground (arith, idle i le);
        known = λ i le h.
            let other : i ≢ t = λ here. ground arith in
            Near-other begin_of sys.at t i (started s.begin_time) (far e i) b other
              (known i le (ground arith));
      })
    ]

    finish :
        (u : ℕ)
        → t ≡ 0
        → Close (far e t) s.begin_time b
        → Over n e b (after u t (starts s.begin_time none) sys)
    unfolding after sent passed
    finish u leader close =
        let all = λ (i : ℕ) (le : i < n).
          started_at u i none le close (λ away. ((λ z. away (z ∙ sym leader)), ground arith)) in
        record {
          quiet = quiet-put sys.waiting t emul_start_ok token u;
          one_time = λ i le. inr (all i le);
          everywhere = λ h. all;
        }

    fail_late : (u : ℕ) → Over n e b (after u t fails sys)
    unfolding after local sent start_of begin_of passed
    fail_late u = record {
      quiet = quiet-put sys.waiting t emul_start_ok token u;
      one_time = λ i le. elim (ℕ_discrete i t) [
        | yes here ↦ inl (ground arith)
        | no other ↦ elim (ℕ_discrete i 0) [
          | yes zero_ ↦ inl (ground (arith, idle i le (inl zero_)))
          | no follower ↦ elim (Bool-cases (passed t i)) [
            | inl h ↦
                inr
                  (Near-other start_of sys.at t i failed (far e i) b other (behind i le follower h))
            | inr h ↦ inl (ground (arith, idle i le (inr h)))
          ]
        ]
      ];
      everywhere = λ h. absurd (h (ground (arith, idle 0)));
    }

  -- The time that the machine of the message has.
  mine-Near :
      (r : ℕ) (l : Local)
      → begin_of l ≡ some s.begin_time
      → Near r b (begin_of l)
      → Close r s.begin_time b
  mine-Near r l now (x, ex, close) =
      let same : x ≡ s.begin_time = some-injective _ _ (sym ex ∙ now) in rw (← same) close

  -- The first message of machine `t`, which runs with `s`, is delivered.
  pub proposed :
      (turn : Turn)
      → IsExact e turn
      → (p : Proposing n e b t sys) → begin_of (sys.at t) ≡ some s.begin_time
      → Inv n e (after ((t + 1) % n) t (on_message (t == 0) true s (emul_start p.stamp) turn) sys)
  unfolding on_message on_leader on_follower sending passed
  proposed turn exact p now =
      let begin = turn.from_millis p.stamp in
      let round = turn.first_now - s.time in
      let adapted = turn.third_now + (round * 2 + seconds 2) in
      let early = ltb (turn.second_now + (round + seconds 1)) begin in
      elim (Bool-cases turn.reaches) [
        | inr lost ↦ elim (Bool-cases (t == 0)) [
          | inr follower ↦ rw (follower, lost) (over b (fail_early p _))
          | inl leader ↦ elim (Bool-cases early) [
            | inl h ↦ rw (leader, h, lost) (over b (fail_early p _))
            | inr h ↦ rw (leader, h, lost) (over b (fail_early p _))
          ]
        ]
        | inl reaches ↦ elim (ℕ_discrete t 0) [
          | no other ↦
              let follower : (t == 0) ≡ false = ground arith in
              rw (follower, reaches)
                (proposing b ((t + 1) % n) (
                  pass_on p (record s { begin_time = begin }) (turn.to_millis begin) other
                    (received turn exact p other) (exact.sends begin)))
          | yes zero_ ↦
              let leader : (t == 0) ≡ true = ground arith in
              let next : (t + 1) % n ≡ 1 = grind arith in
              let (low, high) =
                mine-Near (far e t) (sys.at t) now (p.known t p.inside (ground arith)) in
              let none_far : far e t ≡ 0 = rw zero_ (far_none e) in
              let mine : s.begin_time ≡ b = omega arith in
              elim (Bool-cases early) [
                | inl h ↦ rw (leader, next, h, reaches) (confirming b 1 (confirm p zero_ mine))
                | inr h ↦
                    rw (leader, next, h, reaches)
                      (proposing adapted 1 (
                        adapt p (record { time = turn.third_now; begin_time = adapted })
                          (turn.to_millis adapted) zero_ (exact.sends adapted)))
              ]
        ]
      ]
    where
      -- The time that a follower receives.
      received :
          (turn : Turn)
          → IsExact e turn
          → (p : Proposing n e b t sys) → t ≢ 0
          → Close (far e t) (turn.from_millis p.stamp) b
      received turn exact p other =
          let before : t ≡ t - 1 + 1 = omega arith in
          let (low, high) = p.near (t - 1) before in
          let (under, above) = exact.receives p.stamp in
          let next : far e t ≡ far e (t - 1) + (e + e) = ap (far e) before ∙ far_next e (t - 1) in
          (omega arith, omega arith)

  pub confirmed :
      (turn : Turn)
      → Confirming n e b t sys
      → begin_of (sys.at t) ≡ some s.begin_time
      → Inv n e (after ((t + 1) % n) t (on_message (t == 0) true s emul_start_ok turn) sys)
  unfolding on_message on_leader on_follower sending passed
  confirmed turn c now =
      let mine = mine-Near (far e t) (sys.at t) now (c.known t c.inside (ground arith)) in
      elim (Bool-cases (ltb turn.first_now s.begin_time)) [
        | inr late ↦ elim (Bool-cases (t == 0)) [
          | inr follower ↦ rw (follower, late) (over b (fail_late c _))
          | inl leader ↦ rw (leader, late) (over b (fail_late c _))
        ]
        | inl early ↦ elim (ℕ_discrete t 0) [
          | yes zero_ ↦
              let leader : (t == 0) ≡ true = ground arith in
              rw (leader, early) (over b (finish c _ zero_ mine))
          | no other ↦
              let follower : (t == 0) ≡ false = ground arith in
              elim (Bool-cases turn.reaches) [
                | inr lost ↦ rw (follower, early, lost) (over b (fail_late c _))
                | inl reaches ↦
                    rw (follower, early, reaches) (confirming b ((t + 1) % n) (follow c other mine))
              ]
        ]
      ]
