-- ===== src/Tests/Starts.antt =====
-- Two machines that begin an emulation at almost one time.
use kollaps.Prelude.{ℕ, ◌*◌, ◌/◌, ◌<◌, ◌≡◌, refl, true, [], arith}
use kollaps.Emulation.Core.Synchronize.{Sync, Turn, emul_start, emul_start_ok}
use kollaps.Emulation.Core.Synchronize.Ring.{
  System, started, deliver, start_all, Reach, start, later, Close, IsExact,
}
use kollaps.Emulation.Core.Synchronize.Agreement.{Reach-agreement}

-- The conversions cut off what is less than a millisecond.
abbrev at_time : ℕ → Turn
at_time now = record {
  first_now = now;
  second_now = now;
  third_now = now;
  reaches = true;
  to_millis = λ t. t / 1000000;
  from_millis = λ m. m * 1000000;
}

cut_off : (now : ℕ) → IsExact 1000000 (at_time now)
cut_off now = record {
  sends = λ t. (omega arith, omega arith);
  receives = λ m. (omega arith, omega arith);
}

abbrev proposed : Sync
proposed = record { time = 7; begin_time = 5000000007 }

abbrev fresh : Sync
fresh = record { time = 7; begin_time = 7 }

-- The follower lost the seven nanoseconds.
abbrev registered : Sync
registered = record { time = 7; begin_time = 5000000000 }

abbrev one_start : System
one_start = start_all 2 (λ i. at_time 7)

abbrev told : System
told = deliver 2 1 fresh (emul_start 5000) [] (at_time 5) one_start

abbrev valid : System
valid = deliver 2 0 proposed (emul_start 5000) [] (at_time 10) told

abbrev one_begun : System
one_begun = deliver 2 1 registered emul_start_ok [] (at_time 15) valid

abbrev both_begun : System
both_begun = deliver 2 0 proposed emul_start_ok [] (at_time 20) one_begun

whole_round : Reach 2 1000000 both_begun
unfolding start_all deliver
whole_round =
    later
      (later
        (later
          (later (start (λ i. at_time 7) (cut_off 7)) 1 fresh (emul_start 5000) [] (at_time 5)
            (cut_off 5) (omega arith) refl refl)
          0 proposed (emul_start 5000) [] (at_time 10) (cut_off 10) (omega arith) refl refl)
        1 registered emul_start_ok [] (at_time 15) (cut_off 15) (omega arith) refl refl)
      0 proposed emul_start_ok [] (at_time 20) (cut_off 20) (omega arith) refl refl

both_start : (both_begun.at 0 ≡ started 5000000007) × (both_begun.at 1 ≡ started 5000000000)
unfolding deliver start_all
both_start = (refl, refl)

Reach-agreement_example :
    (b : ℕ) × ((i t : ℕ) → i < 2 → both_begun.at i ≡ started t → Close (i * (2 * 1000000)) t b)
    × ((t : ℕ)
        → both_begun.at 0 ≡ started t
        → (t ≡ b) × ((i : ℕ) → i < 2 → (u : ℕ) × (both_begun.at i ≡ started u)))
Reach-agreement_example = Reach-agreement 2 1000000 (omega arith) whole_round
