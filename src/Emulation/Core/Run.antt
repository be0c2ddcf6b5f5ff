-- ===== src/Emulation/Core/Run.antt =====
-- emulation/src/emulcore.rs: what a core does to the outside, and how a call that may fail ends.
--
-- The effects are listed in the order in which they are tried; one that fails is the last.
use kollaps.Prelude.{ℕ, ◌≡◌, refl, ap, Bool, Option, none, some, List, [], ◌∷◌, ◌++◌, if◌then◌else◌}
use kollaps.Common.EmulMessage.{EmulMessage, FlowConf, EmulationEvent}
use kollaps.Emulation.Data.{ClusterNodeInfo, Node}

-- A message to the reporter of an application, a flow and a finished application told to another
-- machine, a container stopped, the events given to the scheduler, and the core taken off the list.
pub data Effect (Ip Text F : Type 0) : Type 0 where
  tell_reporter : Node Ip Text → EmulMessage Ip F → Effect Ip Text F
  tell_host : ClusterNodeInfo Ip → FlowConf Ip → Effect Ip Text F
  clean_stop : ClusterNodeInfo Ip → ClusterNodeInfo Ip → ℕ → Effect Ip Text F
  stop_container : Text → Effect Ip Text F
  schedule : List EmulationEvent → Effect Ip Text F
  leave_channels : Effect Ip Text F

pub data Failure : Type 0 where
  panic invalid_data not_done : Failure

pub data Result {ℓ} (A : Type ℓ) : Type ℓ where
  ok : A → Result A
  err : Failure → Result A

pub record Run (Ip Text F A : Type 0) : Type 0 where
  pub effects : List (Effect Ip Text F)
  pub result : Result A

module _ {Ip Text F : Type 0} where
  abbrev pub done : {A : Type 0} → A → Run Ip Text F A
  done a = record { effects = []; result = ok a }

  abbrev pub fail : {A : Type 0} → Failure → Run Ip Text F A
  fail e = record { effects = []; result = err e }

  -- A panic, or the error of `ok_or`.
  abbrev pub or_fail : {A : Type 0} → Failure → Option A → Run Ip Text F A
  or_fail e none = fail e
  or_fail e (some a) = done a

  abbrev pub follow :
      {A B : Type 0} → List (Effect Ip Text F) → Result A → (A → Run Ip Text F B) → Run Ip Text F B
  follow before (err e) f = record { effects = before; result = err e }
  follow before (ok a) f = record { effects = before ++ (f a).effects; result = (f a).result }

  infixl 5 ◌>>=◌ ◌>>◌
  abbrev pub ◌>>=◌ : {A B : Type 0} → Run Ip Text F A → (A → Run Ip Text F B) → Run Ip Text F B
  m >>= f = follow m.effects m.result f

  abbrev pub ◌>>◌ : {A B : Type 0} → Run Ip Text F A → Run Ip Text F B → Run Ip Text F B
  m >> k = m >>= λ _. k

  -- Something is done, if the outside lets it.
  unfoldable pub perform : (Effect Ip Text F → Bool) → Effect Ip Text F → Run Ip Text F (Unit {0})
  perform works e =
      if works e
      then record { effects = e ∷ []; result = ok tt }
      else record { effects = e ∷ []; result = err not_done }

  unfoldable pub each :
      {A : Type 0} → (A → Run Ip Text F (Unit {0})) → List A → Run Ip Text F (Unit {0})
  each body [] = done tt
  each body (a ∷ others) = body a >> each body others

-- A bind that ends well does so in both parts.
pub bind-ok :
    {Ip Text F A B : Type 0} (m : Run Ip Text F A) (f : A → Run Ip Text F B) {b : B}
    → (m >>= f).result ≡ ok b
    → (a : A) × (m.result ≡ ok a) × ((f a).result ≡ ok b)
bind-ok m f {b} h = go m.result refl h
  where
    go :
        (r : Result _)
        → m.result ≡ r
        → (follow m.effects r f).result ≡ ok b
        → (a : _) × (m.result ≡ ok a) × ((f a).result ≡ ok b)
    go (ok a) e h = (a, e, h)
    go (err x) e h = cc

value : {A : Type 0} → A → Result A → A
value a (ok x) = x
value a (err _) = a

pub ok-injective : {A : Type 0} {a b : A} → Result.ok a ≡ ok b → a ≡ b
unfolding value
ok-injective {a = a} e = ap (value a) e
