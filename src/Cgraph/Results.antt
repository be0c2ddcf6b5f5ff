-- ===== src/Cgraph/Results.antt =====
-- cgraph/src/lib.rs: what the success of a chain of fallible steps says of its first step.
use kollaps.Prelude.{ℕ, ◌⊎◌, inl, inr, zero, suc, ◌+◌, subst, ◌≡◌, refl, ap, Option, none, some}
use kollaps.Cgraph.{Result, ok, err, ErrorKind, panic, ok_or, for_range, ◌>>=◌}

module _ {ℓ} {A : Type ℓ} where
  value : A → Result A → A
  value d (ok a) = a
  value d (err _) = d

  pub ok-injective : (a b : A) → ok a ≡ ok b → a ≡ b
  unfolding value
  ok-injective a b e = ap (value a) e

  pub ok_or-ok : (o : Option A) (e : ErrorKind) (a : A) → ok_or o e ≡ ok a → o ≡ some a
  ok_or-ok none e a h = cc
  ok_or-ok (some b) e a h = ap some (ok-injective b a h)

pub bind-ok {ℓ κ} :
    {A : Type ℓ} {B : Type κ} (m : Result A) (f : A → Result B) (b : B)
    → (m >>= f) ≡ ok b
    → (a : A) × (m ≡ ok a) × (f a ≡ ok b)
bind-ok (ok a) f b h = (a, refl, h)
bind-ok (err e) f b h = cc

-- What every round keeps, the loop keeps.
pub for_range-keeps {ℓ κ} :
    {S : Type ℓ} (P : S → Type κ) (body : ℕ → S → Result S)
    → ((i : ℕ) (s s' : S) → body i s ≡ ok s' → P s → P s')
    → (count start : ℕ) (s s' : S) → for_range count start body s ≡ ok s'
    → P s
    → P s'
unfolding for_range
for_range-keeps P body keeps zero start s s' h p = let same = ok-injective s s' h in subst P same p
for_range-keeps P body keeps (suc count) start s s' h p =
    let (next, en, rest) = bind-ok (body start s) (for_range count (start + 1) body) s' h in
    for_range-keeps P body keeps count (start + 1) next s' rest (keeps start s next en p)

-- The computation gives a value, or it panics.
abbrev pub OnlyPanic {ℓ} : {A : Type ℓ} → Result A → Type ℓ
OnlyPanic {A = A} m = (m ≡ err panic) ⊎ ((a : A) × (m ≡ ok a))

pub ok_or-OnlyPanic {ℓ} : {A : Type ℓ} (o : Option A) → OnlyPanic (ok_or o panic)
ok_or-OnlyPanic none = inl refl
ok_or-OnlyPanic (some a) = inr (a, refl)

pub bind-OnlyPanic {ℓ κ} :
    {A : Type ℓ} {B : Type κ} (m : Result A) (f : A → Result B)
    → OnlyPanic m
    → ((a : A) → OnlyPanic (f a))
    → OnlyPanic (m >>= f)
bind-OnlyPanic m f (inl e) k = inl (rw e)
bind-OnlyPanic m f (inr (a, e)) k = rw e (k a)

pub bind-panic {ℓ κ} :
    {A : Type ℓ} {B : Type κ} (m : Result A) (f : A → Result B)
    → OnlyPanic m
    → ((a : A) → m ≡ ok a → f a ≡ err panic)
    → (m >>= f) ≡ err panic
bind-panic m f (inl e) k = rw e
bind-panic m f (inr (a, e)) k = rw e (k a e)
