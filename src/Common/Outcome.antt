-- ===== src/Common/Outcome.antt =====
-- The outcome of a call of the C++ code, and `do` blocks over it.
use Prim.Native.Nat.{ℕ}
use mathlib.Core.Path.{◌≡◌, refl}
use mathlib.Core.Logic.{◌≢◌}
use mathlib.Core.Bool.{Bool, true, false}

-- `ok a`: the call returned 0 and left `a` in its output parameters. `err c`: it returned the code
-- `c`. `fault`: undefined behaviour (an access out of bounds or through a null or freed pointer, a
-- second free, a shift by 64 bits or more). `stuck` is no outcome of the code: a loop's fuel ran out.
pub data Result {ℓ} (A : Type ℓ) : Type ℓ where
  ok : A → Result A
  err : ℕ → Result A
  fault : Result A
  stuck : Result A

infixl 5 ◌>>=◌ ◌>>◌
abbrev pub ◌>>=◌ {ℓ κ} :
    {Out : Type ℓ} {Next : Type κ} → Result Out → (Out → Result Next) → Result Next
fault >>= next = fault
stuck >>= next = stuck
err code >>= next = err code
ok out >>= next = next out

abbrev pub ◌>>◌ {κ} : {Next : Type κ} → Result (Unit {0}) → Result Next → Result Next
call >> next = call >>= λ _. next

-- `if (!b) return e;`
abbrev pub guard : Bool → ℕ → Result (Unit {0})
guard true e = ok tt
guard false e = err e

-- A use that is undefined unless `b` holds.
abbrev pub need : Bool → Result (Unit {0})
need true = ok tt
need false = fault

module _ {ℓ} {A : Type ℓ} where
  -- The caller does not look at the code, and goes on with outputs that were never set.
  abbrev pub or_fault : Result A → Result A
  or_fault (ok a) = ok a
  or_fault (err e) = fault
  or_fault fault = fault
  or_fault stuck = stuck

  -- The caller does `clean` on an error and returns the code.
  abbrev pub on_error {κ} : {B : Type κ} → Result B → Result A → Result A
  on_error clean (ok a) = ok a
  on_error (ok done) (err e) = err e
  on_error (err e') (err e) = err e'
  on_error fault (err e) = fault
  on_error stuck (err e) = stuck
  on_error clean fault = fault
  on_error clean stuck = stuck

  -- The caller answers any error by a code of its own.
  abbrev pub recode : ℕ → Result A → Result A
  recode c (ok a) = ok a
  recode c (err e) = err c
  recode c fault = fault
  recode c stuck = stuck

  -- The caller ignores an error, and the old value stays.
  abbrev pub attempt : A → Result A → Result A
  attempt old (ok a) = ok a
  attempt old (err e) = ok old
  attempt old fault = fault
  attempt old stuck = stuck

-- A chain that returned 0: what its first call left, and that the rest returned 0.
pub ok_parts {ℓ κ} :
    {Out : Type ℓ} {Next : Type κ} (call : Result Out) (next : Out → Result Next) {end : Next}
    → (call >>= next) ≡ ok end
    → (out : Out) × (call ≡ ok out) × (next out ≡ ok end)
ok_parts fault next e = cc
ok_parts stuck next e = cc
ok_parts (err code) next e = cc
ok_parts (ok out) next e = (out, refl, e)

pub need-eq-ok : (b : Bool) {u : Unit {0}} → need b ≡ ok u → b ≡ true
need-eq-ok true h = refl
need-eq-ok false h = cc

pub or_fault-eq-ok {ℓ} : {A : Type ℓ} (m : Result A) {a : A} → or_fault m ≡ ok a → m ≡ ok a
or_fault-eq-ok (ok a) h = h
or_fault-eq-ok (err e) h = cc
or_fault-eq-ok fault h = cc
or_fault-eq-ok stuck h = cc

pub on_error-eq-ok {ℓ κ} :
    {A : Type ℓ} {B : Type κ} (clean : Result B) (m : Result A) {a : A}
    → on_error clean m ≡ ok a
    → m ≡ ok a
on_error-eq-ok clean (ok a) h = h
on_error-eq-ok (ok b) (err e) h = cc
on_error-eq-ok (err e') (err e) h = cc
on_error-eq-ok fault (err e) h = cc
on_error-eq-ok stuck (err e) h = cc
on_error-eq-ok clean fault h = cc
on_error-eq-ok clean stuck h = cc

pub on_error-ne-stuck {ℓ κ} :
    {A : Type ℓ} {B : Type κ} (clean : Result B) (m : Result A)
    → clean ≢ stuck
    → m ≢ stuck
    → on_error clean m ≢ stuck
on_error-ne-stuck clean (ok a) c h = λ e. cc
on_error-ne-stuck (ok b) (err e) c h = λ e. cc
on_error-ne-stuck (err e') (err e) c h = λ e. cc
on_error-ne-stuck fault (err e) c h = λ e. cc
on_error-ne-stuck stuck (err e) c h = absurd (c refl)
on_error-ne-stuck clean fault c h = λ e. cc
on_error-ne-stuck clean stuck c h = absurd (h refl)

-- A call that is not stuck, followed by one that is not, is not.
pub >>=-ne-stuck {ℓ κ} :
    {A : Type ℓ} {B : Type κ} (m : Result A) (f : A → Result B)
    → m ≢ stuck
    → ((a : A) → m ≡ ok a → f a ≢ stuck)
    → (m >>= f) ≢ stuck
>>=-ne-stuck (ok a) f h k = k a refl
>>=-ne-stuck (err e) f h k = λ e. cc
>>=-ne-stuck fault f h k = λ e. cc
>>=-ne-stuck stuck f h k = absurd (h refl)

pub or_fault-ne-stuck {ℓ} : {A : Type ℓ} (m : Result A) → m ≢ stuck → or_fault m ≢ stuck
or_fault-ne-stuck (ok a) h = λ e. cc
or_fault-ne-stuck (err e) h = λ e. cc
or_fault-ne-stuck fault h = λ e. cc
or_fault-ne-stuck stuck h = absurd (h refl)

pub guard-ne-stuck : (b : Bool) (c : ℕ) → guard b c ≢ stuck
guard-ne-stuck true c = λ e. cc
guard-ne-stuck false c = λ e. cc

pub need-ne-stuck : (b : Bool) → need b ≢ stuck
need-ne-stuck true = λ e. cc
need-ne-stuck false = λ e. cc
