-- ===== src/Common/Exec.antt =====
-- Go functions that may fail (`Result`), and those that change a state on the way (`Exec`). What
-- was written before an error stays written, so the state comes back beside the error too.
use mathlib.Core.Path.{◌≡◌, refl}
use mathlib.Core.Option.{Option, none, some}
use Prim.Native.String.{String}

-- The error values: the operator's own types, those that it makes with `fmt.Errorf`, a panic, and
-- the errors of the libraries, which are known by their text and by what the libraries' own
-- predicates say of them (`Kube`). A panic is no error value, but no caller in the operator
-- recovers from one, so it leaves a function the way that an error does.
pub data Error : Type 0 where
  namespace_conflict : String → Error
  template_not_found : String → Error
  template_invalid : String → String → Error
  not_workspace_admin : Error
  no_admission_request : Error → Error
  nil_dereference : Error
  foreign : String → Error

pub data Result {ℓ} (A : Type ℓ) : Type ℓ where
  ok : A → Result A
  err : Error → Result A

abbrev pub Exec : Type 0 → Type 0 → Type 0
Exec S A = S → Result A × S

abbrev pub continue : {S A B : Type 0} → Result A × S → (A → Exec S B) → Result B × S
continue (ok a, s) f = f a s
continue (err e, s) f = (err e, s)

infixl 5 ◌>>=◌ ◌>>◌
abbrev pub ◌>>=◌ : {S A B : Type 0} → Exec S A → (A → Exec S B) → Exec S B
◌>>=◌ m f s = continue (m s) f

abbrev pub ◌>>◌ : {S A B : Type 0} → Exec S A → Exec S B → Exec S B
m >> n = m >>= λ _. n

abbrev pub pure : {S A : Type 0} → A → Exec S A
pure a s = (ok a, s)

abbrev pub raise : {S A : Type 0} → Error → Exec S A
raise e s = (err e, s)

-- `return filter(call())`, where the filter turns some errors into success.
abbrev pub filter_result : (Error → Option Error) → Result (Unit {0}) → Result (Unit {0})
filter_result f (ok a) = ok tt
filter_result f (err e) = elim (f e) [ none ↦ ok tt | some e' ↦ err e' ]

abbrev pub filter_error :
    {S : Type 0} → (Error → Option Error) → Exec S (Unit {0}) → Exec S (Unit {0})
filter_error f m s = let (r, s') = m s in (filter_result f r, s')

module _ {S A B : Type 0} (f : A → Exec S B) {b : B} {u : S} where
  continue-eq-ok :
      (r : Result A × S)
      → continue r f ≡ (ok b, u)
      → (a : A) × (t : S) × (r ≡ (ok a, t)) × (f a t ≡ (ok b, u))
  continue-eq-ok (ok a, t) h = (a, t, refl, h)
  continue-eq-ok (err e, t) h = cc

-- A block that succeeds has succeeded in each of its parts.
pub bind-eq-ok :
    {S A B : Type 0} (m : Exec S A) (f : A → Exec S B) (s : S) {b : B} {u : S}
    → (m >>= f) s ≡ (ok b, u)
    → (a : A) × (t : S) × (m s ≡ (ok a, t)) × (f a t ≡ (ok b, u))
bind-eq-ok m f s h = continue-eq-ok f (m s) h

-- A block whose first part fails does nothing more.
pub bind-err :
    {S A B : Type 0} (m : Exec S A) (f : A → Exec S B) (s : S) {e : Error} {t : S}
    → m s ≡ (err e, t)
    → (m >>= f) s ≡ (err e, t)
bind-err m f s h = rw h
