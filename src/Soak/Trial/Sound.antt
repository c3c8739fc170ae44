-- ===== src/Soak/Trial/Sound.antt =====
-- Calls that return with a property, or raise something else than an IndexError.
use myaqi_iot_platform.Prelude.{◌≡◌, refl, Bool, true, false, Option, none, some}
use myaqi_iot_platform.Prelude.Result.{Result, ok, err, raise_if, or_raise, ◌>>=◌, ◌>>◌}
use myaqi_iot_platform.Soak.Trial.{
  TrialError, index_error, unexpected_status, not_covered, unexpected_replay,
}

abbrev pub is_index_error : TrialError → Bool
is_index_error index_error = true
is_index_error _ = false

-- The call returns with the property, or it raises something else than an IndexError.
abbrev pub Sound : {A : Type 0} → (A → Type 0) → Result TrialError A → Type 0
Sound P (ok a) = P a
Sound P (err e) = is_index_error e ≡ false

pub Sound-bind :
    {A B : Type 0} (P : A → Type 0) (Q : B → Type 0) (r : Result TrialError A)
    (next : A → Result TrialError B)
    → Sound P r
    → ((a : A) → P a → Sound Q (next a))
    → Sound Q (r >>= next)
Sound-bind P Q (ok a) next h k = k a h
Sound-bind P Q (err e) next h k = h

pub Sound-raise_if :
    {B : Type 0} (Q : B → Type 0) (b : Bool) (e : TrialError) (next : Result TrialError B)
    → is_index_error e ≡ false
    → (b ≡ false → Sound Q next)
    → Sound Q (raise_if b e >> next)
Sound-raise_if Q true e next h k = h
Sound-raise_if Q false e next h k = k refl

-- The three checks of `send`
pub Sound-checks :
    {A : Type 0} (P : A → Type 0) (x y z : Bool) (a : A)
    → P a
    → Sound P (do
      raise_if x unexpected_status
      raise_if y not_covered
      raise_if z unexpected_replay
      ok a)
Sound-checks P true y z a h = refl
Sound-checks P false true z a h = refl
Sound-checks P false false true a h = refl
Sound-checks P false false false a h = h

pub Sound-imp :
    {A : Type 0} (P Q : A → Type 0) (r : Result TrialError A)
    → Sound P r
    → ((a : A) → P a → Q a)
    → Sound Q r
Sound-imp P Q (ok a) h k = k a h
Sound-imp P Q (err e) h k = h

pub Sound-or_raise :
    {A B : Type 0} (Q : B → Type 0) (o : Option A) (e : TrialError) (next : A → Result TrialError B)
    → is_index_error e ≡ false
    → ((a : A) → Sound Q (next a))
    → Sound Q (or_raise o e >>= next)
Sound-or_raise Q none e next h k = h
Sound-or_raise Q (some a) e next h k = k a
