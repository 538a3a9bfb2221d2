-- ===== src/Decimal/Returning.antt =====
-- Computations of the module that return: none of their steps raises.
use aurexis.Base.{◌≡◌, refl, Bool, true, false, if◌then◌else◌}
use aurexis.Decimal.{Checked, ok, ◌>>=◌}

abbrev pub Returns : {A : Type 0} → Checked A → Type 0
Returns {A} m = (x : A) × (m ≡ ok x)

pub bind-Returns :
    {A B : Type 0} (m : Checked A) (f : A → Checked B)
    → Returns m
    → ((x : A) → Returns (f x))
    → Returns (m >>= f)
bind-Returns m f (x, e) next = let (y, h) = next x in (y, rw e h)

pub if-Returns :
    {A : Type 0} (b : Bool) (x y : Checked A)
    → (b ≡ true → Returns x)
    → (b ≡ false → Returns y)
    → Returns (if b then x else y)
if-Returns true x y p q = p refl
if-Returns false x y p q = q refl
