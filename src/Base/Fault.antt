-- ===== src/Base/Fault.antt =====
-- Commands over a state that may fault: `none` is undefined behaviour of the C program (an access
-- out of bounds, a use of NULL).

use mathlib.Core.Path.{◌≡◌}
use mathlib.Core.Option.{Option, none, some}

abbrev pub M : Type 0 → Type 0 → Type 0
M W A = W → Option (A × W)

abbrev pub pure : {W A : Type 0} → A → M W A
pure a w = some (a, w)

abbrev pub fault : {W A : Type 0} → M W A
fault w = none

infixl 5 ◌>>=◌ ◌>>◌
abbrev pub ◌>>=◌ : {W A B : Type 0} → M W A → (A → M W B) → M W B
◌>>=◌ m f w = elim (m w) [ none ↦ none | some (a, w') ↦ f a w' ]

abbrev pub ◌>>◌ : {W B : Type 0} → M W (Unit {0}) → M W B → M W B
m >> k = m >>= λ _. k

-- A pure step that faults on `none`.
abbrev pub checked : {W A : Type 0} → Option A → M W A
checked none w = none
checked (some a) w = some (a, w)

-- A command whose first step is known.
pub bind-some :
    {W A B : Type 0} (m : M W A) (f : A → M W B) {w : W} {a : A} {w' : W}
    → m w ≡ some (a, w')
    → (m >>= f) w ≡ f a w'
bind-some m f h = rw (h, ◌>>=◌)

pub bind-none :
    {W A B : Type 0} (m : M W A) (f : A → M W B) {w : W} → m w ≡ none → (m >>= f) w ≡ none
bind-none m f h = rw (h, ◌>>=◌)
