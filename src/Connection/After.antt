-- ===== src/Connection/After.antt =====
-- What holds behind a call: of the world it leaves with a value, and of that it leaves with an error.
use xbox360_tls.Base.{Bool, true, false, if◌then◌else◌, Option, some, none, ◌≡◌, refl}
use xbox360_tls.Bytes.{Error, Result, ok, err}
use xbox360_tls.Connection.{World}
use xbox360_tls.Connection.Action.{Action, continue}

unfoldable pub After :
    {S A : Type 0} → (World S → Type 0) → (World S → Type 0) → World S × Result A → Type 0
After P Q (w, ok value) = P w
After P Q (w, err code) = Q w

pub After-value :
    {S A : Type 0} (P Q : World S → Type 0) (w : World S) (value : A)
    → P w
    → After P Q (w, ok value)
unfolding After
After-value P Q w value h = h

pub After-error :
    {S : Type 0} (A : Type 0) (P Q : World S → Type 0) (w : World S) (code : Error)
    → Q w
    → After {A = A} P Q (w, err code)
unfolding After
After-error A P Q w code h = h

-- Where both outcomes have the same, it is a property of the world.
pub After-both :
    {S A : Type 0} (P : World S → Type 0) (w : World S) (r : Result A) → P w → After P P (w, r)
unfolding After
After-both P w (ok value) h = h
After-both P w (err code) h = h

pub after_world :
    {S A : Type 0} (P : World S → Type 0) (r : World S × Result A) → After P P r → P (r.0)
unfolding After
after_world P (w, ok value) h = h
after_world P (w, err code) h = h

pub After-then :
    {S A B : Type 0} (P P' Q : World S → Type 0) (r : World S × Result A) (next : A → Action S B)
    → After P Q r
    → ((value : A) (w : World S) → P w → After P' Q (next value w))
    → After P' Q (continue r next)
unfolding After
After-then P P' Q (w, ok value) next h k = k value w h
After-then P P' Q (w, err code) next h k = h

-- A guard, or another computation that changes nothing.
pub After-lift :
    {S A B : Type 0} (P Q : World S → Type 0) (w : World S) (r : Result A) (next : A → Action S B)
    → Q w
    → ((value : A) → (r ≡ ok value) → After P Q (next value w))
    → After P Q (continue (w, r) next)
unfolding After
After-lift P Q w (ok value) next h k = k value refl
After-lift P Q w (err code) next h k = h

pub After-if :
    {S A : Type 0} (P Q : World S → Type 0) (test : Bool) (a b : Action S A) (w : World S)
    → After P Q (a w)
    → After P Q (b w)
    → After P Q ((if test then a else b) w)
After-if P Q true a b w h k = h
After-if P Q false a b w h k = k

pub After-weaken :
    {S A : Type 0} (P P' Q Q' : World S → Type 0) (r : World S × Result A)
    → After P Q r
    → ((w : World S) → P w → P' w)
    → ((w : World S) → Q w → Q' w)
    → After P' Q' r
unfolding After
After-weaken P P' Q Q' (w, ok value) h f g = f w h
After-weaken P P' Q Q' (w, err code) h f g = g w h

pub After-option :
    {S A B : Type 0} (P Q : World S → Type 0) (o : Option B) (missing : Action S A)
    (found : B → Action S A) (w : World S)
    → After P Q (missing w)
    → ((value : B) → After P Q (found value w))
    → After P Q ((elim o as (λ x. Action S A) [ none ↦ missing | some value ↦ found value ]) w)
After-option P Q none missing found w h k = h
After-option P Q (some value) missing found w h k = k value
