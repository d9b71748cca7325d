-- ===== src/Calls.antt =====
-- Calls of a client, and the requests that are made of them: checks first, then one call, whose error
-- is passed on under the operation's name.
use workspace_service.Base.{◌≡◌, refl, Text}
use workspace_service.Errors.{Result, ok, err, prefix_wrap}

-- A call: its answer, and the state after it.
abbrev pub Call : Type 0 → Type 0 → Type 0
Call W A = W → Result A × W

-- The rest of an operation behind its checks: an error of theirs is the answer.
abbrev pub checked : {W A B : Type 0} → Result A → (A → Call W B) → Call W B
checked (err e) rest w = (err e, w)
checked (ok a) rest w = rest a w

-- The answer of the client, its error with the operation's name in front.
abbrev pub answer : {W A B : Type 0} → Text → (A → B) → Result A × W → Result B × W
answer name f (ok a, w) = (ok (f a), w)
answer name f (err e, w) = (err (prefix_wrap name e), w)

-- Behind a check, two continuations need to agree on what passes it only.
pub checked_cong :
    {W A B : Type 0} (m : Result A) (f g : A → Call W B) (w : W)
    → ((a : A) → m ≡ ok a → f a w ≡ g a w)
    → checked m f w ≡ checked m g w
checked_cong (ok a) f g w h = h a refl
checked_cong (err e) f g w h = refl
