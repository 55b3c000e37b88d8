-- ===== src/Prelude/Frame.antt =====
-- What an action leaves as it is, whether it returns or throws: a rule for binding actions.
use mathlib.Core.Path.{◌≡◌, refl, ◌∙◌}
use orbitersdk_cpp.Prelude.Throw.{Result, ok, err}
use orbitersdk_cpp.Prelude.Exec.{Exec, continue, ◌>>=◌}

module _ {S A B T : Type 0} (f : S → T) where
  continue-Frame :
      (r : Result A) (k : A → Exec S B)
      → ((a : A) → (s : S) → f (k a s).1 ≡ f s)
      → (s : S) → f (continue r k s).1 ≡ f s
  continue-Frame (ok a) k h s = h a s
  continue-Frame (err e) k h s = refl

  pub bind-Frame :
      (m : Exec S A) (k : A → Exec S B)
      → ((s : S) → f (m s).1 ≡ f s)
      → ((a : A) → (s : S) → f (k a s).1 ≡ f s)
      → (s : S) → f ((m >>= k) s).1 ≡ f s
  bind-Frame m k hm hk s = continue-Frame (m s).0 k hk (m s).1 ∙ hm s
