-- ===== src/Common/Append.antt =====
-- Laws of texts put together and cut.
use Prim.Native.Nat.{ℕ, zero, suc, ◌+◌, ◌≤◌}
use Prim.Native.String.{String}
use mathlib.Core.Path.{◌≡◌}
use native.Mathlib.Omega.{arith}
use autonomous_agent.Common.Text.{◌<>◌, text_length, text_take}
pub use text.Mathlib.TextLemmas.{nil-append, cons-append, append-nil, append_assoc}

pub text_length-append : (s t : String) → text_length (s <> t) ≡ text_length s + text_length t
text_length-append String.[] t = rw nil-append (omega arith)
text_length-append (String.◌∷◌ c s) t = rw cons-append (omega (arith, text_length-append s t))

pub text_length-take_le : (n : ℕ) (s : String) → text_length (text_take n s) ≤ n
text_length-take_le zero s = omega arith
text_length-take_le (suc n) String.[] = omega arith
text_length-take_le (suc n) (String.◌∷◌ c s) = omega (arith, text_length-take_le n s)
