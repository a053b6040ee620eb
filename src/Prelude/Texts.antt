-- ===== src/Prelude/Texts.antt =====
-- `std::string` as the list of its bytes.
use Prim.Native.Nat.{ℕ}
use mathlib.Core.List.{List, List-discrete}
use native.Mathlib.Decide.{ℕ_discrete}

abbrev pub Text : Type 0
Text = List ℕ

pub Text-discrete : Discrete Text
Text-discrete = List-discrete ℕ_discrete
