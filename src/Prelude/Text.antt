-- ===== src/Prelude/Text.antt =====
-- Strings put together, under a name of its own beside the `++` of lists.
use Prim.Native.String.{String, ◌++◌, len}
use orbshred.Prelude.Tests.{◌==◌}
use mathlib.Core.Bool.{Bool}

abbrev pub join : String → String → String
join a b = a ++ b

abbrev pub blank : String → Bool
blank s = len s == 0
