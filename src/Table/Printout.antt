-- ===== src/Table/Printout.antt =====
-- src/output/table.rs:148-331: everything that `print_results` prints, in its order. How a table is
-- drawn is the `tabled` crate's.
use Prim.Native.String.{String}
use orbshred.Prelude.{Option, List, [], ◌∷◌, ◌++◌, map}
use orbshred.Exec.{Exec, ok, ◌>>=◌}
use orbshred.Stats.{BenchmarkStats}
use orbshred.Stats.Percentiles.{F64}
use orbshred.Table.{
  Format, LatencyRow, WinRow, CoverageRow, ShredTypeRow, SlotRow, GrpcOverheadRow, Tables,
  print_results,
}
use orbshred.Table.Banner.{banner}

-- A line of text, or a table with its rows.
pub data Printed : Type 0 where
  line : String → Printed
  latency_table : List LatencyRow → Printed
  win_table : List WinRow → Printed
  coverage_table : List CoverageRow → Printed
  type_table : List ShredTypeRow → Printed
  entry_table : List SlotRow → Printed
  overhead_table : List GrpcOverheadRow → Printed

-- Headings, a table and a blank line.
abbrev section : List String → Printed → List Printed
section headings table = map (λ (h : String). line h) headings ++ (table ∷ line "" ∷ [])

unfoldable pub entry_section : List SlotRow → List Printed
entry_section [] = []
entry_section (r ∷ rs) =
    section
      ("SLOT / ENTRY LATENCY  vs first shred arrival (any source)"
        ∷ "(time from earliest shred received across all sources → gRPC delivery; includes shred assembly + execution)"
        ∷ [])
      (entry_table (r ∷ rs))

unfoldable pub overhead_section : List GrpcOverheadRow → List Printed
overhead_section [] = []
overhead_section (r ∷ rs) =
    section
      ("YELLOWSTONE gRPC OVERHEAD  (entry processed → account update delivered)"
        ∷ "(pure gRPC latency after the validator executes the entry — shred assembly time excluded)"
        ∷ [])
      (overhead_table (r ∷ rs))

unfoldable pub sections : Tables → List Printed
unfolding entry_section overhead_section
sections t =
    section ("LATENCY RELATIVE TO FIRST ARRIVAL  (per shred, data + FEC combined)" ∷ [])
      (latency_table t.latency)
    ++ section ("FIRST ARRIVAL WINS  (which source received each shred first)" ∷ [])
        (win_table t.wins)
    ++ section ("COVERAGE & RELIABILITY" ∷ []) (coverage_table t.coverage)
    ++ section ("SHRED TYPE BREAKDOWN" ∷ []) (type_table t.types)
    ++ entry_section t.entries
    ++ overhead_section t.overhead
    ++ (line "" ∷ [])

unfoldable pub printout :
    Format
    → F64
    → {F : Type 0} → (F → String)
    → String
    → Option String
    → BenchmarkStats F
    → Exec (List Printed)
unfolding banner print_results sections
printout fmt fl rounded started leader_pubkey stats = do
  t ← print_results fmt fl stats
  ok (map (λ (l : String). line l) (banner fmt rounded started leader_pubkey stats) ++ sections t)
