-- ===== src/Table/Banner.antt =====
-- src/output/table.rs:148-184: the box above the tables. Strings are measured in characters, as
-- `format!` pads them. How a float is rounded to no decimals is an input, and so is the text of the
-- time at which the run started.
use Prim.Native.String.{String, count}
use text.Mathlib.TextLemmas.{length-append}
use orbshred.Prelude.{
  ℕ, zero, suc, ◌+◌, ◌-◌, ◌/◌, ◌≤◌, ◌≡◌, refl, Option, none, some, List, [], ◌∷◌, ◌++◌, length, map,
  max, All, arith,
}
use orbshred.Prelude.Text.{join}
use orbshred.Prelude.Decimal.{reversed_decimal, backwards}
use orbshred.Stats.{BenchmarkStats}
use orbshred.Table.{Format, num_fmt}

-- `s.repeat(n)`
unfoldable pub repeat : String → ℕ → String
repeat s zero = ""
repeat s (suc n) = join s (repeat s n)

-- `{:^width$}`: a text that is too long stays as it is; of an odd number of blanks the right side has
-- one more.
unfoldable pub centred : ℕ → String → String
unfolding repeat
centred width s =
    let padding = width - count s in
    join (repeat " " (padding / 2)) (join s (repeat " " ((padding + 1) / 2)))

abbrev pub box_width : ℕ
box_width = 90

unfoldable pub framed : String → String
unfolding centred
framed s = join "║" (join (centred box_width s) "║")

module _ (fmt : Format) {F : Type 0} (rounded : F → String) where
  open fmt use {text}

  unfoldable pub title_line : BenchmarkStats F → String
  unfolding num_fmt
  title_line stats = join " SHRED BENCHMARK  ·  " (
      join (rounded stats.duration_secs) (
        join "s  ·  " (
          join (text (num_fmt stats.total_unique_shreds)) (
            join " unique shreds  ·  "
              (join (text (backwards (reversed_decimal (length stats.sources)))) " sources ")))))

  unfoldable pub slots_line : BenchmarkStats F → String
  unfolding num_fmt
  slots_line stats = join "Slots: " (
      join (text (num_fmt stats.min_slot)) (
        join " → " (
          join (text (num_fmt stats.max_slot))
            (join " (" (join (text (num_fmt stats.slot_stats.total_slots)) " observed)")))))

  unfoldable pub leader_line : Option String → List String
  leader_line none = []
  leader_line (some pubkey) = join "Leader filter: " pubkey ∷ []

  -- The lines of text in the box.
  unfoldable pub box_texts : String → Option String → BenchmarkStats F → List String
  unfolding title_line slots_line leader_line
  box_texts started leader_pubkey stats =
      title_line stats
      ∷ slots_line stats
      ∷ (leader_line leader_pubkey ++ (join "started " started ∷ []))

  unfoldable pub box : String → Option String → BenchmarkStats F → List String
  unfolding box_texts framed repeat
  box started leader_pubkey stats =
      join "╔" (join (repeat "═" box_width) "╗")
      ∷ (map framed (box_texts started leader_pubkey stats)
          ++ (join "╚" (join (repeat "═" box_width) "╝") ∷ []))

  unfoldable pub banner : String → Option String → BenchmarkStats F → List String
  unfolding box
  banner started leader_pubkey stats = "" ∷ (box started leader_pubkey stats ++ ("" ∷ []))

count-repeat : (s : String) (n : ℕ) → count s ≡ 1 → count (repeat s n) ≡ n
unfolding repeat
count-repeat s zero h = refl
count-repeat s (suc n) h = omega (arith, h, length-append s (repeat s n), count-repeat s n h)

count-centred : (width : ℕ) (s : String) → count (centred width s) ≡ max width (count s)
unfolding centred
count-centred width s =
    let padding = width - count s in
    let left = repeat " " (padding / 2) in
    let right = repeat " " ((padding + 1) / 2) in
    omega (
      arith,
      length-append left (join s right),
      length-append s right,
      count-repeat " " (padding / 2) refl,
      count-repeat " " ((padding + 1) / 2) refl,
    )

-- A text between two characters.
count-between :
    (a s b : String) → count a ≡ 1 → count b ≡ 1 → count (join a (join s b)) ≡ count s + 2
count-between a s b h k = omega (arith, h, k, length-append a (join s b), length-append s b)

count-framed : (s : String) → count s ≤ box_width → count (framed s) ≡ box_width + 2
unfolding framed
count-framed s h =
    omega
      (arith, h, count-between "║" (centred box_width s) "║" refl refl, count-centred box_width s)

abbrev IsBoxed : String → Type 0
IsBoxed l = count l ≡ box_width + 2

-- Framed texts above the bottom of the box.
framed-IsBoxed :
    (ts : List String) (bottom : String)
    → All (λ t. count t ≤ box_width) ts
    → IsBoxed bottom
    → All IsBoxed (map framed ts ++ (bottom ∷ []))
framed-IsBoxed [] bottom fit h = (h, tt)
framed-IsBoxed (t ∷ ts) bottom (f, fit) h = (count-framed t f, framed-IsBoxed ts bottom fit h)

edge-IsBoxed :
    (a b : String) → count a ≡ 1 → count b ≡ 1 → IsBoxed (join a (join (repeat "═" box_width) b))
edge-IsBoxed a b h k =
    omega (arith, count-between a (repeat "═" box_width) b h k, count-repeat "═" box_width refl)

-- If no text is longer than the box is wide, all lines of the box have the same number of characters.
pub box-IsBoxed :
    (fmt : Format) {F : Type 0} (rounded : F → String) (started : String)
    (leader_pubkey : Option String) (stats : BenchmarkStats F)
    → All (λ t. count t ≤ box_width) (box_texts fmt rounded started leader_pubkey stats)
    → All (λ l. count l ≡ box_width + 2) (box fmt rounded started leader_pubkey stats)
unfolding box
box-IsBoxed fmt rounded started leader_pubkey stats fit = (
  edge-IsBoxed "╔" "╗" refl refl,
  framed-IsBoxed (box_texts fmt rounded started leader_pubkey stats) _ fit
      (edge-IsBoxed "╚" "╝" refl refl),
)
