-- ===== src/Log/Write.antt =====
-- src/output/logfile.rs:27-79: `write_log`. Creating the file, serializing an entry and each write may
-- fail; a failure ends the function, and what was handed to the writer until then stays.
use Prim.Native.String.{String}
use orbshred.Prelude.{
  ℕ, zero, suc, ◌+◌, ◌≡◌, refl, sym, ap, subst, ◌∙◌, ◌⊎◌, length, length-append, length-map, inl,
  inr, Bool, true, false, Option, none, some, List, [], ◌∷◌, ◌++◌, map, if◌then◌else◌, Bool-cases,
  arith,
}
use mathlib.Core.List.{append_assoc, append-nil}
use orbshred.Registry.{SourceId, Instant, Store, Registry}
use orbshred.Log.{ShredLogEntry, log_entry}

-- What the system and `serde_json` answer: whether the file could be created, whether the `n`-th
-- write and the flush succeed, and the text of an entry.
pub record LogCalls : Type 0 where
  pub creates : Bool
  pub writes : ℕ → Bool
  pub flushes : Bool
  pub serialize : ShredLogEntry → Option String

pub data LogError : Type 0 where
  create_failed write_failed serialize_failed flush_failed : LogError

-- The lines handed to the writer, and how the function ended.
pub record Log : Type 0 where
  pub lines : List String
  pub failure : Option LogError

module _ (calls : LogCalls) where
  -- `writeln!(writer, ..)?`, and what comes after it.
  unfoldable pub write_line : String → ℕ → (ℕ → List String → Log) → List String → Log
  write_line line n next lines =
      if calls.writes n
      then next (suc n) (lines ++ (line ∷ []))
      else record { lines = lines; failure = some write_failed }

  -- `writer.flush()?; Ok(())`
  unfoldable pub finish_log : List String → Log
  finish_log lines = record {
    lines = lines;
    failure = if calls.flushes then none else some flush_failed;
  }

  unfoldable pub write_entries : List ShredLogEntry → ℕ → List String → Log
  unfolding write_line finish_log
  write_entries [] n lines = finish_log lines
  write_entries (e ∷ es) n lines = elim (calls.serialize e) [
    | none ↦ record { lines = lines; failure = some serialize_failed }
    | some line ↦ write_line line n (write_entries es) lines
  ]

  -- The title holds the time of day.
  unfoldable pub write_log :
      {st : Store}
      → (SourceId → String)
      → String
      → Registry st
      → Instant
      → List (SourceId × String)
      → Log
  unfolding write_entries log_entry
  write_log {st} fallback title r start names =
      if calls.creates
      then write_line title 0
          (write_entries (map (log_entry fallback names start) (st.shred_map.entries r.shreds))) []
      else record { lines = []; failure = some create_failed }

abbrev pub with_text : Option String → List String → List String
with_text none l = l
with_text (some line) l = line ∷ l

-- The texts of the entries that have one.
unfoldable pub texts : LogCalls → List ShredLogEntry → List String
texts calls [] = []
texts calls (e ∷ es) = with_text (calls.serialize e) (texts calls es)

-- What made `write_log` fail.
abbrev pub Cause : LogCalls → LogError → Type 0
Cause calls create_failed = calls.creates ≡ false
Cause calls write_failed = (n : ℕ) × (calls.writes n ≡ false)
Cause calls serialize_failed = (e : ShredLogEntry) × (calls.serialize e ≡ none)
Cause calls flush_failed = calls.flushes ≡ false

-- The first `n` writes succeed.
abbrev pub WritesAll : LogCalls → ℕ → Type 0
WritesAll calls zero = Unit {0}
WritesAll calls (suc n) = WritesAll calls n × (calls.writes n ≡ true)

-- Either the file was created, all `n` lines were written and the flush succeeded, or a call failed and
-- those written are the first ones.
abbrev pub Ended : LogCalls → List String → ℕ → Log → Type 0
Ended calls all n l =
    ((l.failure ≡ none)
      × (l.lines ≡ all)
      × (length all ≡ n)
      × (calls.creates ≡ true)
      × WritesAll calls n
      × (calls.flushes ≡ true))
    ⊎ ((err : LogError) × (l.failure ≡ some err)
        × Cause calls err
        × ((rest : List String) × (all ≡ l.lines ++ rest)))

module _ (calls : LogCalls) (created : calls.creates ≡ true) where
  finish_log-Ended :
      (lines all : List String) (n : ℕ)
      → all ≡ lines
      → length all ≡ n
      → WritesAll calls n
      → Ended calls all n (finish_log calls lines)
  unfolding finish_log
  finish_log-Ended lines all n h k w = elim (Bool-cases calls.flushes) [
    | inl e ↦ inl (rw e refl, sym h, k, created, w, e)
    | inr e ↦ inr (flush_failed, rw e refl, e, ([], h ∙ sym (append-nil lines)))
  ]

  write_line-Ended :
      (line : String) (n k : ℕ) (next : ℕ → List String → Log) (lines rest : List String)
      → (calls.writes n ≡ true
          → Ended calls (lines ++ (line ∷ []) ++ rest) k (next (suc n) (lines ++ (line ∷ []))))
      → Ended calls (lines ++ (line ∷ rest)) k (write_line calls line n next lines)
  unfolding write_line
  write_line-Ended line n k next lines rest h = elim (Bool-cases (calls.writes n)) [
    | inl e ↦
        let log = next (suc n) (lines ++ (line ∷ [])) in
        rw e (subst (λ l. Ended calls l k log) (append_assoc lines (line ∷ []) rest) (h e))
    | inr e ↦ rw e (inr (write_failed, refl, (n, e), (line ∷ rest, refl)))
  ]

  write_entries-Ended :
      (es : List ShredLogEntry) (n k : ℕ) (lines : List String)
      → length lines ≡ n
      → n + length es ≡ k
      → WritesAll calls n
      → Ended calls (lines ++ texts calls es) k (write_entries calls es n lines)
  unfolding write_entries texts
  write_entries-Ended [] n k lines g h w =
      let all : n ≡ k = omega (arith, h) in
      finish_log-Ended lines _ k (append-nil lines) (ap length (append-nil lines) ∙ g ∙ all)
        (subst (WritesAll calls) all w)
  write_entries-Ended (e ∷ es) n k lines g h w =
      go (calls.serialize e) refl
        (λ l q v. write_entries-Ended es (suc n) k l q (omega (arith, h)) v)
    where
      Rest : Type 0
      Rest =
          (l : List String)
          → length l ≡ suc n
          → WritesAll calls (suc n)
          → Ended calls (l ++ texts calls es) k (write_entries calls es (suc n) l)

      go :
          (o : Option String)
          → calls.serialize e ≡ o
          → Rest
          → Ended calls (lines ++ texts calls (e ∷ es)) k (elim o [
            | none ↦ record { lines = lines; failure = some serialize_failed }
            | some line ↦ write_line calls line n (write_entries calls es) lines
          ])
      go none q rest = inr (serialize_failed, refl, (e, q), (texts calls (e ∷ es), refl))
      go (some line) q rest = rw q (
          write_line-Ended line n k (write_entries calls es) lines (texts calls es) (λ v.
            rest (lines ++ (line ∷ [])) (length-append lines (line ∷ []) ∙ omega (arith, g))
              (w, v)))

module _ (calls : LogCalls) where
  -- The function succeeds only if the file was created, every write and the flush succeeded and every
  -- entry had a text, and the log then holds the title and one line for each shred of the registry, in
  -- the order in which its map gives them. If a call fails, the function reports a failure with its
  -- cause, and the lines handed to the writer are the first ones of these.
  pub write_log-Ended :
      {st : Store} (fallback : SourceId → String) (title : String) (r : Registry st)
      (start : Instant) (names : List (SourceId × String))
      → Ended calls
          (title
            ∷ texts calls (map (log_entry fallback names start) (st.shred_map.entries r.shreds)))
          (suc (length (st.shred_map.entries r.shreds)))
          (write_log calls fallback title r start names)
  unfolding write_log
  write_log-Ended {st} fallback title r start names = go calls.creates refl
    where
      es : List ShredLogEntry
      es = map (log_entry fallback names start) (st.shred_map.entries r.shreds)

      go :
          (b : Bool)
          → calls.creates ≡ b
          → Ended calls (title ∷ texts calls es) (suc (length (st.shred_map.entries r.shreds))) (
              if b
              then write_line calls title 0 (write_entries calls es) []
              else record { lines = []; failure = some create_failed })
      go true e =
          write_line-Ended calls e title 0 _ (write_entries calls es) [] (texts calls es) (λ v.
            write_entries-Ended calls e es 1 _ (title ∷ []) refl
              (rw (length-map (st.shred_map.entries r.shreds) (log_entry fallback names start))
                (omega arith))
              (tt, v))
      go false e = inr (create_failed, refl, e, (_, refl))
