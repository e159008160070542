-- ===== src/DoubleZero/InterfaceIp/Words.antt =====
-- src/sources/doublezero.rs:305-310: a line of the command's output, trimmed and split into words.
use orbshred.Prelude.{ℕ, ◌≡◌, refl, ap, ◌∙◌, true, false, [], ◌∷◌, ◌++◌, All}
use orbshred.DoubleZero.InterfaceIp.{
  Text, is_whitespace, push_front, trim_start, trim_end, trim, starts_with, in_word,
  split_whitespace, push_if, inet,
}

-- Texts without blanks.
abbrev pub Graphic : Text → Type 0
Graphic t = All (λ c. is_whitespace c ≡ false) t

push_if-false : (c : ℕ) (t : Text) → push_if false c t ≡ c ∷ t
push_if-false c [] = refl
push_if-false c (d ∷ t) = refl

pub trim_end-append : (w q : Text) → Graphic w → trim_end (w ++ q) ≡ w ++ trim_end q
unfolding trim_end
trim_end-append [] q h = refl
trim_end-append (c ∷ w) q h = rw (h.0, trim_end-append w q h.1) (push_if-false c (w ++ trim_end q))

-- A word of more than one letter.
split_whitespace_longer :
    (c : ℕ) (t : Text)
    → is_whitespace c ≡ false
    → in_word t ≡ true
    → split_whitespace (c ∷ t) ≡ push_front c (split_whitespace t)
unfolding split_whitespace
split_whitespace_longer c t h e = rw (h, e) refl

split_whitespace-append :
    (c : ℕ) (w q : Text)
    → Graphic (c ∷ w)
    → in_word q ≡ false
    → split_whitespace ((c ∷ w) ++ q) ≡ (c ∷ w) ∷ split_whitespace q
unfolding split_whitespace push_front in_word
split_whitespace-append c [] q h e = rw (h.0, e) refl
split_whitespace-append c (d ∷ w) q h e =
    split_whitespace_longer c ((d ∷ w) ++ q) h.0 (rw (h.1.0) refl)
    ∙ ap (push_front c) (split_whitespace-append d w q h.1 e)

-- What is left of a line that goes on with a blank.
trim_end-blank : (t : Text) → in_word (trim_end (32 ∷ t)) ≡ false
unfolding trim_end in_word is_whitespace
trim_end-blank t = go (trim_end t)
  where
    go : (r : Text) → in_word (push_if true 32 r) ≡ false
    go [] = refl
    go (c ∷ r) = refl

-- `"inet"`
abbrev inet_word : Text
inet_word = 105 ∷ 110 ∷ 101 ∷ 116 ∷ []

-- A line with the word `inet`, a second word and more.
abbrev pub inet_line : Text → Text → Text
inet_line cidr rest = 32 ∷ 32 ∷ 32 ∷ 32 ∷ (inet ++ (cidr ++ (32 ∷ rest)))

inet_word-Graphic : Graphic inet_word
unfolding is_whitespace
inet_word-Graphic = (refl, (refl, (refl, (refl, tt))))

trim-inet_line :
    (c : ℕ) (w rest : Text)
    → Graphic (c ∷ w)
    → trim (inet_line (c ∷ w) rest) ≡ inet ++ ((c ∷ w) ++ trim_end (32 ∷ rest))
unfolding trim trim_start trim_end
trim-inet_line c w rest h = rw (trim_end-append (c ∷ w) (32 ∷ rest) h) refl

split_whitespace_blank : (t : Text) → split_whitespace (32 ∷ t) ≡ split_whitespace t
unfolding split_whitespace is_whitespace
split_whitespace_blank t = refl

pub words-inet_line :
    (c : ℕ) (w rest : Text)
    → Graphic (c ∷ w)
    → split_whitespace (trim (inet_line (c ∷ w) rest))
      ≡ inet_word ∷ (c ∷ w) ∷ split_whitespace (trim_end (32 ∷ rest))
unfolding in_word is_whitespace
words-inet_line c w rest h =
    ap split_whitespace (trim-inet_line c w rest h)
    ∙ split_whitespace-append 105 (110 ∷ 101 ∷ 116 ∷ []) (32 ∷ ((c ∷ w) ++ trim_end (32 ∷ rest)))
        inet_word-Graphic refl
    ∙ ap (λ ws. inet_word ∷ ws)
        (split_whitespace_blank ((c ∷ w) ++ trim_end (32 ∷ rest))
          ∙ split_whitespace-append c w (trim_end (32 ∷ rest)) h (trim_end-blank rest))

pub starts_with-inet_line :
    (c : ℕ) (w rest : Text)
    → Graphic (c ∷ w)
    → starts_with inet (trim (inet_line (c ∷ w) rest)) ≡ true
unfolding starts_with
starts_with-inet_line c w rest h = rw (trim-inet_line c w rest h) refl
