-- ===== src/Version/Print.antt =====
-- The constructor of src/Spock/VersionNumber.C against `toString`.
use rmc_spock.Base.{
  ℕ, ◌≡◌, refl, ◌≢◌, sym, ap, ◌∙◌, true, List, [], ◌∷◌, ◌++◌, Text, codes, All, ℕ_discrete,
}
use rmc_spock.Libraries.{VersionNumber, Boost}
use rmc_spock.Libraries.Laws.{BoostLaws, starts_clean, ends_clean}
use rmc_spock.Version.{parse, to_string}

-- No byte of the text is a dot.
abbrev pub NoDot : Text → Type 0
NoDot s = All (λ (c : ℕ). c ≢ b'.') s

parts_path : {v w : VersionNumber} → v.parts ≡ w.parts → v ≡ w
parts_path e = λ i. record { parts = e i }

module _ {boost : Boost} (laws : BoostLaws boost) where
  open laws use {trim_clean, split_nil, split_here, split_later, join_one, join_cons}

  split_word : (p : Text) → NoDot p → boost.split b'.' p ≡ p ∷ []
  split_word [] h = split_nil b'.'
  split_word (c ∷ p) h = split_later b'.' c p p [] h.0 (split_word p h.1)

  split_first : (p s : Text) → NoDot p → boost.split b'.' (p ++ (b'.' ∷ s)) ≡ p ∷ boost.split b'.' s
  split_first [] s h = split_here b'.' s
  split_first (c ∷ p) s h = split_later b'.' c _ p _ h.0 (split_first p s h.1)

  split-join :
      (p : Text) (ps : List Text)
      → All NoDot (p ∷ ps)
      → boost.split b'.' (boost.join (p ∷ ps) (codes ".")) ≡ p ∷ ps
  split-join p [] h = rw (join_one p (codes ".")) (split_word p h.0)
  split-join p (q ∷ ps) h =
      rw (join_cons p q ps (codes "."))
        (split_first p _ h.0 ∙ ap (λ l. p ∷ l) (split-join q ps h.1))

  parse_clean :
      (s : Text)
      → s ≢ []
      → starts_clean s ≡ true
      → ends_clean s ≡ true
      → parse boost s ≡ record { parts = boost.split b'.' s }
  unfolding parse
  parse_clean [] ne a b = absurd (ne refl)
  parse_clean (c ∷ s) ne a b = rw (trim_clean (c ∷ s) a b)

  to_string-join :
      (v : VersionNumber) (p : Text) (ps : List Text)
      → v.parts ≡ p ∷ ps
      → to_string boost v ≡ boost.join (p ∷ ps) (codes ".")
  unfolding to_string
  to_string-join v p ps e = rw e

  abbrev Splits : Text → Type 0
  Splits s =
      (p : Text) × (ps : List Text) × (boost.split b'.' s ≡ p ∷ ps)
      × (boost.join (p ∷ ps) (codes ".") ≡ s)

  join_byte :
      (c : ℕ) (p : Text) (ps : List Text)
      → boost.join ((c ∷ p) ∷ ps) (codes ".") ≡ c ∷ boost.join (p ∷ ps) (codes ".")
  join_byte c p [] = join_one (c ∷ p) _ ∙ ap (λ l. c ∷ l) (sym (join_one p _))
  join_byte c p (q ∷ ps) = join_cons (c ∷ p) q ps _ ∙ ap (λ l. c ∷ l) (sym (join_cons p q ps _))

  -- The parts of any text are joined to that text.
  split_some : (s : Text) → Splits s
  split_some [] = ([], [], split_nil b'.', join_one [] (codes "."))
  split_some (c ∷ s) =
      let (p, ps, e, j) = split_some s in
      elim (ℕ_discrete c b'.') [
        | yes dot ↦ (
          [],
          p ∷ ps,
          rw dot (split_here b'.' s ∙ ap (λ l. [] ∷ l) e),
          rw dot (join_cons [] p ps (codes ".") ∙ ap (λ l. b'.' ∷ l) j),
        )
        | no other ↦
            (c ∷ p, ps, split_later b'.' c s p ps other e, join_byte c p ps ∙ ap (λ l. c ∷ l) j)
      ]

  -- A version that has a part, whose parts hold no dot, and whose text is not empty and has no white space at its
  -- ends, is read back as it was.
  pub parse-to_string :
      (v : VersionNumber) (p : Text) (ps : List Text)
      → v.parts ≡ p ∷ ps
      → All NoDot (p ∷ ps)
      → to_string boost v ≢ []
      → starts_clean (to_string boost v) ≡ true
      → ends_clean (to_string boost v) ≡ true
      → parse boost (to_string boost v) ≡ v
  parse-to_string v p ps e dots ne s t =
      parse_clean (to_string boost v) ne s t
      ∙ parts_path (ap (boost.split b'.') (to_string-join v p ps e) ∙ split-join p ps dots ∙ sym e)

  -- A text that is not empty and has no white space at its ends is read as a version that prints
  -- as the text.
  pub to_string-parse :
      (s : Text)
      → s ≢ []
      → starts_clean s ≡ true
      → ends_clean s ≡ true
      → to_string boost (parse boost s) ≡ s
  to_string-parse s ne a b =
      let (p, ps, e, j) = split_some s in
      ap (to_string boost) (parse_clean s ne a b)
      ∙ (to_string-join (record { parts = boost.split b'.' s }) p ps e ∙ j)
