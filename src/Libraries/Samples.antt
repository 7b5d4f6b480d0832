-- ===== src/Libraries/Samples.antt =====
-- Small implementations of the libraries' operations, over lists: they show that the laws can be
-- met, and run the tests.
use rmc_spock.Base.{
  codes, ℕ, suc, ◌≡◌, refl, ap, ◌↔◌, inl, inr, ◌≢◌, Bool, true, false, ◌&&◌, Option, none, some,
  List, map, [], ◌∷◌, ◌++◌, Text, ◌+◌, text_eq, text_eq_refl, text_eq_sound, text_lt, any, all,
  keep, is_empty, length, In, ◌==◌, Bool-cases, if◌then◌else◌, arith, if_cases, ◌⊎◌,
}
use rmc_spock.Libraries.{
  sequence, Boost, SetOps, MapOps, YamlOps, Libraries, NodeType, undefined, scalar, mapping,
}
use rmc_spock.Libraries.Laws.{
  SetLaws, InsertLaws, MapLaws, BoostLaws, is_space, starts_clean, ends_clean,
}
use rmc_spock.Version.{version_eq, version_lt}
use rmc_spock.Pattern.{regexes}
use rmc_spock.Version.Order.{version_eq_iff}

abbrev last? : {A : Type 0} → List A → Option A
last? [] = none
last? (a ∷ []) = some a
last? (a ∷ b ∷ c) = last? (b ∷ c)

module _ {A : Type 0} (eq : A → A → Bool) (lt : A → A → Bool) where
  abbrev holds : List A → A → Bool
  holds c a = any (eq a) c

  abbrev add_value : List A → A → List A
  add_value [] a = a ∷ []
  add_value (b ∷ c) a = if eq a b then b ∷ c else (if lt a b then a ∷ b ∷ c else b ∷ add_value c a)

  abbrev holds_all : List A → List A → Bool
  holds_all c d = all (holds c) d

  abbrev pub list_set : SetOps A
  list_set = record {
    Carrier = List A;
    empty = [];
    insert = add_value;
    exists = holds;
    exists_all = holds_all;
    meet = λ c d. keep (holds d) c;
    same = λ c d. holds_all c d && holds_all d c;
    is_empty = is_empty;
    size = length;
    values = λ c. c;
    greatest = last?;
  }

  module _ (eq_iff : (a b : A) → (eq a b ≡ true) ↔ (a ≡ b)) where
    holds-In : (c : List A) (a : A) → In a c → holds c a ≡ true
    holds-In [] a m = absurd m
    holds-In (b ∷ c) a (inl e) = ground (arith, (eq_iff a b).1 e)
    holds-In (b ∷ c) a (inr m) = ground (arith, holds-In c a m)

    In-holds : (c : List A) (a : A) → holds c a ≡ true → In a c
    In-holds [] a h = cc
    In-holds (b ∷ c) a h = elim (Bool-cases (eq a b)) [
      | inl e ↦ inl ((eq_iff a b).0 e)
      | inr n ↦ inr (In-holds c a (ground arith))
    ]

    holds-keep : (d c : List A) (a : A) → holds (keep (holds d) c) a ≡ (holds c a && holds d a)
    holds-keep d [] a = refl
    holds-keep d (b ∷ c) a = elim (Bool-cases (eq a b)) [
      | inl e ↦
          let same = ap (holds d) ((eq_iff a b).0 e) in ground (arith, holds-keep d c a, same, e)
      | inr n ↦ ground (arith, holds-keep d c a, n)
    ]

    holds_all_sound :
        (c d : List A) → holds_all c d ≡ true → (a : A) → holds d a ≡ true → holds c a ≡ true
    holds_all_sound c [] h a m = cc
    holds_all_sound c (b ∷ d) h a m = elim (Bool-cases (eq a b)) [
      | inl e ↦ ground (arith, ap (holds c) ((eq_iff a b).0 e))
      | inr n ↦ ground (arith, holds_all_sound c d (ground arith) a, n)
    ]

    holds_all_intro :
        (c d : List A) → ((a : A) → holds d a ≡ true → holds c a ≡ true) → holds_all c d ≡ true
    holds_all_intro c [] h = refl
    holds_all_intro c (b ∷ d) h =
        let first = h b (ground (arith, (eq_iff b b).1 refl)) in
        let rest = holds_all_intro c d (λ a m. h a (ground arith)) in ground (arith, first, rest)

    both_hold :
        (c d : List A) → (holds_all c d && holds_all d c) ≡ true → (a : A) → holds c a ≡ holds d a
    both_hold c d h a =
        ground (arith, holds_all_sound c d (ground arith) a, holds_all_sound d c (ground arith) a)

    self_hold : (c : List A) → (holds_all c c && holds_all c c) ≡ true
    self_hold c = ground (arith, holds_all_intro c c (λ a m. m))

    empty_iff : (c : List A) → (is_empty c ≡ true) ↔ (c ≡ [])
    empty_iff [] = (λ e. refl, λ e. refl)
    empty_iff (a ∷ c) = (λ e. cc, λ e. cc)

    holds_all_iff :
        (c d : List A) → (holds_all c d ≡ true) ↔ ((a : A) → holds d a ≡ true → holds c a ≡ true)
    holds_all_iff c d = (holds_all_sound c d, holds_all_intro c d)

    pub list_set_laws : SetLaws list_set
    list_set_laws = record {
      exists-values = holds-In;
      exists-meet = λ c d a. holds-keep d c a;
      same_sound = both_hold;
      same_refl = self_hold;
      is_empty-values = empty_iff;
      exists_all_iff = holds_all_iff;
    }

    add_value-In : (c : List A) (a b : A) → In b (add_value c a) → In b c ⊎ (b ≡ a)
    add_value-In [] a b = λ m. elim m [ inl e ↦ inr e | inr n ↦ absurd n ]
    add_value-In (d ∷ c) a b =
        let P = λ (l : List A). In b l → In b (d ∷ c) ⊎ (b ≡ a) in
        if_cases P (eq a d) (d ∷ c) (if lt a d then a ∷ d ∷ c else d ∷ add_value c a) (λ _ m. inl m)
          (λ _.
            if_cases P (lt a d) (a ∷ d ∷ c) (d ∷ add_value c a)
              (λ _ m. elim m [ inl e ↦ inr e | inr n ↦ inl n ])
              (λ _ m. elim m [
                | inl e ↦ inl (inl e)
                | inr n ↦ elim (add_value-In c a b n) [ inl k ↦ inl (inr k) | inr k ↦ inr k ]
              ]))

    holds-add_value : (c : List A) (a : A) → holds (add_value c a) a ≡ true
    holds-add_value [] a = ground (arith, (eq_iff a a).1 refl)
    holds-add_value (d ∷ c) a = ground (arith, (eq_iff a a).1 refl, holds-add_value c a)

    add_value-kept : (c : List A) (a b : A) → holds c b ≡ true → holds (add_value c a) b ≡ true
    add_value-kept [] a b h = cc
    add_value-kept (d ∷ c) a b h = elim (Bool-cases (eq b d)) [
      | inl e ↦ ground (arith, e)
      | inr n ↦ ground (arith, n, add_value-kept c a b (ground (arith, n)))
    ]

    holds-is_empty : (c : List A) (a : A) → is_empty c ≡ true → holds c a ≡ false
    holds-is_empty [] a e = refl
    holds-is_empty (d ∷ c) a e = cc

    pub list-InsertLaws : InsertLaws list_set
    list-InsertLaws = record {
      values-empty = refl;
      values-insert = add_value-In;
      exists-insert = holds-add_value;
      exists-insert_kept = add_value-kept;
      exists-is_empty = holds-is_empty;
    }

-- A map as an association list.
abbrev map_get : {V : Type 0} → List (Text × V) → Text → Option V
map_get [] k = none
map_get ((j, v) ∷ m) k = if text_eq j k then some v else map_get m k

abbrev map_insert : {V : Type 0} → List (Text × V) → Text → V → List (Text × V)
map_insert [] k v = (k, v) ∷ []
map_insert ((j, w) ∷ m) k v = if text_eq j k then (k, v) ∷ m else (j, w) ∷ map_insert m k v

abbrev map_erase : {V : Type 0} → List (Text × V) → Text → List (Text × V)
map_erase [] k = []
map_erase ((j, w) ∷ m) k = if text_eq j k then map_erase m k else (j, w) ∷ map_erase m k

abbrev pub list_map : {V : Type 0} → MapOps V
list_map {V} = record {
  Carrier = List (Text × V);
  empty = [];
  insert = map_insert;
  erase = map_erase;
  get = map_get;
  size = length;
  nodes = λ m. m;
}

module _ {V : Type 0} where
  map_get-insert : (m : List (Text × V)) (k : Text) (v : V) → map_get (map_insert m k v) k ≡ some v
  map_get-insert [] k v = ground (arith, text_eq_refl k)
  map_get-insert ((j, w) ∷ m) k v = elim (Bool-cases (text_eq j k)) [
    | inl e ↦ rw (e, text_eq_refl k) refl
    | inr e ↦ rw (e, e) (map_get-insert m k v)
  ]

  map_get-insert_other :
      (m : List (Text × V)) (j k : Text) (v : V)
      → text_eq j k ≡ false
      → map_get (map_insert m j v) k ≡ map_get m k
  map_get-insert_other [] j k v h = rw h refl
  map_get-insert_other ((i, w) ∷ m) j k v h = elim (Bool-cases (text_eq i j)) [
    | inl e ↦ rw (e, h, text_eq_sound i j e, h) refl
    | inr e ↦ rw e (ap (λ r. if text_eq i k then some w else r) (map_get-insert_other m j k v h))
  ]

  map_get-erase : (m : List (Text × V)) (k : Text) → map_get (map_erase m k) k ≡ none
  map_get-erase [] k = refl
  map_get-erase ((j, w) ∷ m) k = elim (Bool-cases (text_eq j k)) [
    | inl e ↦ rw e (map_get-erase m k)
    | inr e ↦ rw (e, e) (map_get-erase m k)
  ]

  map_get-erase_other :
      (m : List (Text × V)) (j k : Text)
      → text_eq j k ≡ false
      → map_get (map_erase m j) k ≡ map_get m k
  map_get-erase_other [] j k h = refl
  map_get-erase_other ((i, w) ∷ m) j k h = elim (Bool-cases (text_eq i j)) [
    | inl e ↦ rw (e, text_eq_sound i j e, h) (map_get-erase_other m j k h)
    | inr e ↦ rw e (ap (λ r. if text_eq i k then some w else r) (map_get-erase_other m j k h))
  ]

  size-map_insert :
      (m : List (Text × V)) (k : Text) (v : V)
      → map_get m k ≡ none
      → length (map_insert m k v) ≡ suc (length m)
  size-map_insert [] k v h = refl
  size-map_insert ((j, w) ∷ m) k v h = elim (Bool-cases (text_eq j k)) [
    | inl e ↦ ground (arith, e)
    | inr e ↦ ground (arith, e, size-map_insert m k v)
  ]

  pub list_map_laws : MapLaws (list_map {V = V})
  list_map_laws = record {
    get-empty = λ k. refl;
    get-insert = map_get-insert;
    get-insert_other = map_get-insert_other;
    get-erase = map_get-erase;
    get-erase_other = map_get-erase_other;
    size-insert = size-map_insert;
  }

-- Boost's text operations.
abbrev skip_space : Text → Text
skip_space [] = []
skip_space (c ∷ s) = let rest = skip_space s in if is_space c then rest else c ∷ s

abbrev trim_end : Text → Text
trim_end [] = []
trim_end (c ∷ s) = elim (trim_end s) [
  | [] ↦ (if is_space c then [] else c ∷ [])
  | d ∷ t ↦ c ∷ d ∷ t
]

abbrev cons_first : ℕ → List Text → List Text
cons_first c [] = (c ∷ []) ∷ []
cons_first c (p ∷ ps) = (c ∷ p) ∷ ps

abbrev split_at : ℕ → Text → List Text
split_at sep [] = [] ∷ []
split_at sep (c ∷ s) =
    let rest = split_at sep s in if c == sep then [] ∷ rest else cons_first c rest

abbrev join_with : List Text → Text → Text
join_with [] sep = []
join_with (p ∷ []) sep = p
join_with (p ∷ q ∷ ps) sep = p ++ (sep ++ join_with (q ∷ ps) sep)

abbrev pub list_boost : Boost
list_boost = record {
  trim = λ s. trim_end (skip_space s);
  split = split_at;
  join = join_with;
  lexical_cast = λ n. (b'0' + n) ∷ [];
}

trim_end_clean : (s : Text) → ends_clean s ≡ true → trim_end s ≡ s
trim_end_clean [] h = refl
trim_end_clean (c ∷ []) h = ground arith
trim_end_clean (c ∷ d ∷ s) h = rw (trim_end_clean (d ∷ s) h)

trim_clean : (s : Text) → starts_clean s ≡ true → ends_clean s ≡ true → trim_end (skip_space s) ≡ s
trim_clean [] h k = refl
trim_clean (c ∷ s) h k = elim (Bool-cases (is_space c)) [
  | inl e ↦ absurd (clean_absurd c s e h)
  | inr n ↦ rw n (trim_end_clean (c ∷ s) k)
]
  where
    clean_absurd : (c : ℕ) (s : Text) → is_space c ≡ true → starts_clean (c ∷ s) ≢ true
    clean_absurd c s e h = ground arith

split_here : (sep : ℕ) (s : Text) → split_at sep (sep ∷ s) ≡ [] ∷ split_at sep s
split_here sep s = ground arith

split_later :
    (sep c : ℕ) (s p : Text) (ps : List Text)
    → c ≢ sep
    → split_at sep s ≡ p ∷ ps
    → split_at sep (c ∷ s) ≡ (c ∷ p) ∷ ps
split_later sep c s p ps n e = ground arith

pub list_boost_laws : BoostLaws list_boost
list_boost_laws = record {
  trim_clean = trim_clean;
  split_nil = λ sep. refl;
  split_here = split_here;
  split_later = split_later;
  join_one = λ p sep. refl;
  join_cons = λ p q ps sep. refl;
}

-- A document that is a text, a list of texts, a table of texts, which may have flags as well, a table
-- with one entry, a list with one item, a table with a version and a list of texts, or a table with an
-- entry more.
pub data Doc : Type 0 where
  no_doc : Doc
  text_doc : Text → Doc
  list_doc : List Text → Doc
  table_doc : List (Text × Text) → Doc
  flags_doc : List (Text × Text) → List Text → Doc
  section_doc : Text → Doc → Doc
  item_doc : Doc → Doc
  object_doc : Text → Text → List Text → Doc
  entry_doc : Text → Doc → Doc → Doc

abbrev doc_type : Doc → NodeType
doc_type no_doc = undefined
doc_type (text_doc s) = scalar
doc_type (list_doc texts) = sequence
doc_type (table_doc rows) = mapping
doc_type (flags_doc rows flags) = mapping
doc_type (section_doc key doc) = mapping
doc_type (item_doc doc) = sequence
doc_type (object_doc version key texts) = mapping
doc_type (entry_doc key doc rest) = mapping

abbrev doc_text : Doc → Text
doc_text (text_doc s) = s
doc_text _ = []

abbrev doc_pairs : Doc → List (Text × Doc)
doc_pairs (table_doc rows) = map (λ row. (row.0, text_doc row.1)) rows
doc_pairs _ = []

abbrev doc_items : Doc → List Doc
doc_items (list_doc texts) = map (λ s. text_doc s) texts
doc_items (item_doc doc) = doc ∷ []
doc_items _ = []

abbrev doc_at : Doc → Text → Doc
doc_at (table_doc rows) k = elim (map_get rows k) [ none ↦ no_doc | some s ↦ text_doc s ]
doc_at (flags_doc rows flags) k =
    if text_eq k (codes "flags")
    then list_doc flags
    else elim (map_get rows k) [ none ↦ no_doc | some s ↦ text_doc s ]
doc_at (section_doc key doc) k = if text_eq k key then doc else no_doc
doc_at (object_doc version key texts) k =
    if text_eq k (codes "version")
    then text_doc version
    else (if text_eq k key then list_doc texts else no_doc)
doc_at (entry_doc key doc rest) k =
    (let other = doc_at rest k in if text_eq k key then doc else other)
doc_at _ k = no_doc

abbrev doc_yaml : YamlOps
doc_yaml = record {
  Node = Doc;
  node_type = doc_type;
  as_text = doc_text;
  items = doc_items;
  pairs = doc_pairs;
  at_key = doc_at;
  no_node = no_doc;
}

-- Of the expressions for patterns the last one, a name alone, matches.
abbrev match_name : Text → Text → Option (List Text)
match_name re s = elim (last? regexes) [
  | some r ↦ (if text_eq re r then some (s ∷ [] ∷ [] ∷ [] ∷ []) else none)
  | none ↦ none
]

abbrev pub sample_libraries : Libraries
sample_libraries = record {
  boost = list_boost;
  regex_match = match_name;
  texts = list_set text_eq text_lt;
  versions = list_set version_eq version_lt;
  maps = λ V. list_map {V = V};
  yaml = doc_yaml;
}

pub sample_version_laws : SetLaws sample_libraries.versions
sample_version_laws = list_set_laws version_eq version_lt version_eq_iff

pub sample-InsertLaws : InsertLaws sample_libraries.versions
sample-InsertLaws = list-InsertLaws version_eq version_lt version_eq_iff
