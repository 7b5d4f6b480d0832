-- ===== src/Environment/Unique.antt =====
-- What `appendUnique` and `prependUnique` of src/Spock/Environment.C leave in a variable.
use rmc_spock.Base.{
  ◌≡◌, refl, ap, subst, subst⁻¹, ◌∙◌, inl, inr, false, List, [], ◌∷◌, ◌++◌, reverse, reverse-cons,
  reverse-append, reverse-reverse, Text, text_eq, is_empty, In, In-left, In-right, ok,
}
use rmc_spock.Libraries.{Libraries}
use rmc_spock.Libraries.Laws.{MapLaws}
use rmc_spock.Environment.{
  Environment, value_or, set, get, join, appended_parts, prepended_parts, add_parts, append_unique,
  prepend_unique,
}
use rmc_spock.Environment.Parts.{IsSplit, split_lem}
use rmc_spock.Environment.Added.{
  Distinct, add_parts-prefix, add_parts-In, add_parts-Distinct, reverse-Distinct,
}

In-reverse : (xs : List Text) (a : Text) → In a xs → In a (reverse xs)
In-reverse (x ∷ xs) a (inl e) =
    subst⁻¹ (In a) (reverse-cons x xs) (In-right (reverse xs) a (x ∷ []) (inl e))
In-reverse (x ∷ xs) a (inr h) =
    subst⁻¹ (In a) (reverse-cons x xs) (In-left (reverse xs) a (x ∷ []) (In-reverse xs a h))
In-reverse [] a h = absurd h

module _ ⦃lib : Libraries⦄ where
  module _ (laws : MapLaws (lib.maps Text)) (env : Environment) (name value : Text) where
    get-set : (dflt : Text) → get (set env name value) name dflt ≡ value
    unfolding get set
    get-set dflt = ap (value_or dflt) (laws.get-insert env name value)

    get-set_other :
        (other dflt : Text)
        → text_eq name other ≡ false
        → get (set env name value) other dflt ≡ get env other dflt
    unfolding get set
    get-set_other other dflt d = ap (value_or dflt) (laws.get-insert_other env name other value d)

  -- For a separator that is not empty, `appendUnique` returns: the variable's parts are the parts of
  -- its former value, followed by more parts of the new value; each part of the new value is among them;
  -- if the former parts were distinct so are all; and the other variables are as before. The parts of
  -- both values are what they hold between separators.
  pub append_unique_lem :
      MapLaws (lib.maps Text)
      → (env : Environment) (name value sep : Text) → is_empty sep ≡ false
      → (after : Environment) × (parts : List Text) × (values : List Text) × (more : List Text)
        × (append_unique env name value sep ≡ ok after)
        × (get after name [] ≡ join (parts ++ more) sep)
        × IsSplit (get env name []) parts sep
        × IsSplit value values sep
        × ((v : Text) → In v values → In v (parts ++ more))
        × ((v : Text) → In v more → In v values)
        × (Distinct parts → Distinct (parts ++ more))
        × ((other dflt : Text)
            → text_eq name other ≡ false
            → get after other dflt ≡ get env other dflt)
  unfolding append_unique appended_parts
  append_unique_lem laws env name value sep n =
      let (parts, e, cut) = split_lem (get env name []) sep n in
      let (values, e', cut') = split_lem value sep n in
      let (more, r, from) = add_parts-prefix parts values in
      (
        set env name (join (add_parts parts values) sep),
        parts,
        values,
        more,
        rw (e, e') refl,
        get-set laws env name (join (add_parts parts values) sep) [] ∙ ap (λ ps. join ps sep) r,
        cut,
        cut',
        λ v m. subst (In v) r (add_parts-In parts values v (In-right parts v values m)),
        from,
        λ d. subst Distinct r (add_parts-Distinct parts values d),
        get-set_other laws env name (join (add_parts parts values) sep),
      )

  -- For a separator that is not empty, `prependUnique` returns: the variable's parts are the parts of
  -- its former value behind more parts of the new value; each part of the new value is among them; if
  -- the former parts were distinct so are all; and the other variables are as before. The parts of both
  -- values are what they hold between separators.
  pub prepend_unique_lem :
      MapLaws (lib.maps Text)
      → (env : Environment) (name value sep : Text) → is_empty sep ≡ false
      → (after : Environment) × (parts : List Text) × (values : List Text) × (more : List Text)
        × (prepend_unique env name value sep ≡ ok after)
        × (get after name [] ≡ join (more ++ parts) sep)
        × IsSplit (get env name []) parts sep
        × IsSplit value values sep
        × ((v : Text) → In v values → In v (more ++ parts))
        × ((v : Text) → In v more → In v values)
        × (Distinct parts → Distinct (more ++ parts))
        × ((other dflt : Text)
            → text_eq name other ≡ false
            → get after other dflt ≡ get env other dflt)
  unfolding prepend_unique prepended_parts
  prepend_unique_lem laws env name value sep n =
      let (parts, e, cut) = split_lem (get env name []) sep n in
      let (values, e', cut') = split_lem value sep n in
      let (more, r, from) = add_parts-prefix (reverse parts) (reverse values) in
      let result = reverse (add_parts (reverse parts) (reverse values)) in
      let shape : result ≡ reverse more ++ parts =
        ap reverse r
        ∙ (reverse-append (reverse parts) more
            ∙ ap (λ ps. reverse more ++ ps) (reverse-reverse parts)) in
      (
        set env name (join result sep),
        parts,
        values,
        reverse more,
        rw (e, e') refl,
        get-set laws env name (join result sep) [] ∙ ap (λ ps. join ps sep) shape,
        cut,
        cut',
        λ v m. subst (In v) shape (
            In-reverse (add_parts (reverse parts) (reverse values)) v (
              add_parts-In (reverse parts) (reverse values) v
                (In-right (reverse parts) v (reverse values) (In-reverse values v m)))),
        λ v m. subst (In v) (reverse-reverse values) (
            In-reverse (reverse values) v
              (from v (subst (In v) (reverse-reverse more) (In-reverse (reverse more) v m)))),
        λ d. subst Distinct shape (
            reverse-Distinct (add_parts (reverse parts) (reverse values))
              (add_parts-Distinct (reverse parts) (reverse values) (reverse-Distinct parts d))),
        get-set_other laws env name (join result sep),
      )
