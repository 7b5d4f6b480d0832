-- ===== src/Libraries/Laws.antt =====
-- The documented behaviour of the Boost and Sawyer operations that theorems rest on.
use rmc_spock.Base.{
  none, some, text_eq, ℕ, suc, ◌≡◌, ◌≢◌, ◌↔◌, Bool, true, false, ◌&&◌, ◌||◌, List, [], ◌∷◌, ◌++◌,
  Text, In, leb, ◌==◌, ◌⊎◌,
}
use rmc_spock.Libraries.{Boost, SetOps, MapOps}

-- `std::isspace` in the C locale.
unfoldable pub is_space : ℕ → Bool
is_space c = c == 32 || leb 9 c && leb c 13

-- No white space at the beginning and at the end.
abbrev pub starts_clean : Text → Bool
starts_clean [] = true
starts_clean (c ∷ s) = elim (is_space c) [ true ↦ false | false ↦ true ]

abbrev pub ends_clean : Text → Bool
ends_clean [] = true
ends_clean (c ∷ []) = elim (is_space c) [ true ↦ false | false ↦ true ]
ends_clean (c ∷ d ∷ s) = ends_clean (d ∷ s)

-- `trim` leaves a text that has no white space at its ends; `split` cuts at each separator, also
-- between two that are adjacent; `join` puts the separator between the parts.
pub record BoostLaws (b : Boost) : Type 0 where
  pub trim_clean : (s : Text) → starts_clean s ≡ true → ends_clean s ≡ true → b.trim s ≡ s
  pub split_nil : (sep : ℕ) → b.split sep [] ≡ [] ∷ []
  pub split_here : (sep : ℕ) (s : Text) → b.split sep (sep ∷ s) ≡ [] ∷ b.split sep s
  pub split_later :
      (sep c : ℕ) (s p : Text) (ps : List Text)
      → c ≢ sep
      → b.split sep s ≡ p ∷ ps
      → b.split sep (c ∷ s) ≡ (c ∷ p) ∷ ps
  pub join_one : (p sep : Text) → b.join (p ∷ []) sep ≡ p
  pub join_cons :
      (p q : Text) (ps : List Text) (sep : Text)
      → b.join (p ∷ q ∷ ps) sep ≡ p ++ (sep ++ b.join (q ∷ ps) sep)

-- A set's tests by membership. The values that a set reports as present are those it lists.
pub record SetLaws {A : Type 0} (s : SetOps A) : Type 0 where
  pub exists-values : (c : s.Carrier) (a : A) → In a (s.values c) → s.exists c a ≡ true
  pub exists-meet :
      (c d : s.Carrier) (a : A) → s.exists (s.meet c d) a ≡ (s.exists c a && s.exists d a)
  pub same_sound : (c d : s.Carrier) → s.same c d ≡ true → (a : A) → s.exists c a ≡ s.exists d a
  pub same_refl : (c : s.Carrier) → s.same c c ≡ true
  pub is_empty-values : (c : s.Carrier) → s.is_empty c ≡ true ↔ s.values c ≡ []
  pub exists_all_iff :
      (c d : s.Carrier)
      → (s.exists_all c d ≡ true) ↔ ((a : A) → s.exists d a ≡ true → s.exists c a ≡ true)

-- What an inserted value adds to a set, whatever the order is. (A set may hold another value that its order
-- does not tell from the one that is inserted.)
pub record InsertLaws {A : Type 0} (s : SetOps A) : Type 0 where
  pub values-empty : s.values s.empty ≡ []
  pub values-insert :
      (c : s.Carrier) (a b : A) → In b (s.values (s.insert c a)) → In b (s.values c) ⊎ (b ≡ a)
  pub exists-insert : (c : s.Carrier) (a : A) → s.exists (s.insert c a) a ≡ true
  pub exists-insert_kept :
      (c : s.Carrier) (a b : A) → s.exists c b ≡ true → s.exists (s.insert c a) b ≡ true
  pub exists-is_empty : (c : s.Carrier) (a : A) → s.is_empty c ≡ true → s.exists c a ≡ false

-- A map gives what was inserted or erased last, at each key.
pub record MapLaws {V : Type 0} (m : MapOps V) : Type 0 where
  pub get-empty : (k : Text) → m.get m.empty k ≡ none
  pub get-insert : (c : m.Carrier) (k : Text) (v : V) → m.get (m.insert c k v) k ≡ some v
  pub get-insert_other :
      (c : m.Carrier) (j k : Text) (v : V)
      → text_eq j k ≡ false
      → m.get (m.insert c j v) k ≡ m.get c k
  pub get-erase : (c : m.Carrier) (k : Text) → m.get (m.erase c k) k ≡ none
  pub get-erase_other :
      (c : m.Carrier) (j k : Text) → text_eq j k ≡ false → m.get (m.erase c j) k ≡ m.get c k
  pub size-insert :
      (c : m.Carrier) (k : Text) (v : V)
      → m.get c k ≡ none
      → m.size (m.insert c k v) ≡ suc (m.size c)
