-- ===== src/Libraries.antt =====
-- What Spock takes from Boost, Sawyer and the host: parameters of the model, with the documented
-- behaviour that the theorems use stated as laws. src/Spock/VersionNumber.h gives the type of the
-- values of Sawyer's version sets.
pub mod Laws
pub mod Graphs
pub mod ListGraphs
pub mod ListGraphLaws
pub mod Samples
use rmc_spock.Base.{ℕ, Bool, Option, List, Text}

-- `VersionNumber::parts_`.
pub record VersionNumber : Type 0 where
  pub parts : List Text

-- `boost::trim_copy`, `boost::split` at one separator without compression, `boost::join`, and
-- `boost::lexical_cast` from a number to a string.
pub record Boost : Type 0 where
  pub trim : Text → Text
  pub split : ℕ → Text → List Text
  pub join : List Text → Text → Text
  pub lexical_cast : ℕ → Text

-- `Sawyer::Container::Set`. `values` lists a set in its order of iteration, and `greatest` is
-- `none` where the library's call would fail on an empty set.
pub record SetOps (A : Type 0) : Type 1 where
  pub Carrier : Type 0
  pub empty : Carrier
  pub insert : Carrier → A → Carrier
  pub exists : Carrier → A → Bool
  pub exists_all : Carrier → Carrier → Bool
  pub meet : Carrier → Carrier → Carrier
  pub same : Carrier → Carrier → Bool
  pub is_empty : Carrier → Bool
  pub size : Carrier → ℕ
  pub values : Carrier → List A
  pub greatest : Carrier → Option A

-- `Sawyer::Container::Map` from texts. `nodes` lists a map in its order of iteration.
pub record MapOps (V : Type 0) : Type 1 where
  pub Carrier : Type 0
  pub empty : Carrier
  pub insert : Carrier → Text → V → Carrier
  pub erase : Carrier → Text → Carrier
  pub get : Carrier → Text → Option V
  pub size : Carrier → ℕ
  pub nodes : Carrier → List (Text × V)

-- The values of `YAML::NodeType`.
pub data NodeType : Type 0 where
  undefined null scalar sequence mapping : NodeType

-- `YAML::Node`: its type, the text of a scalar, the items of a sequence, the pairs of a map, and
-- the node at a key.
pub record YamlOps : Type 1 where
  pub Node : Type 0
  pub node_type : Node → NodeType
  pub as_text : Node → Text
  pub items : Node → List Node
  pub pairs : Node → List (Text × Node)
  pub at_key : Node → Text → Node
  pub no_node : Node

-- `boost::regex_match`: the texts of the groups, from the first.
pub record Libraries : Type 1 where
  pub boost : Boost
  pub regex_match : Text → Text → Option (List Text)
  pub texts : SetOps Text
  pub versions : SetOps VersionNumber
  pub maps : (V : Type 0) → MapOps V
  pub yaml : YamlOps
