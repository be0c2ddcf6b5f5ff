-- ===== src/Emulation/Xml.antt =====
-- emulation/src/xmlgraphparser.rs: the elements of a topology file, and what their texts mean.
--
-- The document is read by the crate roxmltree; a file gives a node of its tree. An attribute is
-- there exactly if it has a value. The texts, the numbers in them and the regular expression are
-- the standard library's and the crate regex's.
pub mod Services
use package.kollaps.Prelude.{ℕ, Bool, true, false, Option, none, some, is_some, List}
use Prim.Native.String.{String}
use package.kollaps.Emulation.Data.{Node}

-- `roxmltree::Node`
pub record Xml (N : Type 0) : Type 0 where
  pub first_child : N → Option N
  pub children : N → List N
  pub is_element : N → Bool
  pub tag_name : N → String
  pub attribute : N → String → Option String

-- What the texts of the attributes mean: `none` is a text that does not parse.
pub record Texts (Ip F : Type 0) : Type 0 where
  pub to_uppercase : String → String
  pub digits : ℕ → String
  pub is_empty : String → Bool
  pub address : String → Option Ip
  pub float : String → Option F
  pub is_negative : F → Bool
  -- The two groups of the expression for a bandwidth.
  pub captures : String → Option (String × String)
  pub zero_f : F
  pub times_1024 : F → F
  -- `as u32`, and `as u64`
  pub to_u32 : F → ℕ
  pub to_u64 : F → ℕ

-- The error is `ErrorKind::Parse`.
pub data Parsed (A : Type 0) : Type 0 where
  parsed : A → Parsed A
  bad_file : Parsed A
  panics : Parsed A

infixl 5 ◌>>=◌ ◌>>◌
abbrev pub ◌>>=◌ : {A B : Type 0} → Parsed A → (A → Parsed B) → Parsed B
parsed a >>= f = f a
bad_file >>= f = bad_file
panics >>= f = panics

abbrev pub ◌>>◌ : {A B : Type 0} → Parsed A → Parsed B → Parsed B
m >> k = m >>= λ _. k

-- `unwrap`
abbrev pub unwrap : {A : Type 0} → Option A → Parsed A
unwrap none = panics
unwrap (some a) = parsed a

-- `produce_err(...)?` under a test.
abbrev pub refuse_if : Bool → Parsed (Unit {0})
refuse_if true = bad_file
refuse_if false = parsed tt

abbrev pub required : {A : Type 0} → Option A → Parsed A
required none = bad_file
required (some a) = parsed a

unfoldable pub has_attribute : {N : Type 0} → Xml N → N → String → Bool
has_attribute xml n a = is_some (xml.attribute n a)

abbrev pub NodesMap : Type 0 → Type 0
NodesMap Ip = List (String × Node Ip String)
