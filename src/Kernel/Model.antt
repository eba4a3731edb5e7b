-- ===== src/Kernel/Model.antt =====
-- internal/kernel/model.go: the values of the objects of an Ontology, and what makes them canonical.
-- An absent list is the empty one.
pub mod Types
pub mod Members
pub mod Definitions
pub mod Loops
pub mod Domains
pub mod Typed
pub mod Local
pub mod Filled
pub mod Canonical
pub mod Ready
pub mod Normalized
pub mod Resources
use kg_os.Common.{
  ℕ, Bytes, codes, [], List, ◌∷◌, Bool, true, false, not, ◌||◌, ◌&&◌, Option, none, some,
  if◌then◌else◌, ltb, ◌==◌, bytes_eq, has_prefix, length, ok, err, ◌>>=◌, ◌>>◌, guard, sort_texts,
  is_distinct,
}
use kg_os.Kernel.Errors.{Result, ErrorCode}
use kg_os.Kernel.Refs.{ObjectKind, OntologyRef, node_definition, parse_ontology_ref}

pub record Domain : Type 0 where
  pub name : Bytes
  pub title : Option Bytes
  pub description : Option Bytes
  pub includes : List Bytes

pub record Constraint : Type 0 where
  pub name : Bytes
  pub type_name : Bytes
  pub properties : List Bytes
  pub legacy_value_type : Bytes

-- `hidden_options` stands for a map that this code only carries.
pub record Index : Type 0 where
  pub name : Bytes
  pub type_name : Bytes
  pub targets : List Bytes
  pub properties : List Bytes
  pub hidden_options : Bytes

pub record Property : Type 0 where
  pub name : Bytes
  pub title : Option Bytes
  pub description : Option Bytes
  pub type_text : Bytes
  pub required : Bool
  pub unique : Bool
  pub constraints : List Constraint
  pub indexes : List Index
  pub rename_from : Bytes

pub record Definition : Type 0 where
  pub kind : ObjectKind
  pub name : Bytes
  pub title : Option Bytes
  pub description : Option Bytes
  pub labels : List Bytes
  pub from : Option Bytes
  pub to : Option Bytes
  pub properties : List Property
  pub constraints : List Constraint
  pub indexes : List Index

abbrev pub wrong {ℓ} : {A : Type ℓ} → Result A
wrong = err ErrorCode.type_error

-- `if bad { return … }` with the code for a type.
abbrev pub refuse : Bool → Result (Unit {0})
refuse bad = guard (not bad) ErrorCode.type_error

-- A loop that only checks.
abbrev pub each_ok {ℓ} : {A : Type ℓ} → (A → Result (Unit {0})) → List A → Result (Unit {0})
each_ok f [] = ok tt
each_ok f (x ∷ xs) = f x >> each_ok f xs

-- A loop that changes each element.
abbrev pub map_ok {ℓ κ} : {A : Type ℓ} {B : Type κ} → (A → Result B) → List A → Result (List B)
map_ok f [] = ok []
map_ok f (x ∷ xs) = f x >>= λ y. map_ok f xs >>= λ ys. ok (y ∷ ys)

abbrev pub is_nil {ℓ} : {A : Type ℓ} → List A → Bool
is_nil [] = true
is_nil (x ∷ xs) = false

abbrev reserved_prefix : Bytes
reserved_prefix = codes "__kgos_"

-- No byte is an ASCII control character; those stand for themselves in any text.
unfoldable pub has_control : Bytes → Bool
has_control [] = false
has_control (b ∷ s) = ltb b 32 || b == 127 || has_control s

-- `validatePublicName`.
unfoldable pub validate_public_name : Bytes → Result (Unit {0})
unfolding has_control
validate_public_name name =
    refuse (is_nil name || ltb 255 (length name))
    >> (refuse (has_control name)
        >> guard (not (has_prefix name reserved_prefix)) ErrorCode.reserved_identifier)

-- `normalizeSet`.
unfoldable pub normalize_set : List Bytes → Result (List Bytes)
normalize_set values = refuse (not (is_distinct values)) >> ok (sort_texts values)

unfoldable pub ref_checked : Result OntologyRef → Result (Unit {0})
ref_checked (ok ref) = ok tt
ref_checked (err e) = err e

-- A Ref, or the place of an object that is still to be made.
unfoldable pub check_ref : Bytes → Result (Unit {0})
unfolding ref_checked
check_ref ref =
    if has_prefix ref (codes "new:") then ok tt else ref_checked (parse_ontology_ref ref)

unfoldable pub is_node_kind : ObjectKind → Bool
is_node_kind node_definition = true
is_node_kind other = false

unfoldable pub is_node : Result OntologyRef → Bool
unfolding is_node_kind
is_node (ok ref) = is_node_kind ref.kind
is_node (err e) = false

-- One of `from` and `to`.
unfoldable pub check_endpoint : Option Bytes → Result (Unit {0})
unfolding is_node
check_endpoint none = ok tt
check_endpoint (some ref) =
    if has_prefix ref (codes "new:") then ok tt else refuse (not (is_node (parse_ontology_ref ref)))

-- `normalizeDomain`.
unfoldable pub normalize_domain : Domain → Result Domain
unfolding validate_public_name normalize_set check_ref
normalize_domain d =
    validate_public_name d.name
    >> (normalize_set d.includes >>= λ includes.
        each_ok check_ref includes >> ok (record d { includes = includes }))
