-- ===== src/Xml/Defined.antt =====
-- src/ast/lang/xml.rs: which node the map of a mapper has for an id, before include nodes are replaced.
use rbatis.Ast.Defs.{
  NodeType, n_null, n_sql_node, n_insert_node, n_update_node, n_delete_node, n_select_node,
  n_result_map_node,
}
use rbatis.Xml.Inclusion.{CanReplace}
use rbatis.Xml.Mapper.{
  MapperMap, remove_key, insert, find_node, insert_result_maps, statement_entry, insert_statements,
}
use rbatis.Prelude.{
  ◌≡◌, refl, sym, ap, ◌∙◌, inl, inr, false, Option, none, some, List, [], ◌∷◌, Bool-cases, All,
  if◌then◌else◌,
}
use rbatis.Text.{Str, codes, str_eq, str_eq_iff}

abbrev pub first_of : Option NodeType → Option NodeType → Option NodeType
first_of none other = other
first_of (some v) other = some v

abbrev named : Str → Str → NodeType → Option NodeType
named k id v = if str_eq k id then some v else none

-- A statement, under its id; every other node stands for nothing under one id.
abbrev pub as_statement : Str → NodeType → Option NodeType
as_statement id (n_select_node k nodes) = named k id (n_select_node k nodes)
as_statement id (n_delete_node k nodes) = named k id (n_delete_node k nodes)
as_statement id (n_update_node k nodes) = named k id (n_update_node k nodes)
as_statement id (n_insert_node k nodes) = named k id (n_insert_node k nodes)
as_statement id (n_sql_node k nodes) = named k id (n_sql_node k nodes)
as_statement id _ = named (codes "unknow") id n_null

abbrev pub as_result_map : Str → NodeType → Option NodeType
as_result_map id (n_result_map_node node) = named node.id id (n_result_map_node node)
as_result_map id _ = none

abbrev pub last_of : (NodeType → Option NodeType) → List NodeType → Option NodeType
last_of pick [] = none
last_of pick (node ∷ nodes) = first_of (last_of pick nodes) (pick node)

-- The last statement of the id, or else the last result map of it.
unfoldable pub defined : List NodeType → Str → Option NodeType
defined nodes id = first_of (last_of (as_statement id) nodes) (last_of (as_result_map id) nodes)

first_of_assoc : (a b c : Option NodeType) → first_of a (first_of b c) ≡ first_of (first_of a b) c
first_of_assoc none b c = refl
first_of_assoc (some v) b c = refl

first_of_none : (a : Option NodeType) → first_of a none ≡ a
first_of_none none = refl
first_of_none (some v) = refl

find_node-remove_other :
    (k id : Str) (m : MapperMap)
    → str_eq k id ≡ false
    → find_node (remove_key k m) id ≡ find_node m id
unfolding find_node remove_key
find_node-remove_other k id [] h = refl
find_node-remove_other k id ((j, v) ∷ m) h = elim (Bool-cases (str_eq j k)) [
  | inl same ↦
      rw (same, ap (λ key. str_eq key id) ((str_eq_iff j k).0 same) ∙ h)
        (find_node-remove_other k id m h)
  | inr kept ↦ elim (Bool-cases (str_eq j id)) [
    | inl found ↦ rw kept (rw (found, find_node) refl)
    | inr differs ↦ rw kept (rw (differs, find_node) (find_node-remove_other k id m h))
  ]
]

find_node-insert :
    (k id : Str) (v : NodeType) (m : MapperMap)
    → find_node (insert k v m) id ≡ first_of (named k id v) (find_node m id)
unfolding find_node insert
find_node-insert k id v m = elim (Bool-cases (str_eq k id)) [
  | inl same ↦ rw (same, find_node) refl
  | inr other ↦ rw (other, find_node) (find_node-remove_other k id m other)
]

as_statement-entry :
    (id : Str) (node : NodeType)
    → as_statement id node ≡ named (statement_entry node).0 id (statement_entry node).1
unfolding statement_entry
as_statement-entry id (n_select_node k nodes) = refl
as_statement-entry id (n_delete_node k nodes) = refl
as_statement-entry id (n_update_node k nodes) = refl
as_statement-entry id (n_insert_node k nodes) = refl
as_statement-entry id (n_sql_node k nodes) = refl
as_statement-entry id _ = refl

insert_statements-find :
    (id : Str) (nodes : List NodeType) (m : MapperMap)
    → find_node (insert_statements nodes m) id
      ≡ first_of (last_of (as_statement id) nodes) (find_node m id)
unfolding insert_statements
insert_statements-find id [] m = refl
insert_statements-find id (node ∷ nodes) m =
    insert_statements-find id nodes (insert (statement_entry node).0 (statement_entry node).1 m)
    ∙ ap (λ o. first_of (last_of (as_statement id) nodes) o)
        (find_node-insert (statement_entry node).0 id (statement_entry node).1 m)
    ∙ first_of_assoc (last_of (as_statement id) nodes) _ (find_node m id)
    ∙ ap (λ o. first_of (first_of (last_of (as_statement id) nodes) o) (find_node m id))
        (sym (as_statement-entry id node))

insert_result_maps-find :
    (id : Str) (nodes : List NodeType) (m : MapperMap)
    → find_node (insert_result_maps nodes m) id
      ≡ first_of (last_of (as_result_map id) nodes) (find_node m id)
unfolding insert_result_maps
insert_result_maps-find id [] m = refl
insert_result_maps-find id (n_result_map_node node ∷ nodes) m =
    insert_result_maps-find id nodes (insert node.id (n_result_map_node node) m)
    ∙ ap (λ o. first_of (last_of (as_result_map id) nodes) o)
        (find_node-insert node.id id (n_result_map_node node) m)
    ∙ first_of_assoc (last_of (as_result_map id) nodes) _ (find_node m id)
insert_result_maps-find id (_ ∷ nodes) m =
    insert_result_maps-find id nodes m
    ∙ ap (λ o. first_of o (find_node m id)) (sym (first_of_none (last_of (as_result_map id) nodes)))

-- The map before the include nodes are replaced has what is defined.
pub find_node-defined :
    (nodes : List NodeType) (id : Str)
    → find_node (insert_statements nodes (insert_result_maps nodes [])) id ≡ defined nodes id
unfolding defined find_node
find_node-defined nodes id =
    insert_statements-find id nodes (insert_result_maps nodes [])
    ∙ ap (λ o. first_of (last_of (as_statement id) nodes) o)
        (insert_result_maps-find id nodes [] ∙ first_of_none _)

module _ (find : Str → Option NodeType) where
  abbrev pub CanEnter : Str × NodeType → Type 0
  CanEnter entry = CanReplace find entry.1

  remove_key-CanEnter : (k : Str) (m : MapperMap) → All CanEnter m → All CanEnter (remove_key k m)
  unfolding remove_key
  remove_key-CanEnter k [] h = tt
  remove_key-CanEnter k ((j, v) ∷ m) (p, h) = elim (Bool-cases (str_eq j k)) [
    | inl same ↦ rw same (remove_key-CanEnter k m h)
    | inr other ↦ rw other (p, remove_key-CanEnter k m h)
  ]

  insert-CanEnter :
      (k : Str) (v : NodeType) (m : MapperMap)
      → CanReplace find v
      → All CanEnter m
      → All CanEnter (insert k v m)
  unfolding insert
  insert-CanEnter k v m p h = (p, remove_key-CanEnter k m h)

  statement_entry-CanEnter :
      (node : NodeType) → CanReplace find node → CanEnter (statement_entry node)
  unfolding statement_entry
  statement_entry-CanEnter (n_select_node k nodes) p = p
  statement_entry-CanEnter (n_delete_node k nodes) p = p
  statement_entry-CanEnter (n_update_node k nodes) p = p
  statement_entry-CanEnter (n_insert_node k nodes) p = p
  statement_entry-CanEnter (n_sql_node k nodes) p = p
  statement_entry-CanEnter _ p = tt

  pub insert_statements-CanEnter :
      (nodes : List NodeType) (m : MapperMap)
      → All (CanReplace find) nodes
      → All CanEnter m
      → All CanEnter (insert_statements nodes m)
  unfolding insert_statements
  insert_statements-CanEnter [] m p h = h
  insert_statements-CanEnter (node ∷ nodes) m (p, ps) h =
      insert_statements-CanEnter nodes (insert (statement_entry node).0 (statement_entry node).1 m)
        ps
        (insert-CanEnter (statement_entry node).0 (statement_entry node).1 m
          (statement_entry-CanEnter node p) h)

  pub insert_result_maps-CanEnter :
      (nodes : List NodeType) (m : MapperMap)
      → All CanEnter m
      → All CanEnter (insert_result_maps nodes m)
  unfolding insert_result_maps
  insert_result_maps-CanEnter [] m h = h
  insert_result_maps-CanEnter (n_result_map_node node ∷ nodes) m h =
      insert_result_maps-CanEnter nodes (insert node.id (n_result_map_node node) m)
        (insert-CanEnter node.id (n_result_map_node node) m tt h)
  insert_result_maps-CanEnter (_ ∷ nodes) m h = insert_result_maps-CanEnter nodes m h
