-- ===== src/Xml/Includes.antt =====
-- src/ast/lang/xml.rs: what `do_replace_include_node` does to the nodes of a map.
use rbatis.Ast.Defs.{
  NodeType, n_if, n_trim, n_for_each, n_otherwise, n_when, n_include, n_set, n_where, n_sql_node,
  n_insert_node, n_update_node, n_delete_node, n_select_node, Nodes, nil, cons,
}
use rbatis.Xml.Inclusion.{
  IsStatement, sql_statement, insert_statement, update_statement, delete_statement,
  select_statement, IsBlock, in_if, in_trim, in_foreach, in_otherwise, in_when, in_set, in_where,
  in_statement, IsPassed, IsIncluded, ended, replaced, entered, passed, IsReplaced, missing, filled,
  as_before, CanInclude, CanReplace,
}
use rbatis.Xml.Mapper.{
  MapperMap, find_node, included, replace_include, replace_entry, replace_entries,
  do_replace_include_node,
}
use rbatis.Prelude.{
  ◌≡◌, refl, All, inl, inr, Option, some, [], ◌∷◌, Bool-cases, Option-cases, Outcome, ok, Ensures,
  Ensures->>=, ◌>>=◌,
}
use rbatis.Text.{Str, str_eq, is_empty}

Returns {ℓ} : {T : Type ℓ} → Outcome T → Type ℓ
Returns {T = T} m = (value : T) × (m ≡ ok value)

Returns-then {ℓ κ} :
    {T : Type ℓ} {U : Type κ} (m : Outcome T) (f : T → U)
    → Returns m
    → Returns (m >>= λ value. ok (f value))
unfolding Returns
Returns-then m f (value, e) = rw e (f value, refl)

module _ (arg : MapperMap) where
  find : Str → Option NodeType
  find refid = find_node arg refid

  included-find : (refid : Str) → Ensures (λ v. find refid ≡ some v) (included arg refid)
  unfolding included find
  included-find refid = elim (Bool-cases (is_empty refid)) [
    | inl nothing ↦ rw nothing tt
    | inr named ↦ elim (Option-cases (find_node arg refid)) [
      | inl missed ↦ rw (named, missed) tt
      | inr (v, found) ↦ rw (named, found) refl
    ]
  ]

  -- A node that is entered.
  enters :
      (fill : Nodes → NodeType) (nodes rest : Nodes)
      → IsBlock fill
      → Ensures (IsIncluded find nodes) (replace_include arg nodes)
      → Ensures
          (IsIncluded find (cons (fill nodes) rest))
          (replace_include arg nodes >>= λ childs. ok (cons (fill childs) rest))
  enters fill nodes rest block h =
      Ensures->>= (IsIncluded find nodes) _ (replace_include arg nodes) _ h
        (λ childs done. entered fill nodes childs rest block done)

  passes :
      (node : NodeType) (rest : Nodes)
      → IsPassed node
      → Ensures (IsIncluded find rest) (replace_include arg rest)
      → Ensures
          (IsIncluded find (cons node rest))
          (replace_include arg rest >>= λ after. ok (cons node after))
  passes node rest p h =
      Ensures->>= (IsIncluded find rest) _ (replace_include arg rest) _ h
        (λ after done. passed node rest after p done)

  replace_include-Included :
      (nodes : Nodes) → Ensures (IsIncluded find nodes) (replace_include arg nodes)
  unfolding replace_include
  replace_include-Included nil = ended
  replace_include-Included (cons (n_include refid old) rest) =
      Ensures->>= (λ v. find refid ≡ some v) _ (included arg refid) _ (included-find refid)
        λ v found.
          Ensures->>= (IsIncluded find rest) _ (replace_include arg rest) _
            (replace_include-Included rest)
            (λ after done. replaced refid old rest after v found done)
  replace_include-Included (cons (n_if nodes test) rest) =
      enters _ nodes rest (in_if test) (replace_include-Included nodes)
  replace_include-Included (cons (n_trim nodes overrides) rest) =
      enters _ nodes rest (in_trim overrides) (replace_include-Included nodes)
  replace_include-Included (cons (n_for_each nodes each) rest) =
      enters _ nodes rest (in_foreach each) (replace_include-Included nodes)
  replace_include-Included (cons (n_otherwise nodes) rest) =
      enters _ nodes rest in_otherwise (replace_include-Included nodes)
  replace_include-Included (cons (n_when nodes test) rest) =
      enters _ nodes rest (in_when test) (replace_include-Included nodes)
  replace_include-Included (cons (n_set nodes) rest) =
      enters _ nodes rest in_set (replace_include-Included nodes)
  replace_include-Included (cons (n_where nodes) rest) =
      enters _ nodes rest in_where (replace_include-Included nodes)
  replace_include-Included (cons (n_sql_node id nodes) rest) =
      enters _ nodes rest (in_statement id _ (sql_statement id)) (replace_include-Included nodes)
  replace_include-Included (cons (n_insert_node id nodes) rest) =
      enters _ nodes rest (in_statement id _ (insert_statement id)) (replace_include-Included nodes)
  replace_include-Included (cons (n_update_node id nodes) rest) =
      enters _ nodes rest (in_statement id _ (update_statement id)) (replace_include-Included nodes)
  replace_include-Included (cons (n_delete_node id nodes) rest) =
      enters _ nodes rest (in_statement id _ (delete_statement id)) (replace_include-Included nodes)
  replace_include-Included (cons (n_select_node id nodes) rest) =
      enters _ nodes rest (in_statement id _ (select_statement id)) (replace_include-Included nodes)
  replace_include-Included (cons leaf rest) = passes leaf rest tt (replace_include-Included rest)

  fills :
      (id : Str) (fill : Nodes → NodeType) (nodes : Nodes)
      → IsStatement id fill
      → Ensures
          (λ w. IsReplaced find (some (fill nodes)) (some w))
          (replace_include arg nodes >>= λ childs. ok (fill childs))
  fills id fill nodes statement =
      Ensures->>= (IsIncluded find nodes) _ (replace_include arg nodes) _
        (replace_include-Included nodes) (λ childs done. filled id fill nodes childs statement done)

  replace_entry-Replaced :
      (v : NodeType) → Ensures (λ w. IsReplaced find (some v) (some w)) (replace_entry arg v)
  unfolding replace_entry
  replace_entry-Replaced (n_select_node id nodes) = fills id _ nodes (select_statement id)
  replace_entry-Replaced (n_delete_node id nodes) = fills id _ nodes (delete_statement id)
  replace_entry-Replaced (n_update_node id nodes) = fills id _ nodes (update_statement id)
  replace_entry-Replaced (n_insert_node id nodes) = fills id _ nodes (insert_statement id)
  replace_entry-Replaced (n_sql_node id nodes) = fills id _ nodes (sql_statement id)
  replace_entry-Replaced v = as_before v tt

  replace_entries-Replaced :
      (m : MapperMap) (id : Str)
      → Ensures
          (λ after. IsReplaced find (find_node m id) (find_node after id))
          (replace_entries arg m)
  unfolding replace_entries find_node
  replace_entries-Replaced [] id = missing
  replace_entries-Replaced ((k, v) ∷ m) id =
      Ensures->>= (λ w. IsReplaced find (some v) (some w)) _ (replace_entry arg v) _
        (replace_entry-Replaced v)
        λ after done.
          Ensures->>= (λ rest. IsReplaced find (find_node m id) (find_node rest id)) _
            (replace_entries arg m) _ (replace_entries-Replaced m id)
            λ rest h. elim (Bool-cases (str_eq k id)) [
              | inl same ↦ rw (find_node, same) done
              | inr other ↦ rw (find_node, other) h
            ]

  replace_include-Returns :
      (nodes : Nodes) → CanInclude find nodes → Returns (replace_include arg nodes)
  unfolding replace_include included find Returns
  replace_include-Returns nil h = (nil, refl)
  replace_include-Returns (cons (n_include refid old) rest) (named, (v, found), h) =
      let (after, e) = replace_include-Returns rest h in
      rw (named, found, e) (cons (n_include refid (cons v nil)) after, refl)
  replace_include-Returns (cons (n_if nodes _) rest) h =
      Returns-then (replace_include arg nodes) _ (replace_include-Returns nodes h)
  replace_include-Returns (cons (n_trim nodes _) rest) h =
      Returns-then (replace_include arg nodes) _ (replace_include-Returns nodes h)
  replace_include-Returns (cons (n_for_each nodes _) rest) h =
      Returns-then (replace_include arg nodes) _ (replace_include-Returns nodes h)
  replace_include-Returns (cons (n_otherwise nodes) rest) h =
      Returns-then (replace_include arg nodes) _ (replace_include-Returns nodes h)
  replace_include-Returns (cons (n_when nodes _) rest) h =
      Returns-then (replace_include arg nodes) _ (replace_include-Returns nodes h)
  replace_include-Returns (cons (n_set nodes) rest) h =
      Returns-then (replace_include arg nodes) _ (replace_include-Returns nodes h)
  replace_include-Returns (cons (n_where nodes) rest) h =
      Returns-then (replace_include arg nodes) _ (replace_include-Returns nodes h)
  replace_include-Returns (cons (n_sql_node _ nodes) rest) h =
      Returns-then (replace_include arg nodes) _ (replace_include-Returns nodes h)
  replace_include-Returns (cons (n_insert_node _ nodes) rest) h =
      Returns-then (replace_include arg nodes) _ (replace_include-Returns nodes h)
  replace_include-Returns (cons (n_update_node _ nodes) rest) h =
      Returns-then (replace_include arg nodes) _ (replace_include-Returns nodes h)
  replace_include-Returns (cons (n_delete_node _ nodes) rest) h =
      Returns-then (replace_include arg nodes) _ (replace_include-Returns nodes h)
  replace_include-Returns (cons (n_select_node _ nodes) rest) h =
      Returns-then (replace_include arg nodes) _ (replace_include-Returns nodes h)
  replace_include-Returns (cons leaf rest) h =
      Returns-then (replace_include arg rest) _ (replace_include-Returns rest h)

  replace_entry-Returns : (v : NodeType) → CanReplace find v → Returns (replace_entry arg v)
  unfolding replace_entry
  replace_entry-Returns (n_select_node id nodes) h =
      Returns-then (replace_include arg nodes) _ (replace_include-Returns nodes h)
  replace_entry-Returns (n_delete_node id nodes) h =
      Returns-then (replace_include arg nodes) _ (replace_include-Returns nodes h)
  replace_entry-Returns (n_update_node id nodes) h =
      Returns-then (replace_include arg nodes) _ (replace_include-Returns nodes h)
  replace_entry-Returns (n_insert_node id nodes) h =
      Returns-then (replace_include arg nodes) _ (replace_include-Returns nodes h)
  replace_entry-Returns (n_sql_node id nodes) h =
      Returns-then (replace_include arg nodes) _ (replace_include-Returns nodes h)
  replace_entry-Returns v h = unfold Returns in (v, refl)

  replace_entries-Returns :
      (m : MapperMap) → All (λ entry. CanReplace find entry.1) m → Returns (replace_entries arg m)
  unfolding replace_entries Returns
  replace_entries-Returns [] h = ([], refl)
  replace_entries-Returns ((k, v) ∷ m) (p, h) =
      let (after, e) = replace_entry-Returns v p in
      let (rest, f) = replace_entries-Returns m h in rw (e, f) ((k, after) ∷ rest, refl)

-- If the replacement returns, for each id: where there was no node there is none; a statement has
-- its childs with the include nodes replaced that the search reaches, each by the node that its
-- refid had before; another node is as it was.
pub do_replace_include_node-Replaced :
    (arg : MapperMap) (id : Str)
    → Ensures
        (λ after. IsReplaced (find_node arg) (find_node arg id) (find_node after id))
        (do_replace_include_node arg)
unfolding do_replace_include_node find
do_replace_include_node-Replaced arg id = replace_entries-Replaced arg arg id

pub do_replace_include_node-Returns :
    (arg : MapperMap)
    → All (λ entry. CanReplace (find_node arg) entry.1) arg
    → (after : MapperMap) × (do_replace_include_node arg ≡ ok after)
unfolding do_replace_include_node find Returns
do_replace_include_node-Returns arg h = replace_entries-Returns arg arg h
