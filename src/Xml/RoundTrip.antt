-- ===== src/Xml/RoundTrip.antt =====
-- src/ast/lang/xml.rs: a mapper's text, by its events, gives the map of its nodes.
use mathlib.Core.Path.{subst, fun_ext}
use rbatis.Ast.Defs.{NodeType}
use rbatis.Xml.Inclusion.{CanReplace, IsReplaced}
use rbatis.Xml.Includes.{do_replace_include_node-Replaced, do_replace_include_node-Returns}
use rbatis.Xml.Defined.{
  defined, find_node-defined, insert_statements-CanEnter, insert_result_maps-CanEnter,
}
use rbatis.Xml.Decode.{loop_decode_xml, decode_into}
use rbatis.Xml.Decoding.{decode_into-tree}
use rbatis.Xml.Loader.{element, elements, no_elements, XmlEvent, start_element, end_element}
use rbatis.Xml.Loads.{parser_func-events}
use rbatis.Xml.Mapper.{
  MapperMap, find_node, insert_result_maps, insert_statements, do_replace_include_node, to_elements,
  parser,
}
use rbatis.Xml.Template.{Template, events, tree, template_nodes, IsTemplate}
use rbatis.Prelude.{◌≡◌, refl, sym, ◌∙◌, List, [], ◌∷◌, ◌++◌, All, Outcome, ok, Ensures}
use rbatis.Text.{Str, codes, str_eq}

-- The document of a mapper.
abbrev pub mapper_events : List (Str × Str) → Template → List XmlEvent
mapper_events attributes t =
    start_element (codes "mapper") attributes ∷ (events t ++ end_element (codes "mapper") ∷ [])

ensured :
    {T : Type 0} {m : Outcome T} {value : T} (P : T → Type 0) → m ≡ ok value → Ensures P m → P value
ensured P e h = subst (λ o. Ensures P o) e h

base-CanEnter :
    (nodes : List NodeType)
    → All (CanReplace (defined nodes)) nodes
    → let base = insert_statements nodes (insert_result_maps nodes []) in
      All (λ entry. CanReplace (find_node base) entry.1) base
base-CanEnter nodes can =
    subst
      (λ find.
        All (λ entry. CanReplace find entry.1)
          (insert_statements nodes (insert_result_maps nodes [])))
      (sym (fun_ext (find_node-defined nodes)))
      (insert_statements-CanEnter (defined nodes) nodes (insert_result_maps nodes []) can
        (insert_result_maps-CanEnter (defined nodes) nodes [] tt))

module _ (order : List Str → List Str) where
  loop_decode_xml-mapper :
      (attributes : List (Str × Str)) (t : Template)
      → IsTemplate order t
      → loop_decode_xml order
          (elements (element (codes "mapper") [] attributes (tree t)) no_elements)
        ≡ ok (template_nodes order t)
  unfolding loop_decode_xml decode_into str_eq
  loop_decode_xml-mapper attributes t good = rw (decode_into-tree order t [] good) refl

  parser-replaced :
      (attributes : List (Str × Str)) (t : Template)
      → IsTemplate order t
      → let nodes = template_nodes order t in
        parser order (mapper_events attributes t)
        ≡ do_replace_include_node (insert_statements nodes (insert_result_maps nodes []))
  unfolding parser to_elements
  parser-replaced attributes t good =
      rw
        (parser_func-events (codes "mapper") attributes t, loop_decode_xml-mapper attributes t good)
        refl

  -- If a mapper is of the known elements, no choice in it has two otherwise nodes, the elements bind,
  -- include, id and result have no content, and the searches of the statements meet no include node
  -- whose refid is empty or not defined, parsing the events of its text returns a map with nodes for
  -- exactly the ids that are defined: the last statement of the id, or else the last result map of it,
  -- where a statement's include nodes that the search reaches have the node that is defined for their
  -- refid. All nodes that are no statements are also entered, as no node, under the id "unknow".
  pub parser-mapper :
      (attributes : List (Str × Str)) (t : Template)
      → IsTemplate order t
      → All (CanReplace (defined (template_nodes order t))) (template_nodes order t)
      → (m : MapperMap) × (parser order (mapper_events attributes t) ≡ ok m)
        × ((id : Str)
            → IsReplaced
                (defined (template_nodes order t))
                (defined (template_nodes order t) id)
                (find_node m id))
  parser-mapper attributes t good can =
      let nodes = template_nodes order t in
      let base = insert_statements nodes (insert_result_maps nodes []) in
      let same : find_node base ≡ defined nodes = fun_ext (find_node-defined nodes) in
      let (m, returned) = do_replace_include_node-Returns base (base-CanEnter nodes can) in
      (
        m,
        parser-replaced attributes t good ∙ returned,
        λ id.
            subst (λ find. IsReplaced find (find id) (find_node m id)) same
              (ensured
                (λ after. IsReplaced (find_node base) (find_node base id) (find_node after id))
                returned (do_replace_include_node-Replaced base id)),
      )
