-- ===== src/Xml/Loads.antt =====
-- src/utils/xml_loader.rs: the events of a document give its elements.
use rbatis.Xml.Loader.{
  Element, element, Elements, no_elements, elements, XmlEvent, start_element, characters,
  end_element, ignored, failed, Loading, push_element, push_child, text_element, start, close,
  add_text, reset, parser_events, parser_func,
}
use rbatis.Xml.Template.{
  Tag, Template, done, text_then, comment_then, leaf_then, block_then, choose_then, block_tag,
  leaf_tag, plain_text, tag_events, tag_element, events, tree,
}
use rbatis.Prelude.{◌≡◌, refl, sym, ap, ◌∙◌, List, [], ◌∷◌, ◌++◌, append_assoc, ok, >>=-ap}
use rbatis.Text.{Str, codes}

append_elements : Elements → Elements → Elements
append_elements no_elements ys = ys
append_elements (elements x xs) ys = elements x (append_elements xs ys)

push_element-append :
    (xs : Elements) (x : Element) (ys : Elements)
    → append_elements (push_element xs x) ys ≡ append_elements xs (elements x ys)
unfolding append_elements push_element
push_element-append no_elements x ys = refl
push_element-append (elements y xs) x ys =
    ap (λ rest. elements y rest) (push_element-append xs x ys)

append_none : (xs : Elements) → append_elements xs no_elements ≡ xs
unfolding append_elements
append_none no_elements = refl
append_none (elements x xs) = ap (λ rest. elements x rest) (append_none xs)

-- An element with more childs.
abbrev with_childs : Element → Elements → Element
with_childs (element tag data_text attributes childs) more =
    element tag data_text attributes (append_elements childs more)

abbrev loading : List Element → Loading
loading fathers = record { temp_element = element [] [] [] no_elements; fathers = fathers }

-- Only its tag and its attributes are left in the element that the loader reuses.
forget_temp :
    (rest : List XmlEvent) (tag : Str) (attributes : List (Str × Str)) (fathers : List Element)
    → parser_events rest
        (record { temp_element = element tag [] attributes no_elements; fathers = fathers })
      ≡ parser_events rest (loading fathers)
unfolding parser_events start reset
forget_temp [] tag attributes fathers = refl
forget_temp (start_element name others ∷ rest) tag attributes fathers = refl
forget_temp (characters s ∷ rest) tag attributes fathers =
    >>=-ap (add_text s fathers) _ _ (λ after. forget_temp rest tag attributes after)
forget_temp (end_element name ∷ rest) tag attributes fathers = refl
forget_temp (failed ∷ rest) tag attributes fathers = refl
forget_temp (ignored ∷ rest) tag attributes fathers = forget_temp rest tag attributes fathers

-- The events of these elements give the last father these childs.
abbrev Loads : List XmlEvent → Elements → Type 0
Loads inner childs =
    (rest : List XmlEvent) (tag data_text : Str) (attributes : List (Str × Str)) (before : Elements)
    (fathers : List Element)
    → parser_events (inner ++ rest) (loading (element tag data_text attributes before ∷ fathers))
      ≡ parser_events rest
          (loading (element tag data_text attributes (append_elements before childs) ∷ fathers))

Loads-tag :
    (tag : Tag) (inner after : List XmlEvent) (childs siblings : Elements)
    → Loads inner childs
    → Loads after siblings
    → Loads (tag_events tag inner after) (elements (tag_element tag childs) siblings)
unfolding parser_events start reset close push_child append_elements
Loads-tag (name, attributes) inner after childs siblings load next rest tag data_text others before
      fathers =
    let father = element tag data_text others before in
    let fresh = element name [] attributes no_elements in
    let child = element name [] attributes childs in
    forget_temp (inner ++ end_element name ∷ after ++ rest) name attributes
      (fresh ∷ father ∷ fathers)
    ∙ ap (λ es. parser_events es (loading (fresh ∷ father ∷ fathers)))
        (append_assoc inner (end_element name ∷ after) rest)
    ∙ load (end_element name ∷ (after ++ rest)) name [] attributes no_elements (father ∷ fathers)
    ∙ next rest tag data_text others (push_element before child) fathers
    ∙ ap (λ es. parser_events rest (loading (element tag data_text others es ∷ fathers)))
        (push_element-append before child siblings)

load_none : Loads [] no_elements
load_none rest tag data_text attributes before fathers =
    ap (λ es. parser_events rest (loading (element tag data_text attributes es ∷ fathers)))
      (sym (append_none before))

load : (t : Template) → Loads (events t) (tree t)
unfolding events tree parser_events add_text push_child text_element plain_text
load done = load_none
load (text_then s rest) = λ more tag data_text attributes before fathers.
    load rest more tag data_text attributes (push_element before (text_element s)) fathers
    ∙ ap (λ es. parser_events more (loading (element tag data_text attributes es ∷ fathers)))
        (push_element-append before (text_element s) (tree rest))
load (comment_then rest) = λ more tag data_text attributes before fathers.
    load rest more tag data_text attributes before fathers
load (leaf_then leaf rest) =
    Loads-tag (leaf_tag leaf) [] (events rest) no_elements (tree rest) load_none (load rest)
load (block_then block children rest) =
    Loads-tag (block_tag block) (events children) (events rest) (tree children) (tree rest)
      (load children) (load rest)
load (choose_then children rest) =
    Loads-tag (codes "choose", []) (events children) (events rest) (tree children) (tree rest)
      (load children) (load rest)

-- The events of a document with one root element give that element.
pub parser_func-events :
    (tag : Str) (attributes : List (Str × Str)) (t : Template)
    → parser_func (start_element tag attributes ∷ (events t ++ end_element tag ∷ []))
      ≡ ok (element tag [] attributes (tree t) ∷ [])
unfolding parser_func parser_events start reset close append_elements
parser_func-events tag attributes t =
    let root = element tag [] attributes no_elements in
    forget_temp (events t ++ end_element tag ∷ []) tag attributes (root ∷ [])
    ∙ load t (end_element tag ∷ []) tag [] attributes no_elements []
